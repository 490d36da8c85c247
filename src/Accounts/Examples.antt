-- ===== src/Accounts/Examples.antt =====
-- Accounts and sign-in at concrete inputs, with the plain tokens.
use pickwise_v2_backend.Prelude.{
  size, ℕ, zero, suc, ◌+◌, ◌*◌, ◌≤◌, ◌≡◌, refl, ap, String, true, false, some, [], ◌∷◌, any, arith,
  ltb, if◌then◌else◌,
}
use pickwise_v2_backend.Throttle.{record_hit, lookup}
use pickwise_v2_backend.Throttle.Limits.{check_quota}
use pickwise_v2_backend.Accounts.Users.{User, inactive, user, admin, find, has_username, is_named}
use pickwise_v2_backend.Accounts.Tokens.{
  create_access_token, create_email_verification_token, create_password_reset_token, resolve_row,
  resolve_user, refused, not_validated,
}
use pickwise_v2_backend.Accounts.Routes.{
  Site, Setting, Moment, bearer, failed, account_inactive, bad_credentials, invalid_reset,
  generic_email, new_account, register, verify_email, login,
}
use pickwise_v2_backend.Accounts.Passwords.{forgot_password, resend_verification, reset_password}
use pickwise_v2_backend.Accounts.Google.{Naming, generate_unique_username, google_login}
use pickwise_v2_backend.Accounts.Admins.{count_active_admins, update_user_role, update_user_status}
use pickwise_v2_backend.Accounts.Names.{IsNaming, generate_unique_username-new}
use pickwise_v2_backend.Accounts.SignIn.{IsSignIn, login-resolve_user}
use pickwise_v2_backend.Accounts.Links.{
  IsQuiet, forgot_password-resend_verification, reset_password-single_use,
}
use pickwise_v2_backend.Accounts.Visits.{register-verify_email-login, register-google_login-login}
use pickwise_v2_backend.Accounts.Lockout.{count_active_admins_kept}
use pickwise_v2_backend.Accounts.Consistent.{IsConsistent}
use pickwise_v2_backend.Accounts.Reach.{registers, uses_google, here, next, Reach-IsConsistent}
use pickwise_v2_backend.Accounts.Plain.{plain, plain-IsSound}

abbrev setting : Setting
setting = record {
  texts = record { first_entry = λ s. s; normal = λ s. s; joined = λ bucket identity. identity };
  per_second = 1;
  access_minutes = 30;
  verification_hours = 24;
}

abbrev at_second : ℕ → Moment
at_second n = record { ticks = n; seconds = n }

abbrev no_site : Site
no_site = record { users = []; hits = []; mails = [] }

abbrev ann : User
ann = record (new_account 0 "1" "ann" "ann@site" (plain.hash 0 "secret")) {
  is_verified = true;
  role = admin;
}

abbrev bob : User
bob = record (new_account 0 "2" "bob" "bob@site" (plain.hash 0 "hidden")) { status = inactive }

abbrev site : Site
site = record { users = ann ∷ bob ∷ []; hits = []; mails = [] }

abbrev ann_token : String
unfolding create_access_token
ann_token = create_access_token plain 100 30 "1"

bob_runs :
    ((login plain setting (at_second 100) "bob" "hidden" site).1 ≡ failed account_inactive)
    × ((login plain setting (at_second 100) "bob" "secret" site).1 ≡ failed bad_credentials)
unfolding login check_quota record_hit find lookup
bob_runs = (refl, refl)

login-resolve_user_example :
    (u : User) × (find (is_named "ann") site.users ≡ some u)
    × IsSignIn plain setting (at_second 100) "secret" ann_token u
    × (resolve_user plain 5000 site.users ann_token
        ≡ (if ltb 5000 (100 + 30 * 60) then resolve_row plain (some u) else refused not_validated))
unfolding login check_quota record_hit find lookup ann_token create_access_token
login-resolve_user_example =
    login-resolve_user plain setting plain-IsSound (at_second 100) 5000 "ann" "secret" ann_token
      site (refl, (refl, tt)) refl

forgot_password-resend_verification_example :
    (IsQuiet "bob@site" site (forgot_password plain setting (at_second 5) "bob@site" site).0
      × ((forgot_password plain setting (at_second 5) "bob@site" site).1 ≡ generic_email))
    × (IsQuiet "bob@site" site (resend_verification plain setting (at_second 5) "bob@site" site).0
        × ((resend_verification plain setting (at_second 5) "bob@site" site).1 ≡ generic_email))
forgot_password-resend_verification_example =
    forgot_password-resend_verification plain setting (at_second 5) "bob@site" site

reset_password-single_use_example :
    (reset_password plain setting
      (at_second 20)
      9
      (create_password_reset_token plain 5 "bob@site" bob.password)
      "other"
      (reset_password plain setting
        (at_second 10)
        8
        (create_password_reset_token plain 5 "bob@site" bob.password)
        "hidden"
        site).0).1
    ≡ failed invalid_reset
unfolding reset_password create_password_reset_token
    pickwise_v2_backend.Accounts.Tokens.verify_password_reset_token find
reset_password-single_use_example =
    reset_password-single_use plain setting plain-IsSound 5 "bob@site"
      (create_password_reset_token plain 5 "bob@site" bob.password) bob.password (at_second 10)
      (at_second 20) 8 9 "hidden" "other" site refl refl refl

register-verify_email-login_example :
    (login plain setting
      (at_second 90)
      "cy@site"
      "word"
      (verify_email plain setting
        (at_second 60)
        (create_email_verification_token plain 30 24 "cy@site")
        (register plain setting (at_second 30) 3 "3" "cy" "cy@site" "word" site).0).0).1
    ≡ bearer (create_access_token plain 90 30 "3")
unfolding register check_quota record_hit find lookup
register-verify_email-login_example =
    register-verify_email-login plain plain-IsSound setting (at_second 30) (at_second 60)
      (at_second 90) 3 "3" "cy" "cy@site" "word" site refl refl refl refl

abbrev longer : String → ℕ → String
longer base zero = String.◌∷◌ "1" base
longer base (suc n) = String.◌∷◌ "1" (longer base n)

abbrev naming : Naming
naming = record { base_of = λ email. email; numbered = longer }

size-longer : (base : String) (n : ℕ) → size (longer base n) ≡ suc (n + size base)
size-longer base zero = omega arith
size-longer base (suc n) = omega (arith, size-longer base n)

naming-IsNaming : IsNaming naming
naming-IsNaming = record {
  numbered-inj = λ base i j e.
      let k : size (longer base i) ≡ size (longer base j) = ap size e in
      omega (arith, k, size-longer base i, size-longer base j);
  numbered_new = λ base i e.
      let k : size (longer base i) ≡ size base = ap size e in
      absurd (omega (arith, k, size-longer base i));
}

register-google_login-login_example :
    (login plain setting
      (at_second 90)
      "cy@site"
      "word"
      (google_login plain setting naming true
        (at_second 60)
        "4"
        (some (record { email = some "cy@site"; email_verified = true; sub = "g1" }))
        (register plain setting (at_second 30) 3 "3" "cy" "cy@site" "word" site).0).0).1
    ≡ bearer (create_access_token plain 90 30 "3")
unfolding register check_quota record_hit find lookup
register-google_login-login_example =
    register-google_login-login plain plain-IsSound setting (at_second 30) (at_second 60)
      (at_second 90) 3 "3" "cy" "cy@site" "word" "4" "g1" naming site refl refl refl refl

generate_unique_username-new_example :
    any (has_username (generate_unique_username naming site.users "ann")) site.users ≡ false
generate_unique_username-new_example =
    generate_unique_username-new naming naming-IsNaming site.users "ann"

ann_again_runs : generate_unique_username naming site.users "ann" ≡ "11ann"
unfolding generate_unique_username
ann_again_runs = refl

count_active_admins_kept_example :
    (1 ≤ count_active_admins (update_user_role "1" user ann site.users).0)
    × (1 ≤ count_active_admins (update_user_status "1" inactive ann site.users).0)
unfolding count_active_admins
count_active_admins_kept_example =
    count_active_admins_kept site.users (refl, (refl, tt)) (omega arith) "1" user inactive ann

-- A registration, and then a first visit with Google.
abbrev cy_site : Site
cy_site = (register plain setting (at_second 30) 3 "3" "cy" "cy@site" "word" no_site).0

abbrev di_site : Site
di_site =
    (google_login plain setting naming true (at_second 60) "4"
      (some (record { email = some "di@site"; email_verified = true; sub = "g2" })) cy_site).0

Reach-IsConsistent_example : IsConsistent di_site.users
unfolding register
Reach-IsConsistent_example =
    Reach-IsConsistent plain setting naming naming-IsNaming {s = no_site} {t = di_site} refl (
      next {t = cy_site}
        (next here (registers (at_second 30) 3 "3" "cy" "cy@site" "word" no_site refl))
        (uses_google true (at_second 60) "4"
          (some (record { email = some "di@site"; email_verified = true; sub = "g2" })) cy_site
          refl))

di_runs : count_active_admins di_site.users ≡ 0
unfolding register google_login count_active_admins find
di_runs = refl
