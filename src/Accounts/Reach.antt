-- ===== src/Accounts/Reach.antt =====
-- What every sequence of requests keeps. Two requests never overlap here: each runs to its commit.
use mathlib.Core.Path.{subst}
use pickwise_v2_backend.Prelude.{ℕ, ◌≡◌, sym, String, Bool, false, Option, [], any}
use pickwise_v2_backend.Accounts.Users.{User, Status, Role, find, has_id}
use pickwise_v2_backend.Accounts.Tokens.{Security, verify_email_token, verify_password_reset_token}
use pickwise_v2_backend.Accounts.Routes.{Site, Setting, Moment, register, verify_email, login}
use pickwise_v2_backend.Accounts.Passwords.{forgot_password, resend_verification, reset_password}
use pickwise_v2_backend.Accounts.Google.{Claims, Naming, google_login}
use pickwise_v2_backend.Accounts.Names.{IsNaming}
use pickwise_v2_backend.Accounts.Links.{forgot_password-resend_verification}
use pickwise_v2_backend.Accounts.Admins.{update_user_role, update_user_status}
use pickwise_v2_backend.Accounts.Consistent.{IsConsistent}
use pickwise_v2_backend.Accounts.Linked.{google_login-IsConsistent}
use pickwise_v2_backend.Accounts.Kept.{
  register-IsConsistent, verify_address-IsConsistent, reset_claimed-IsConsistent,
  role_row-IsConsistent, status_row-IsConsistent,
}

-- A request that changes the site. The key of a row that is added is new.
pub data Step (sec : Security) (set : Setting) (naming : Naming) : Site → Site → Type 0 where
  registers :
      (now : Moment) (salt : ℕ) (id username email password : String) (s : Site)
      → any (has_id id) s.users ≡ false
      → Step sec set naming s (register sec set now salt id username email password s).0
  verifies :
      (now : Moment) (token : String) (s : Site)
      → Step sec set naming s (verify_email sec set now token s).0
  signs_in :
      (now : Moment) (name password : String) (s : Site)
      → Step sec set naming s (login sec set now name password s).0
  asks_reset :
      (now : Moment) (email : String) (s : Site)
      → Step sec set naming s (forgot_password sec set now email s).0
  asks_verification :
      (now : Moment) (email : String) (s : Site)
      → Step sec set naming s (resend_verification sec set now email s).0
  resets :
      (now : Moment) (salt : ℕ) (token password : String) (s : Site)
      → Step sec set naming s (reset_password sec set now salt token password s).0
  uses_google :
      (is_configured : Bool) (now : Moment) (id : String) (claims : Option Claims) (s : Site)
      → any (has_id id) s.users ≡ false
      → Step sec set naming s (google_login sec set naming is_configured now id claims s).0
  changes_role :
      (id : String) (role : Role) (current : User) (s : Site)
      → Step sec set naming s (record s { users = (update_user_role id role current s.users).0 })
  changes_status :
      (id : String) (status : Status) (current : User) (s : Site)
      → Step sec set naming s
          (record s { users = (update_user_status id status current s.users).0 })

pub data Reach (sec : Security) (set : Setting) (naming : Naming) (s : Site) : Site → Type 0 where
  here : Reach sec set naming s s
  next :
      {t u : Site} → Reach sec set naming s t → Step sec set naming t u → Reach sec set naming s u

module _ (sec : Security) (set : Setting) (naming : Naming) (good : IsNaming naming) where
  Step-IsConsistent :
      {s t : Site} → Step sec set naming s t → IsConsistent s.users → IsConsistent t.users
  unfolding verify_email login reset_password update_user_role update_user_status
  Step-IsConsistent (registers now salt id username email password s new) c =
      register-IsConsistent sec set now salt id username email password s new c
  Step-IsConsistent (verifies now token s) c =
      verify_address-IsConsistent sec set (verify_email_token sec now.seconds token) s c
  Step-IsConsistent (signs_in now name password s) c = c
  Step-IsConsistent (asks_reset now email s) c =
      subst IsConsistent (sym (forgot_password-resend_verification sec set now email s).0.0.0) c
  Step-IsConsistent (asks_verification now email s) c =
      subst IsConsistent (sym (forgot_password-resend_verification sec set now email s).1.0.0) c
  Step-IsConsistent (resets now salt token password s) c =
      reset_claimed-IsConsistent sec set salt password
        (verify_password_reset_token sec now.seconds token) s c
  Step-IsConsistent (uses_google is_configured now id claims s new) c =
      google_login-IsConsistent sec set naming good is_configured now id claims s new c
  Step-IsConsistent (changes_role id role current s) c =
      role_row-IsConsistent (find (has_id id) s.users) current role s.users c
  Step-IsConsistent (changes_status id status current s) c =
      status_row-IsConsistent (find (has_id id) s.users) current status s.users c

  -- If numbered user names differ, every state that requests reach from one without accounts has
  -- accounts with different ids, names, addresses and Google subjects, each with a password or with
  -- a verified Google subject: no commit breaks a column that the database declares unique.
  pub Reach-IsConsistent :
      {s t : Site} → s.users ≡ [] → Reach sec set naming s t → IsConsistent t.users
  Reach-IsConsistent e here =
      subst IsConsistent (sym e)
        (record { ids = tt; names = tt; emails = tt; subs = tt; ways = tt })
  Reach-IsConsistent e (next path step) = Step-IsConsistent step (Reach-IsConsistent e path)
