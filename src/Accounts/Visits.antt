-- ===== src/Accounts/Visits.antt =====
-- What happens to a new account: its registration, the first sign-in with the link or with Google,
-- and the sign-in by password after it.
use pickwise_v2_backend.Prelude.{
  ℕ, ◌+◌, ◌*◌, ◌≡◌, refl, ap, ◌∙◌, inl, inr, Bool-cases, String, true, false, ◌||◌, none, some,
  List, ◌∷◌, str_eq, or_true, ltb, any,
}
use pickwise_v2_backend.Throttle.Limits.{check_quota}
use pickwise_v2_backend.Accounts.Users.{User, find, update, has_email, has_sub, is_named}
use pickwise_v2_backend.Accounts.Rows.{find-update, find-here, find-past, str_eq_self}
use pickwise_v2_backend.Accounts.Tokens.{
  Payload, Security, IsSound, create_email_verification_token, verify_email_token, verified_email,
  create_access_token,
}
use pickwise_v2_backend.Accounts.Routes.{
  verification_mail, status_error, Site, failed, already_registered, created, bearer, Setting,
  Moment, new_account, verified, register, verify_row, verify_address, verify_email, has_password,
  login_status, login_row, login,
}
use pickwise_v2_backend.Accounts.Google.{
  Naming, linked, google_login, google_claims, google_email, google_row, link_or_visit, link_active,
}

module _ (sec : Security) (good : IsSound sec) (set : Setting) where
  -- The state after a registration that succeeds.
  abbrev registered : Moment → ℕ → String → String → String → String → Site → Site
  registered now salt id username email password s = record s {
    users = new_account salt id username email (sec.hash salt password) ∷ s.users;
    mails =
        verification_mail email
          (create_email_verification_token sec now.seconds set.verification_hours email)
        ∷ s.mails;
  }

  register-created :
      (now : Moment) (salt : ℕ) (id username email password : String) (s : Site)
      → (register sec set now salt id username email password s).1 ≡ created
      → (register sec set now salt id username email password s).0
        ≡ registered now salt id username email password s
  unfolding register
  register-created now salt id username email password s h =
      elim (Bool-cases (any (λ u. str_eq u.username username || str_eq u.email email) s.users)) [
        | inl taken ↦
            let e : (register sec set now salt id username email password s).1
                ≡ failed already_registered =
              rw taken refl in
            cc
        | inr free ↦ rw free refl
      ]

  -- A sign-in by password that succeeds.
  login-password :
      (now : Moment) (name password : String) (salt : ℕ) (u : User) (s : Site)
      → find (is_named name) s.users ≡ some u
      → u.password ≡ some (sec.hash salt password)
      → status_error u.status ≡ none
      → u.is_verified ≡ true
      → (check_quota set.texts set.per_second now.ticks "login:account" name 10 300 s.hits).1 ≡ true
      → (login sec set now name password s).1
        ≡ bearer (create_access_token sec now.seconds set.access_minutes u.id)
  unfolding login login_row has_password login_status
  login-password now name password salt u s found hashed is_open is_verified within =
      rw
        (
          within,
          found,
          hashed,
          good.hash_text salt password,
          good.verify-hash salt password,
          is_open,
          is_verified,
        )
        refl

  -- The new row is found by its address, also after a change that keeps the address and the name.
  find-new_account :
      (salt : ℕ) (id username email hashed : String) (us : List User)
      → find (has_email email) (new_account salt id username email hashed ∷ us)
        ≡ some (new_account salt id username email hashed)
  find-new_account salt id username email hashed us =
      find-here (has_email email) (new_account salt id username email hashed) us (str_eq_self email)

  verify_email-verified :
      (start now : Moment) (salt : ℕ) (id username email hashed : String) (us : List User)
      (s : Site)
      → s.users ≡ new_account salt id username email hashed ∷ us
      → str_eq email "" ≡ false
      → ltb now.seconds (start.seconds + set.verification_hours * 3600) ≡ true
      → (verify_email sec set now
          (create_email_verification_token sec start.seconds set.verification_hours email)
          s).0
        ≡ record s { users = update id verified s.users }
  unfolding verify_email verify_address verify_row verify_email_token
      create_email_verification_token verified_email
  verify_email-verified start now salt id username email hashed us s rows filled valid =
      let p : Payload = record {
        sub = some email;
        exp = start.seconds + set.verification_hours * 3600;
        scope = some "email_verification";
        fp = none;
      } in
      let found : find (has_email email) s.users
          ≡ some (new_account salt id username email hashed) =
        ap (find (has_email email)) rows ∙ find-new_account salt id username email hashed us in
      rw (good.decode-encode now.seconds p valid) (rw filled (rw found refl))

  -- The new row after a change to it, as a sign-in with its address finds it.
  find-changed_account :
      (salt : ℕ) (id username email hashed : String) (us : List User) (change : User → User)
      → ((u : User) → is_named email (change u) ≡ is_named email u)
      → find (is_named email) (update id change (new_account salt id username email hashed ∷ us))
        ≡ some (change (new_account salt id username email hashed))
  find-changed_account salt id username email hashed us change same =
      let u = new_account salt id username email hashed in
      find-update id change (is_named email) (u ∷ us) same
      ∙ rw
          (find-here (is_named email) u us
            (rw (str_eq_self email) (or_true (str_eq username email))))
          (rw (str_eq_self id) refl)

  -- An account that is registered, with an address that is a text, can sign in: if its link is
  -- followed before it expires and the limit lets the address sign in, its address and its password
  -- give a token of that account.
  pub register-verify_email-login :
      (start now later : Moment) (salt : ℕ) (id username email password : String) (s : Site)
      → (register sec set start salt id username email password s).1 ≡ created
      → str_eq email "" ≡ false
      → ltb now.seconds (start.seconds + set.verification_hours * 3600) ≡ true
      → (check_quota set.texts set.per_second later.ticks "login:account" email 10 300 s.hits).1
        ≡ true
      → (login sec set later email password
          (verify_email sec set now
            (create_email_verification_token sec start.seconds set.verification_hours email)
            (register sec set start salt id username email password s).0).0).1
        ≡ bearer (create_access_token sec later.seconds set.access_minutes id)
  register-verify_email-login start now later salt id username email password s ok filled valid
        within =
      let s1 = registered start salt id username email password s in
      let hashed = sec.hash salt password in
      rw
        (
          register-created start salt id username email password s ok,
          verify_email-verified start now salt id username email hashed s.users s1 refl filled
              valid,
        )
        (login-password later email password salt
          (verified (new_account salt id username email hashed))
          (record s1 { users = update id verified s1.users })
          (find-changed_account salt id username email hashed s.users verified (λ u. refl)) refl
          refl refl within)

  google_login-linked :
      (now : Moment) (salt : ℕ) (id username email hashed other_id sub : String) (us : List User)
      (naming : Naming) (s : Site)
      → s.users ≡ new_account salt id username email hashed ∷ us
      → str_eq email "" ≡ false
      → find (has_sub sub) us ≡ none
      → (google_login sec set naming true now other_id
          (some (record { email = some email; email_verified = true; sub = sub }))
          s).0
        ≡ record s { users = update id (linked sub) s.users }
  unfolding google_login google_claims google_email google_row link_or_visit link_active
  google_login-linked now salt id username email hashed other_id sub us naming s rows filled
        unlinked =
      let u = new_account salt id username email hashed in
      let found : find (has_email email) s.users ≡ some u =
        ap (find (has_email email)) rows ∙ find-new_account salt id username email hashed us in
      let not_linked : find (has_sub sub) s.users ≡ none =
        ap (find (has_sub sub)) rows ∙ (find-past (has_sub sub) u us refl ∙ unlinked) in
      rw filled (rw not_linked (rw found refl))

  -- A registered account whose address is not verified signs in by password as soon as the owner of
  -- the address has signed in with Google, with a subject that no account has and an address that is
  -- a text: the sign-in with Google verifies the account and leaves the password of whoever
  -- registered it.
  pub register-google_login-login :
      (start now later : Moment) (salt : ℕ) (id username email password other_id sub : String)
      (naming : Naming) (s : Site)
      → (register sec set start salt id username email password s).1 ≡ created
      → str_eq email "" ≡ false
      → find (has_sub sub) s.users ≡ none
      → (check_quota set.texts set.per_second later.ticks "login:account" email 10 300 s.hits).1
        ≡ true
      → (login sec set later email password
          (google_login sec set naming true now other_id
            (some (record { email = some email; email_verified = true; sub = sub }))
            (register sec set start salt id username email password s).0).0).1
        ≡ bearer (create_access_token sec later.seconds set.access_minutes id)
  register-google_login-login start now later salt id username email password other_id sub naming s
        ok filled unlinked within =
      let s1 = registered start salt id username email password s in
      let hashed = sec.hash salt password in
      rw
        (
          register-created start salt id username email password s ok,
          google_login-linked now salt id username email hashed other_id sub s.users naming s1 refl
              filled unlinked,
        )
        (login-password later email password salt
          (linked sub (new_account salt id username email hashed))
          (record s1 { users = update id (linked sub) s1.users })
          (find-changed_account salt id username email hashed s.users (linked sub) (λ u. refl)) refl
          refl refl within)
