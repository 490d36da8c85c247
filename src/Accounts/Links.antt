-- ===== src/Accounts/Links.antt =====
-- Links that are mailed: who gets one, and that a link to a new password is spent once.
use pickwise_v2_backend.Prelude.{
  ℕ, ◌+◌, ◌*◌, ◌≡◌, refl, sym, ◌∙◌, ◌⊎◌, inl, inr, Bool-cases, String, false, not, ◌&&◌, is_some,
  Option, none, some, ◌∷◌, str_eq, eq_iff, ltb,
}
use pickwise_v2_backend.Accounts.Users.{User, find, has_email}
use pickwise_v2_backend.Accounts.Rows.{find_test, find-update, str_eq_self}
use pickwise_v2_backend.Accounts.Tokens.{
  password_reset_fingerprint, or_no_text, Payload, Security, IsSound, reset_claims,
  create_email_verification_token, create_password_reset_token, verify_password_reset_token,
}
use pickwise_v2_backend.Accounts.Routes.{
  Mail, verification_mail, reset_mail, google_notice, Site, failed, invalid_reset, reset_done,
  generic_email, Setting, Moment,
}
use pickwise_v2_backend.Accounts.Passwords.{
  with_password, may_send_to, send_within, forgot_mail, forgot_row, forgot_password, resend_row,
  resend_verification, reset_row, reset_claimed, reset_password,
}

abbrev pub address : Mail → String
address (verification_mail to token) = to
address (reset_mail to token) = to
address (google_notice to) = to

-- At most one new mail, and only to the address; the accounts stay.
abbrev pub IsQuiet : String → Site → Site → Type 0
IsQuiet email s s' =
    (s'.users ≡ s.users)
    × ((s'.mails ≡ s.mails) ⊎ ((m : Mail) × (s'.mails ≡ m ∷ s.mails) × (address m ≡ email)))

module _ (sec : Security) (set : Setting) where
  send_within-IsQuiet :
      (now : Moment) (cooldown daily email : String) (mail : Mail) (s : Site)
      → address mail ≡ email
      → IsQuiet email s (send_within sec set now cooldown daily email mail s).0
        × ((send_within sec set now cooldown daily email mail s).1 ≡ generic_email)
  unfolding send_within
  send_within-IsQuiet now cooldown daily email mail s h =
      elim (Bool-cases (may_send_to sec set now cooldown daily email s.hits).1) [
        | inl may ↦ ((refl, inr (mail, rw may refl, h)), refl)
        | inr hushed ↦ ((refl, inl (rw hushed refl)), refl)
      ]

  address-forgot_mail :
      (now : Moment) (u : User) (o : Option String)
      → address (forgot_mail sec set now u o) ≡ u.email
  unfolding forgot_mail
  address-forgot_mail now u none = refl
  address-forgot_mail now u (some hashed) = refl

  forgot_row-IsQuiet :
      (now : Moment) (email : String) (o : Option User) (s : Site)
      → o ≡ find (has_email email) s.users
      → IsQuiet email s (forgot_row sec set now email o s).0
        × ((forgot_row sec set now email o s).1 ≡ generic_email)
  unfolding forgot_row
  forgot_row-IsQuiet now email none s h = ((refl, inl refl), refl)
  forgot_row-IsQuiet now email (some u) s h =
      send_within-IsQuiet now "forgot_password:cooldown" "forgot_password:daily" email
        (forgot_mail sec set now u u.password) s
        (address-forgot_mail now u u.password
          ∙ (eq_iff u.email email).0 (find_test (has_email email) s.users u (sym h)))

  resend_row-IsQuiet :
      (now : Moment) (email : String) (o : Option User) (s : Site)
      → o ≡ find (has_email email) s.users
      → IsQuiet email s (resend_row sec set now email o s).0
        × ((resend_row sec set now email o s).1 ≡ generic_email)
  unfolding resend_row
  resend_row-IsQuiet now email none s h = ((refl, inl refl), refl)
  resend_row-IsQuiet now email (some u) s h =
      elim (Bool-cases (not u.is_verified && is_some u.password)) [
        | inl due ↦ rw due (
            send_within-IsQuiet now "resend_verification:cooldown" "resend_verification:daily" email
              (verification_mail u.email
                (create_email_verification_token sec now.seconds set.verification_hours u.email))
              s ((eq_iff u.email email).0 (find_test (has_email email) s.users u (sym h))))
        | inr shut ↦ rw shut ((refl, inl refl), refl)
      ]

  -- Whatever address they are asked about, the two routes that mail a link give the same answer,
  -- change no account, and send at most one mail, to that address only.
  pub forgot_password-resend_verification :
      (now : Moment) (email : String) (s : Site)
      → (IsQuiet email s (forgot_password sec set now email s).0
          × ((forgot_password sec set now email s).1 ≡ generic_email))
        × (IsQuiet email s (resend_verification sec set now email s).0
            × ((resend_verification sec set now email s).1 ≡ generic_email))
  unfolding forgot_password resend_verification
  forgot_password-resend_verification now email s = (
    forgot_row-IsQuiet now email (find (has_email email) s.users) s refl,
    resend_row-IsQuiet now email (find (has_email email) s.users) s refl,
  )

  -- A spent link: the row has the new hash, and the fingerprint was that of the old one.
  reset_row-done :
      (salt : ℕ) (password fp email : String) (o : Option User) (s : Site)
      → o ≡ find (has_email email) s.users
      → (reset_row sec set salt password fp o s).1 ≡ reset_done
      → (u : User) × (find (has_email email) s.users ≡ some u)
        × (fp ≡ password_reset_fingerprint sec u.password)
        × (find (has_email email) (reset_row sec set salt password fp o s).0.users
            ≡ some (with_password (sec.hash salt password) u))
  unfolding reset_row
  reset_row-done salt password fp email none s h k = cc
  reset_row-done salt password fp email (some u) s h k =
      elim (Bool-cases (str_eq fp (password_reset_fingerprint sec u.password))) [
        | inl same ↦ (
          u,
          sym h,
          (eq_iff _ _).0 same,
          rw same (
              find-update u.id (with_password (sec.hash salt password)) (has_email email) s.users
                (λ v. refl)
              ∙ rw (sym h) (rw (str_eq_self u.id) refl)),
        )
        | inr other ↦
            let e : (reset_row sec set salt password fp (some u) s).1 ≡ failed invalid_reset =
              rw other refl in
            cc
      ]

  -- What a link to a new password may be read back as.
  reset_token-cases :
      (good : IsSound sec) (issued later : ℕ) (email : String) (password : Option String)
      → (verify_password_reset_token sec later
            (create_password_reset_token sec issued email password)
          ≡ none)
        ⊎ (verify_password_reset_token sec later
              (create_password_reset_token sec issued email password)
            ≡ some (email, password_reset_fingerprint sec password))
  unfolding verify_password_reset_token create_password_reset_token reset_claims
  reset_token-cases good issued later email password =
      let p : Payload = record {
        sub = some email;
        exp = issued + 15 * 60;
        scope = some "password_reset";
        fp = some (password_reset_fingerprint sec password);
      } in
      elim (Bool-cases (ltb later (issued + 15 * 60))) [
        | inl valid ↦ elim (Bool-cases (str_eq email "")) [
          | inl blank ↦ inl (rw (good.decode-encode later p valid, blank) refl)
          | inr filled ↦ inr (
              rw (good.decode-encode later p valid, filled, good.digest_text (or_no_text password))
                refl)
        ]
        | inr expired ↦ inl (rw (good.decode_expired later p expired) refl)
      ]

  reset_row-stale :
      (salt : ℕ) (password fp : String) (u : User) (o : Option User) (s : Site)
      → o ≡ some u
      → str_eq fp (password_reset_fingerprint sec u.password) ≡ false
      → (reset_row sec set salt password fp o s).1 ≡ failed invalid_reset
  unfolding reset_row
  reset_row-stale salt password fp u o s h stale = rw h (rw stale refl)

  -- If the fingerprint of the new password's hash differs from that of the old one, a link that has
  -- set a new password is refused at any later time, whatever password it is sent with.
  pub reset_password-single_use :
      (good : IsSound sec) (issued : ℕ) (email token : String) (old : Option String)
      (now later : Moment) (salt salt' : ℕ) (password password' : String) (s : Site)
      → token ≡ create_password_reset_token sec issued email old
      → (reset_password sec set now salt token password s).1 ≡ reset_done
      → str_eq
          (password_reset_fingerprint sec old)
          (password_reset_fingerprint sec (some (sec.hash salt password)))
        ≡ false
      → (reset_password sec set later salt' token password'
          (reset_password sec set now salt token password s).0).1
        ≡ failed invalid_reset
  unfolding reset_password reset_claimed
  reset_password-single_use good issued email token old now later salt salt' password password' s at
        done fresh =
      rw at (elim (reset_token-cases good issued later.seconds email old) [
        | inl unread ↦ rw unread refl
        | inr reread ↦ elim (reset_token-cases good issued now.seconds email old) [
          | inl unread ↦
              let e : (reset_password sec set now salt token password s).1 ≡ failed invalid_reset =
                rw at (rw unread refl) in
              cc
          | inr read ↦
              let fp = password_reset_fingerprint sec old in
              let o = find (has_email email) s.users in
              let e : (reset_password sec set now salt token password s).1
                  ≡ (reset_row sec set salt password fp o s).1 =
                rw at (rw read refl) in
              let (u, found, print, updated) =
                reset_row-done salt password fp email o s refl (sym e ∙ done) in
              rw (reread, read)
                (reset_row-stale salt' password' fp (with_password (sec.hash salt password) u)
                  (find (has_email email) (reset_row sec set salt password fp o s).0.users)
                  (reset_row sec set salt password fp o s).0 updated fresh)
        ]
      ])
