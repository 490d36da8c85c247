-- ===== src/Accounts/SignIn.antt =====
-- Who a password signs in, and what the token that he gets is worth.
use pickwise_v2_backend.Prelude.{
  ℕ, ◌+◌, ◌*◌, ◌≡◌, refl, sym, ◌∙◌, inl, inr, Bool-cases, String, true, Option, none, some, List,
  ltb, if◌then◌else◌,
}
use pickwise_v2_backend.Throttle.Limits.{check_quota}
use pickwise_v2_backend.Accounts.Users.{User, find, has_id, is_named}
use pickwise_v2_backend.Accounts.Rows.{IsDistinct, find-id}
use pickwise_v2_backend.Accounts.Tokens.{
  Payload, Security, IsSound, refused, not_validated, create_access_token, resolve_row, resolve_sub,
  resolve_payload, resolve_user,
}
use pickwise_v2_backend.Accounts.Routes.{
  Site, RouteError, bearer, failed, bad_credentials, email_unverified, Setting, Moment,
  status_error, has_password, login_status, login_row, login,
}

bearer-inj : {a b : String} → bearer a ≡ bearer b → a ≡ b
bearer-inj h = cc

module _ (sec : Security) (set : Setting) where
  -- What a sign-in with a password has checked.
  pub record IsSignIn (now : Moment) (password token : String) (u : User) : Type 0 where
    pub matches : has_password sec set password u.password ≡ true
    pub is_open : status_error u.status ≡ none
    pub is_verified : u.is_verified ≡ true
    pub is_minted : token ≡ create_access_token sec now.seconds set.access_minutes u.id

  login_status-bearer :
      (now : Moment) (token : String) (o : Option RouteError) (u : User)
      → login_status sec set now o u ≡ bearer token
      → (o ≡ none)
        × (u.is_verified ≡ true)
        × (token ≡ create_access_token sec now.seconds set.access_minutes u.id)
  unfolding login_status
  login_status-bearer now token (some e) u h = cc
  login_status-bearer now token none u h = elim (Bool-cases u.is_verified) [
    | inl at ↦
        let e : login_status sec set now none u
            ≡ bearer (create_access_token sec now.seconds set.access_minutes u.id) =
          rw at refl in
        (refl, at, bearer-inj (sym h ∙ e))
    | inr not_yet ↦
        let e : login_status sec set now none u ≡ failed email_unverified = rw not_yet refl in cc
  ]

  pub login_row-IsSignIn :
      (now : Moment) (password token : String) (o : Option User)
      → login_row sec set now password o ≡ bearer token
      → (u : User) × (o ≡ some u) × IsSignIn now password token u
  unfolding login_row
  login_row-IsSignIn now password token none h = cc
  login_row-IsSignIn now password token (some u) h =
      elim (Bool-cases (has_password sec set password u.password)) [
        | inl at ↦
            let e : login_row sec set now password (some u)
                ≡ login_status sec set now (status_error u.status) u =
              rw at refl in
            let k = login_status-bearer now token (status_error u.status) u (sym e ∙ h) in
            (u, refl, record { matches = at; is_open = k.0; is_verified = k.1; is_minted = k.2 })
        | inr bad ↦
            let e : login_row sec set now password (some u) ≡ failed bad_credentials =
              rw bad refl in
            cc
      ]

  pub resolve_user-create_access_token :
      (good : IsSound sec) (now minutes later : ℕ) (users : List User) (u : User)
      → find (has_id u.id) users ≡ some u
      → resolve_user sec later users (create_access_token sec now minutes u.id) ≡ (
          if ltb later (now + minutes * 60)
          then resolve_row sec (some u)
          else refused not_validated)
  unfolding resolve_user create_access_token resolve_payload resolve_sub
  resolve_user-create_access_token good now minutes later users u h =
      let p : Payload = record {
        sub = some u.id;
        exp = now + minutes * 60;
        scope = none;
        fp = none;
      } in
      elim (Bool-cases (ltb later (now + minutes * 60))) [
        | inl valid ↦ rw (valid, good.decode-encode later p valid) (rw h refl)
        | inr expired ↦ rw (expired, good.decode_expired later p expired) refl
      ]

  -- If no two accounts have the same id and the token library reads tokens back until they expire,
  -- a sign-in by password that gives a token was made by the account that the name finds, with its
  -- password, verified and neither suspended nor inactive. Until it expires, the token is resolved
  -- to what the rows say of that same account, and afterwards it is not validated.
  pub login-resolve_user :
      (good : IsSound sec) (now : Moment) (later : ℕ) (name password token : String) (s : Site)
      → IsDistinct (λ u. u.id) s.users
      → (login sec set now name password s).1 ≡ bearer token
      → (u : User) × (find (is_named name) s.users ≡ some u)
        × IsSignIn now password token u
        × (resolve_user sec later s.users token ≡ (
            if ltb later (now.seconds + set.access_minutes * 60)
            then resolve_row sec (some u)
            else refused not_validated))
  unfolding login
  login-resolve_user good now later name password token s d h =
      elim (Bool-cases
        (check_quota set.texts set.per_second now.ticks "login:account" name 10 300 s.hits).1) [
          | inl within ↦
              let e : (login sec set now name password s).1
                  ≡ login_row sec set now password (find (is_named name) s.users) =
                rw within refl in
              let (u, found, sign_in) =
                login_row-IsSignIn now password token (find (is_named name) s.users) (sym e ∙ h) in
              (
                u,
                found,
                sign_in,
                rw sign_in.is_minted (
                    resolve_user-create_access_token good now.seconds set.access_minutes later
                      s.users u (find-id (is_named name) s.users u d found)),
              )
          | inr beyond ↦
              let e : (login sec set now name password s).1 ≡ failed bad_credentials =
                rw beyond refl in
              cc
        ]
