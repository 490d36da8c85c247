-- ===== src/Accounts/Routes.antt =====
-- The site's state, and registration, verification and the password sign-in of
-- app/users/router.py. Mails are sent after the response and stand in the order in which they are
-- asked for, the newest first.
use pickwise_v2_backend.Prelude.{
  ℕ, String, Bool, true, false, not, ◌&&◌, ◌||◌, Option, none, some, List, ◌∷◌, str_eq, any,
  if◌then◌else◌,
}
use pickwise_v2_backend.Throttle.{Hits}
use pickwise_v2_backend.Throttle.Limits.{Texts, check_quota}
use pickwise_v2_backend.Accounts.Users.{
  User, Status, active, inactive, suspended, other, user, find, update, has_email, is_named,
}
use pickwise_v2_backend.Accounts.Tokens.{
  Security, create_access_token, create_email_verification_token, verify_email_token,
}

-- A mail: the address, and what it holds.
pub data Mail : Type 0 where
  verification_mail : String → String → Mail
  reset_mail : String → String → Mail
  google_notice : String → Mail

pub record Site : Type 0 where
  pub users : List User
  pub hits : Hits
  pub mails : List Mail

pub data RouteError : Type 0 where
  already_registered invalid_verification bad_credentials : RouteError
  account_suspended account_inactive email_unverified : RouteError
  google_unconfigured invalid_google no_verified_email invalid_reset : RouteError

pub data Reply : Type 0 where
  created already_verified now_verified generic_email reset_done : Reply
  bearer : String → Reply
  failed : RouteError → Reply

-- The settings, and what the functions take from outside: the texts, the ticks in a second.
pub record Setting : Type 0 where
  pub texts : Texts
  pub per_second : ℕ
  pub access_minutes : ℕ
  pub verification_hours : ℕ

-- The two clocks.
pub record Moment : Type 0 where
  pub ticks : ℕ
  pub seconds : ℕ

-- `_ensure_account_active`.
abbrev pub status_error : Status → Option RouteError
status_error active = none
status_error inactive = some account_inactive
status_error suspended = some account_suspended
status_error other = none

abbrev pub new_account : ℕ → String → String → String → String → User
new_account salt id username email hashed = record {
  id = id;
  username = username;
  email = email;
  password = some hashed;
  role = user;
  status = active;
  is_google = false;
  provider_sub = none;
  is_verified = false;
}

abbrev pub verified : User → User
verified u = record u { is_verified = true }

module _ (sec : Security) (set : Setting) where
  -- `register`, with the key of the new row and the salt that is drawn.
  unfoldable pub register : Moment → ℕ → String → String → String → String → Site → Site × Reply
  register now salt id username email password s =
      if any (λ u. str_eq u.username username || str_eq u.email email) s.users
      then (s, failed already_registered)
      else (
        record s {
          users = new_account salt id username email (sec.hash salt password) ∷ s.users;
          mails =
              verification_mail email
                (create_email_verification_token sec now.seconds set.verification_hours email)
              ∷ s.mails;
        },
        created,
      )

  unfoldable pub verify_row : Option User → Site → Site × Reply
  verify_row none s = (s, failed invalid_verification)
  verify_row (some u) s =
      if u.is_verified
      then (s, already_verified)
      else (record s { users = update u.id verified s.users }, now_verified)

  unfoldable pub verify_address : Option String → Site → Site × Reply
  unfolding verify_row
  verify_address none s = (s, failed invalid_verification)
  verify_address (some email) s =
      if str_eq email ""
      then (s, failed invalid_verification)
      else verify_row (find (has_email email) s.users) s

  -- `verify_email`.
  unfoldable pub verify_email : Moment → String → Site → Site × Reply
  unfolding verify_address
  verify_email now token s = verify_address (verify_email_token sec now.seconds token) s

  -- `verify_password`, where there is a local password.
  unfoldable pub has_password : String → Option String → Bool
  has_password password none = false
  has_password password (some hashed) = not (str_eq hashed "") && sec.verify password hashed

  unfoldable pub login_status : Moment → Option RouteError → User → Reply
  login_status now (some e) u = failed e
  login_status now none u =
      if u.is_verified
      then bearer (create_access_token sec now.seconds set.access_minutes u.id)
      else failed email_unverified

  unfoldable pub login_row : Moment → String → Option User → Reply
  unfolding has_password login_status
  login_row now password none = failed bad_credentials
  login_row now password (some u) =
      if has_password password u.password
      then login_status now (status_error u.status) u
      else failed bad_credentials

  -- `login`.
  unfoldable pub login : Moment → String → String → Site → Site × Reply
  unfolding login_row
  login now name password s =
      let (hits, is_within) =
        check_quota set.texts set.per_second now.ticks "login:account" name 10 300 s.hits in
      (
        record s { hits = hits },
        if is_within
            then login_row now password (find (is_named name) s.users)
            else failed bad_credentials,
      )
