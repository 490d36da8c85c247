-- ===== src/Accounts/Tokens.antt =====
-- Tokens: app/users/auth.py. A time is a number of seconds. `verify` says whether a password has a
-- hash, `hash` takes the salt that bcrypt draws, and `decode` gives none for a token that has
-- expired or that the library refuses.
use pickwise_v2_backend.Prelude.{
  ℕ, ◌+◌, ◌*◌, ◌≡◌, String, Bool, true, false, Option, none, some, List, str_eq, ltb, if◌then◌else◌,
}
use pickwise_v2_backend.Accounts.Users.{User, Status, active, Role, user, admin, find, has_id}

pub record Payload : Type 0 where
  pub sub : Option String
  pub exp : ℕ
  pub scope : Option String
  pub fp : Option String

pub record Security : Type 0 where
  pub hash : ℕ → String → String
  pub verify : String → String → Bool
  pub digest : String → String  -- the first 16 digits of the HMAC
  pub encode : Payload → String
  pub decode : ℕ → String → Option Payload

-- What the sign-in relies on: a token is read back until it expires, a password matches its own
-- hash, and no hash and no digest is empty.
pub record IsSound (sec : Security) : Type 0 where
  pub decode-encode :
      (now : ℕ) (p : Payload) → ltb now p.exp ≡ true → sec.decode now (sec.encode p) ≡ some p
  pub decode_expired :
      (now : ℕ) (p : Payload) → ltb now p.exp ≡ false → sec.decode now (sec.encode p) ≡ none
  pub verify-hash :
      (salt : ℕ) (password : String) → sec.verify password (sec.hash salt password) ≡ true
  pub hash_text : (salt : ℕ) (password : String) → str_eq (sec.hash salt password) "" ≡ false
  pub digest_text : (text : String) → str_eq (sec.digest text) "" ≡ false

pub data AuthError : Type 0 where
  not_validated not_active admin_only : AuthError

pub data Resolved : Type 0 where
  account : User → Resolved
  refused : AuthError → Resolved

abbrev pub is_scope : String → Option String → Bool
is_scope scope none = false
is_scope scope (some s) = str_eq s scope

-- A text that Python takes as true.
abbrev pub non_empty : Option String → Option String
non_empty none = none
non_empty (some s) = if str_eq s "" then none else some s

-- Both, where both are there.
abbrev pub both : Option String → Option String → Option (String × String)
both (some a) (some b) = some (a, b)
both _ _ = none

abbrev pub or_no_text : Option String → String
or_no_text none = ""
or_no_text (some s) = s

abbrev pub password_reset_fingerprint : Security → Option String → String
password_reset_fingerprint sec password = sec.digest (or_no_text password)

abbrev pub is_active : Status → Bool
is_active active = true
is_active _ = false

abbrev pub is_admin : Role → Bool
is_admin admin = true
is_admin user = false

module _ (sec : Security) where
  unfoldable pub create_access_token : ℕ → ℕ → String → String
  create_access_token now minutes id =
      sec.encode (record { sub = some id; exp = now + minutes * 60; scope = none; fp = none })

  unfoldable pub create_email_verification_token : ℕ → ℕ → String → String
  create_email_verification_token now hours email = sec.encode (record {
    sub = some email;
    exp = now + hours * 3600;
    scope = some "email_verification";
    fp = none;
  })

  unfoldable pub verified_email : Option Payload → Option String
  verified_email none = none
  verified_email (some p) = if is_scope "email_verification" p.scope then p.sub else none

  unfoldable pub verify_email_token : ℕ → String → Option String
  unfolding verified_email
  verify_email_token now token = verified_email (sec.decode now token)

  unfoldable pub resolve_row : Option User → Resolved
  resolve_row none = refused not_validated
  resolve_row (some u) = if is_active u.status then account u else refused not_active

  unfoldable pub resolve_sub : List User → Option String → Resolved
  unfolding resolve_row
  resolve_sub users none = refused not_validated
  resolve_sub users (some id) = resolve_row (find (has_id id) users)

  unfoldable pub resolve_payload : List User → Option Payload → Resolved
  unfolding resolve_sub
  resolve_payload users none = refused not_validated
  resolve_payload users (some p) = resolve_sub users p.sub

  -- `_resolve_user`.
  unfoldable pub resolve_user : ℕ → List User → String → Resolved
  unfolding resolve_payload
  resolve_user now users token = resolve_payload users (sec.decode now token)

  -- `get_optional_user`.
  unfoldable pub optional_user : ℕ → List User → Option String → Option User
  unfolding resolve_user
  optional_user now users none = none
  optional_user now users (some token) =
      if str_eq token ""
      then none
      else (elim (resolve_user now users token) [ account u ↦ some u | refused e ↦ none ])

  -- `get_current_admin`, on the resolved user.
  unfoldable pub current_admin : Resolved → Resolved
  current_admin (refused e) = refused e
  current_admin (account u) = if is_admin u.role then account u else refused admin_only

  unfoldable pub create_password_reset_token : ℕ → String → Option String → String
  create_password_reset_token now email password = sec.encode (record {
    sub = some email;
    exp = now + 15 * 60;
    scope = some "password_reset";
    fp = some (password_reset_fingerprint sec password);
  })

  unfoldable pub reset_claims : Option Payload → Option (String × String)
  reset_claims none = none
  reset_claims (some p) =
      if is_scope "password_reset" p.scope then both (non_empty p.sub) (non_empty p.fp) else none

  unfoldable pub verify_password_reset_token : ℕ → String → Option (String × String)
  unfolding reset_claims
  verify_password_reset_token now token = reset_claims (sec.decode now token)
