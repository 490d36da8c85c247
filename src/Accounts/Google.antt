-- ===== src/Accounts/Google.antt =====
-- Sign-in with Google: google_login and `_generate_unique_username` of app/users/router.py. The
-- claims of a token, none where Google's library refuses it, and the texts of a user name come in.
-- The copy of the profile picture is left out: it changes no account and no reply.
use pickwise_v2_backend.Prelude.{
  ℕ, zero, suc, String, Bool, true, Option, none, some, List, ◌∷◌, any, length, if◌then◌else◌,
}
use pickwise_v2_backend.Accounts.Users.{
  User, active, user, find, update, has_email, has_username, has_sub,
}
use pickwise_v2_backend.Accounts.Tokens.{Security, create_access_token, non_empty}
use pickwise_v2_backend.Accounts.Routes.{
  Site, RouteError, google_unconfigured, invalid_google, no_verified_email, Reply, bearer, failed,
  Setting, Moment, status_error,
}

pub record Claims : Type 0 where
  pub email : Option String
  pub email_verified : Bool
  pub sub : String

-- `base_of` is the part of an address before the @ without other signs, or "user", and `numbered`
-- puts a number behind it.
pub record Naming : Type 0 where
  pub base_of : String → String
  pub numbered : String → ℕ → String

-- The loop of `_generate_unique_username`. Its fuel is the number of rows: where that many names
-- are taken, the next one is free.
unfoldable pub next_username : Naming → List User → String → ℕ → ℕ → String → String
next_username naming users base zero suffix candidate = candidate
next_username naming users base (suc fuel) suffix candidate =
    let later =
      next_username naming users base fuel (suc suffix) (naming.numbered base (suc suffix)) in
    if any (has_username candidate) users then later else candidate

unfoldable pub generate_unique_username : Naming → List User → String → String
unfolding next_username
generate_unique_username naming users email =
    let base = naming.base_of email in next_username naming users base (length users) 0 base

abbrev pub google_account : String → String → String → String → User
google_account id username email sub = record {
  id = id;
  username = username;
  email = email;
  password = none;
  role = user;
  status = active;
  is_google = true;
  provider_sub = some sub;
  is_verified = true;
}

abbrev pub linked : String → User → User
linked sub u = record u { provider_sub = some sub; is_verified = true }

module _ (sec : Security) (set : Setting) (naming : Naming) where
  -- `_issue_access_token`.
  unfoldable pub issue_access_token : Moment → String → Reply
  issue_access_token now id = bearer (create_access_token sec now.seconds set.access_minutes id)

  unfoldable pub first_visit : Moment → String → String → String → Site → Site × Reply
  unfolding issue_access_token
  first_visit now id email sub s = (
    record s {
      users = google_account id (generate_unique_username naming s.users email) email sub ∷ s.users;
    },
    issue_access_token now id,
  )

  unfoldable pub link_active : Moment → Option RouteError → User → String → Site → Site × Reply
  unfolding issue_access_token
  link_active now (some e) u sub s = (s, failed e)
  link_active now none u sub s =
      (record s { users = update u.id (linked sub) s.users }, issue_access_token now u.id)

  unfoldable pub link_or_visit :
      Moment → String → Option User → String → String → Site → Site × Reply
  unfolding first_visit link_active
  link_or_visit now id none email sub s = first_visit now id email sub s
  link_or_visit now id (some u) email sub s = link_active now (status_error u.status) u sub s

  unfoldable pub return_active : Moment → Option RouteError → User → Site → Site × Reply
  unfolding issue_access_token
  return_active now (some e) u s = (s, failed e)
  return_active now none u s = (s, issue_access_token now u.id)

  unfoldable pub google_row : Moment → String → Option User → String → String → Site → Site × Reply
  unfolding link_or_visit return_active
  google_row now id none email sub s =
      link_or_visit now id (find (has_email email) s.users) email sub s
  google_row now id (some u) email sub s = return_active now (status_error u.status) u s

  unfoldable pub google_email :
      Moment → String → Option String → Bool → String → Site → Site × Reply
  unfolding google_row
  google_email now id none email_verified sub s = (s, failed no_verified_email)
  google_email now id (some email) email_verified sub s =
      if email_verified
      then google_row now id (find (has_sub sub) s.users) email sub s
      else (s, failed no_verified_email)

  unfoldable pub google_claims : Moment → String → Option Claims → Site → Site × Reply
  unfolding google_email
  google_claims now id none s = (s, failed invalid_google)
  google_claims now id (some c) s = google_email now id (non_empty c.email) c.email_verified c.sub s

  -- `google_login`, with the key of the row that it may add.
  unfoldable pub google_login : Bool → Moment → String → Option Claims → Site → Site × Reply
  unfolding google_claims
  google_login is_configured now id claims s =
      if is_configured then google_claims now id claims s else (s, failed google_unconfigured)
