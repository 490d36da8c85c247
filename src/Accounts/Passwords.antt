-- ===== src/Accounts/Passwords.antt =====
-- The routes that mail a link or spend one: forgot_password, resend_verification and
-- reset_password of app/users/router.py.
use pickwise_v2_backend.Prelude.{
  ℕ, String, Bool, false, not, ◌&&◌, Option, none, some, ◌∷◌, str_eq, if◌then◌else◌, is_some,
}
use pickwise_v2_backend.Throttle.{Hits}
use pickwise_v2_backend.Throttle.Limits.{check_quota}
use pickwise_v2_backend.Accounts.Users.{User, find, update, has_email}
use pickwise_v2_backend.Accounts.Tokens.{
  password_reset_fingerprint, Security, create_email_verification_token,
  create_password_reset_token, verify_password_reset_token,
}
use pickwise_v2_backend.Accounts.Routes.{
  Mail, verification_mail, reset_mail, google_notice, Site, invalid_reset, Reply, generic_email,
  reset_done, failed, Setting, Moment,
}

abbrev pub email_cooldown_seconds : ℕ
email_cooldown_seconds = 60

abbrev pub email_daily_limit : ℕ
email_daily_limit = 5

abbrev pub email_day_seconds : ℕ
email_day_seconds = 86400

abbrev pub with_password : String → User → User
with_password hashed u = record u { password = some hashed }

module _ (sec : Security) (set : Setting) where
  -- `_may_send_to`, with the names of its two buckets.
  unfoldable pub may_send_to : Moment → String → String → String → Hits → Hits × Bool
  may_send_to now cooldown daily email hits =
      let (hits', is_cool) =
        check_quota set.texts set.per_second now.ticks cooldown email 1 email_cooldown_seconds
          hits in
      if is_cool
      then check_quota set.texts set.per_second now.ticks daily email email_daily_limit
          email_day_seconds hits'
      else (hits', false)

  -- A mail that is sent where the address may get one.
  unfoldable pub send_within : Moment → String → String → String → Mail → Site → Site × Reply
  unfolding may_send_to
  send_within now cooldown daily email mail s =
      let (hits, may_send) = may_send_to now cooldown daily email s.hits in
      (
        record s { hits = hits; mails = if may_send then mail ∷ s.mails else s.mails },
        generic_email,
      )

  unfoldable pub forgot_mail : Moment → User → Option String → Mail
  forgot_mail now u none = google_notice u.email
  forgot_mail now u (some hashed) =
      reset_mail u.email (create_password_reset_token sec now.seconds u.email (some hashed))

  unfoldable pub forgot_row : Moment → String → Option User → Site → Site × Reply
  unfolding send_within forgot_mail
  forgot_row now email none s = (s, generic_email)
  forgot_row now email (some u) s =
      send_within now "forgot_password:cooldown" "forgot_password:daily" email
        (forgot_mail now u u.password) s

  unfoldable pub forgot_password : Moment → String → Site → Site × Reply
  unfolding forgot_row
  forgot_password now email s = forgot_row now email (find (has_email email) s.users) s

  unfoldable pub resend_row : Moment → String → Option User → Site → Site × Reply
  unfolding send_within
  resend_row now email none s = (s, generic_email)
  resend_row now email (some u) s =
      if not u.is_verified && is_some u.password
      then send_within now "resend_verification:cooldown" "resend_verification:daily" email
          (verification_mail u.email
            (create_email_verification_token sec now.seconds set.verification_hours u.email))
          s
      else (s, generic_email)

  unfoldable pub resend_verification : Moment → String → Site → Site × Reply
  unfolding resend_row
  resend_verification now email s = resend_row now email (find (has_email email) s.users) s

  unfoldable pub reset_row : ℕ → String → String → Option User → Site → Site × Reply
  reset_row salt password fp none s = (s, failed invalid_reset)
  reset_row salt password fp (some u) s =
      if str_eq fp (password_reset_fingerprint sec u.password)
      then (
        record s { users = update u.id (with_password (sec.hash salt password)) s.users },
        reset_done,
      )
      else (s, failed invalid_reset)

  unfoldable pub reset_claimed : ℕ → String → Option (String × String) → Site → Site × Reply
  unfolding reset_row
  reset_claimed salt password none s = (s, failed invalid_reset)
  reset_claimed salt password (some (email, fp)) s =
      reset_row salt password fp (find (has_email email) s.users) s

  -- `reset_password`, with the salt that is drawn.
  unfoldable pub reset_password : Moment → ℕ → String → String → Site → Site × Reply
  unfolding reset_claimed
  reset_password now salt token password s =
      reset_claimed salt password (verify_password_reset_token sec now.seconds token) s
