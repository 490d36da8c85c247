-- ===== src/Accounts/Kept.antt =====
-- What each request leaves of the table of users.
use pickwise_v2_backend.Prelude.{
  ℕ, ◌≡◌, refl, inl, inr, Bool-cases, String, Bool, true, false, ◌&&◌, ◌||◌, Option, none, some,
  List, [], ◌∷◌, str_eq, arith, any, is_some,
}
use pickwise_v2_backend.Accounts.Users.{User, Status, Role, find, has_id, has_username, has_email}
use pickwise_v2_backend.Accounts.Tokens.{password_reset_fingerprint, Security}
use pickwise_v2_backend.Accounts.Routes.{
  Site, Setting, Moment, new_account, verified, register, verify_row, verify_address,
}
use pickwise_v2_backend.Accounts.Passwords.{with_password, reset_row, reset_claimed}
use pickwise_v2_backend.Accounts.Admins.{
  AdminError, with_role, with_status, assert_kept, is_demotion, is_deactivation, write_row,
  role_row, status_row,
}
use pickwise_v2_backend.Accounts.Consistent.{
  IsConsistent, IsKeeping, add-IsConsistent, update-IsConsistent,
}

still_has : (a b c : Bool) → (a || (b && c)) ≡ true → (a || c) ≡ true
still_has a b c h = ground arith

any_or_split :
    (p q : User → Bool) (us : List User)
    → any (λ u. p u || q u) us ≡ false
    → (any p us ≡ false) × (any q us ≡ false)
any_or_split p q [] h = (refl, refl)
any_or_split p q (u ∷ us) h = ground (arith, any_or_split p q us)

verified-IsKeeping : IsKeeping verified
verified-IsKeeping = record {
  keeps_id = λ u. refl;
  keeps_name = λ u. refl;
  keeps_email = λ u. refl;
  keeps_sub = λ u. refl;
  keeps_way = λ u. still_has (is_some u.password) u.is_verified (is_some u.provider_sub);
}

with_password-IsKeeping : (hashed : String) → IsKeeping (with_password hashed)
with_password-IsKeeping hashed = record {
  keeps_id = λ u. refl;
  keeps_name = λ u. refl;
  keeps_email = λ u. refl;
  keeps_sub = λ u. refl;
  keeps_way = λ u h. refl;
}

with_role-IsKeeping : (role : Role) → IsKeeping (with_role role)
with_role-IsKeeping role = record {
  keeps_id = λ u. refl;
  keeps_name = λ u. refl;
  keeps_email = λ u. refl;
  keeps_sub = λ u. refl;
  keeps_way = λ u h. h;
}

with_status-IsKeeping : (status : Status) → IsKeeping (with_status status)
with_status-IsKeeping status = record {
  keeps_id = λ u. refl;
  keeps_name = λ u. refl;
  keeps_email = λ u. refl;
  keeps_sub = λ u. refl;
  keeps_way = λ u h. h;
}

write_row-IsConsistent :
    (o : Option AdminError) (id : String) (change : User → User) (us : List User)
    → IsKeeping change
    → IsConsistent us
    → IsConsistent (write_row o id change us).0
unfolding write_row
write_row-IsConsistent (some e) id change us k c = c
write_row-IsConsistent none id change us k c = update-IsConsistent id change us k c

pub role_row-IsConsistent :
    (o : Option User) (current : User) (role : Role) (us : List User)
    → IsConsistent us
    → IsConsistent (role_row o current role us).0
unfolding role_row
role_row-IsConsistent none current role us c = c
role_row-IsConsistent (some u) current role us c =
    write_row-IsConsistent (assert_kept us u current (is_demotion u role)) u.id (with_role role) us
      (with_role-IsKeeping role) c

pub status_row-IsConsistent :
    (o : Option User) (current : User) (status : Status) (us : List User)
    → IsConsistent us
    → IsConsistent (status_row o current status us).0
unfolding status_row
status_row-IsConsistent none current status us c = c
status_row-IsConsistent (some u) current status us c =
    write_row-IsConsistent (assert_kept us u current (is_deactivation u status)) u.id
      (with_status status) us (with_status-IsKeeping status) c

module _ (sec : Security) (set : Setting) where
  pub register-IsConsistent :
      (now : Moment) (salt : ℕ) (id username email password : String) (s : Site)
      → any (has_id id) s.users ≡ false
      → IsConsistent s.users
      → IsConsistent (register sec set now salt id username email password s).0.users
  unfolding register
  register-IsConsistent now salt id username email password s new c =
      elim (Bool-cases (any (λ u. str_eq u.username username || str_eq u.email email) s.users)) [
        | inl taken ↦ rw taken c
        | inr free ↦
            let (names, emails) =
              any_or_split (has_username username) (has_email email) s.users free in
            rw free (
              add-IsConsistent (new_account salt id username email (sec.hash salt password)) s.users
                (record {
                  new_id = new;
                  new_name = names;
                  new_email = emails;
                  new_sub = refl;
                  new_way = refl;
                })
                c)
      ]

  verify_row-IsConsistent :
      (o : Option User) (s : Site)
      → IsConsistent s.users
      → IsConsistent (verify_row sec set o s).0.users
  unfolding verify_row
  verify_row-IsConsistent none s c = c
  verify_row-IsConsistent (some u) s c = elim (Bool-cases u.is_verified) [
    | inl done ↦ rw done c
    | inr not_yet ↦ rw not_yet (update-IsConsistent u.id verified s.users verified-IsKeeping c)
  ]

  pub verify_address-IsConsistent :
      (o : Option String) (s : Site)
      → IsConsistent s.users
      → IsConsistent (verify_address sec set o s).0.users
  unfolding verify_address
  verify_address-IsConsistent none s c = c
  verify_address-IsConsistent (some email) s c = elim (Bool-cases (str_eq email "")) [
    | inl blank ↦ rw blank c
    | inr filled ↦ rw filled (verify_row-IsConsistent (find (has_email email) s.users) s c)
  ]

  reset_row-IsConsistent :
      (salt : ℕ) (password fp : String) (o : Option User) (s : Site)
      → IsConsistent s.users
      → IsConsistent (reset_row sec set salt password fp o s).0.users
  unfolding reset_row
  reset_row-IsConsistent salt password fp none s c = c
  reset_row-IsConsistent salt password fp (some u) s c =
      elim (Bool-cases (str_eq fp (password_reset_fingerprint sec u.password))) [
        | inl same ↦ rw same (
            update-IsConsistent u.id (with_password (sec.hash salt password)) s.users
              (with_password-IsKeeping (sec.hash salt password)) c)
        | inr other ↦ rw other c
      ]

  pub reset_claimed-IsConsistent :
      (salt : ℕ) (password : String) (o : Option (String × String)) (s : Site)
      → IsConsistent s.users
      → IsConsistent (reset_claimed sec set salt password o s).0.users
  unfolding reset_claimed
  reset_claimed-IsConsistent salt password none s c = c
  reset_claimed-IsConsistent salt password (some (email, fp)) s c =
      reset_row-IsConsistent salt password fp (find (has_email email) s.users) s c
