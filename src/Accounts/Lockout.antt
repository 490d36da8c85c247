-- ===== src/Accounts/Lockout.antt =====
-- No admin's request locks every admin out.
use pickwise_v2_backend.Prelude.{
  ℕ, ◌+◌, ◌≤◌, ◌≡◌, refl, sym, ap, ◌∙◌, ◌⊎◌, inl, inr, Bool-cases, String, Bool, true, false, not,
  ◌&&◌, Option, none, some, List, [], ◌∷◌, str_eq, eq_iff, leb, length, keep, any, arith,
}
use pickwise_v2_backend.Accounts.Users.{User, Status, Role, find, update, has_id}
use pickwise_v2_backend.Accounts.Rows.{IsDistinct, some-inj, find_test, find-here, find-past}
use pickwise_v2_backend.Accounts.Tokens.{is_active, is_admin}
use pickwise_v2_backend.Accounts.Admins.{
  AdminError, last_admin, is_active_admin, count_active_admins, assert_not_self_lockout,
  assert_not_last_admin, then_check, assert_kept, with_role, with_status, is_demotion,
  is_deactivation, write_row, role_row, update_user_role, status_row, update_user_status,
}

abbrev one_if : Bool → ℕ
one_if true = 1
one_if false = 0

-- A change to a row that is not there.
pub update-absent :
    (id : String) (change : User → User) (us : List User)
    → any (has_id id) us ≡ false
    → update id change us ≡ us
unfolding update
update-absent id change [] h = refl
update-absent id change (u ∷ us) h = elim (Bool-cases (str_eq u.id id)) [
  | inl here ↦ let impossible : true ≡ false = rw (sym h) (rw here refl) in cc
  | inr past ↦ rw past (ap (◌∷◌ u) (update-absent id change us (rw (sym h) (rw past refl))))
]

length-keep_cons :
    (p : User → Bool) (v : User) (us : List User)
    → length (keep p (v ∷ us)) ≡ one_if (p v) + length (keep p us)
length-keep_cons p v us = ground arith

-- A count before and after a change to one row.
count-update :
    (p : User → Bool) (id : String) (change : User → User) (us : List User) (u : User)
    → IsDistinct (λ v. v.id) us
    → find (has_id id) us ≡ some u
    → (rest : ℕ) × (length (keep p us) ≡ one_if (p u) + rest)
      × (length (keep p (update id change us)) ≡ one_if (p (change u)) + rest)
unfolding find update
count-update p id change [] u d h = cc
count-update p id change (v ∷ us) u d h = elim (Bool-cases (str_eq v.id id)) [
  | inl here ↦
      let e : v ≡ u = some-inj (sym (find-here (has_id id) v us here) ∙ h) in
      let others : update id change us ≡ us =
        update-absent id change us (rw (sym ((eq_iff v.id id).0 here)) d.0) in
      (
        length (keep p us),
        length-keep_cons p v us ∙ ap (λ w. one_if (p w) + length (keep p us)) e,
        rw here (
            length-keep_cons p (change v) (update id change us)
            ∙ rw others (ap (λ w. one_if (p (change w)) + length (keep p us)) e)),
      )
  | inr past ↦
      let (rest, e, e') =
        count-update p id change us u d.1 (sym (find-past (has_id id) v us past) ∙ h) in
      (
        one_if (p v) + rest,
        omega (arith, length-keep_cons p v us, e),
        rw past (omega (arith, length-keep_cons p v (update id change us), e')),
      )
]

-- The guards leave an active admin: a change that passes them takes an admin away from others only,
-- and never the last.
write_row-admins :
    (o : Option AdminError) (change : User → User) (us : List User) (u : User)
    → IsDistinct (λ v. v.id) us
    → find (has_id u.id) us ≡ some u
    → 1 ≤ count_active_admins us
    → (o ≡ none
        → (is_active_admin u ≡ true)
        → (is_active_admin (change u) ≡ true) ⊎ (2 ≤ count_active_admins us))
    → 1 ≤ count_active_admins (write_row o u.id change us).0
unfolding write_row count_active_admins
write_row-admins (some e) change us u d h least k = least
write_row-admins none change us u d h least k =
    let (rest, e, e') = count-update is_active_admin u.id change us u d h in
    elim (Bool-cases (is_active_admin u)) [
      | inl at ↦ elim (k refl at) [
        | inl kept ↦ omega (arith, e', ap one_if kept)
        | inr two ↦ omega (arith, e, e', ap one_if at, two)
      ]
      | inr other ↦ omega (arith, e, e', ap one_if other, least)
    ]

not_leb : (n : ℕ) → leb n 1 ≡ false → 2 ≤ n
not_leb n h = ground arith

then_check-some : (o : Option AdminError) (e : AdminError) → then_check o (some e) ≡ none → ⊥
then_check-some none e h = cc
then_check-some (some f) e h = cc

assert_kept-two :
    (us : List User) (u current : User) (takes_away : Bool)
    → assert_kept us u current takes_away ≡ none
    → is_active_admin u ≡ true
    → (takes_away ≡ false) ⊎ (2 ≤ count_active_admins us)
unfolding assert_kept assert_not_last_admin assert_not_self_lockout
assert_kept-two us u current false h k = inl refl
assert_kept-two us u current true h k = elim (Bool-cases (leb (count_active_admins us) 1)) [
  | inl few ↦
      let last : assert_not_last_admin us u ≡ some last_admin = rw (k, few) refl in
      absurd (then_check-some (assert_not_self_lockout u current true) last_admin (rw (sym last) h))
  | inr many ↦ inr (not_leb (count_active_admins us) many)
]

keeps_first : (a b c : Bool) → (a && b) ≡ true → (a && not c) ≡ false → (c && b) ≡ true
keeps_first a b c h k = ground arith

keeps_second : (a b c : Bool) → (a && b) ≡ true → (b && not c) ≡ false → (a && c) ≡ true
keeps_second a b c h k = ground arith

module _ (us : List User) (d : IsDistinct (λ v. v.id) us) (least : 1 ≤ count_active_admins us) where
  find_again :
      (id : String) (u : User) → some u ≡ find (has_id id) us → find (has_id u.id) us ≡ some u
  find_again id u h =
      ap (λ i. find (has_id i) us) ((eq_iff u.id id).0 (find_test (has_id id) us u (sym h))) ∙ sym h

  role_row-admins :
      (id : String) (o : Option User) (current : User) (role : Role)
      → o ≡ find (has_id id) us
      → 1 ≤ count_active_admins (role_row o current role us).0
  unfolding role_row
  role_row-admins id none current role h = least
  role_row-admins id (some u) current role h =
      write_row-admins (assert_kept us u current (is_demotion u role)) (with_role role) us u d
        (find_again id u h) least
        (λ ok at. elim (assert_kept-two us u current (is_demotion u role) ok at) [
          | inl keeps ↦
              inl (keeps_first (is_admin u.role) (is_active u.status) (is_admin role) at keeps)
          | inr two ↦ inr two
        ])

  status_row-admins :
      (id : String) (o : Option User) (current : User) (status : Status)
      → o ≡ find (has_id id) us
      → 1 ≤ count_active_admins (status_row o current status us).0
  unfolding status_row
  status_row-admins id none current status h = least
  status_row-admins id (some u) current status h =
      write_row-admins (assert_kept us u current (is_deactivation u status)) (with_status status) us
        u d (find_again id u h) least
        (λ ok at. elim (assert_kept-two us u current (is_deactivation u status) ok at) [
          | inl keeps ↦
              inl (keeps_second (is_admin u.role) (is_active u.status) (is_active status) at keeps)
          | inr two ↦ inr two
        ])

  -- If the ids of the accounts differ and one of the accounts is an active admin, one of them is an
  -- active admin after every request to change a role or a status, whoever makes it.
  pub count_active_admins_kept :
      (id : String) (role : Role) (status : Status) (current : User)
      → (1 ≤ count_active_admins (update_user_role id role current us).0)
        × (1 ≤ count_active_admins (update_user_status id status current us).0)
  unfolding update_user_role update_user_status
  count_active_admins_kept id role status current = (
    role_row-admins id (find (has_id id) us) current role refl,
    status_row-admins id (find (has_id id) us) current status refl,
  )
