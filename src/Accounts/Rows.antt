-- ===== src/Accounts/Rows.antt =====
-- Lookups in the table of users, and keys that tell its rows apart.
use mathlib.Core.Option
use mathlib.Core.Path.{subst}
use pickwise_v2_backend.Prelude.{
  ◌≡◌, refl, sym, ◌∙◌, inl, inr, Bool-cases, String, Bool, true, false, none, some, List, [], ◌∷◌,
  ◌||◌, str_eq, eq_iff, or_true, ap, any, All, arith, if◌then◌else◌,
}
use pickwise_v2_backend.Accounts.Users.{User, find, update, has_id}

abbrev pub changed : String → (User → User) → User → User
changed id change u = if str_eq u.id id then change u else u

-- No two rows have the same key.
abbrev pub IsDistinct : (User → String) → List User → Type 0
IsDistinct key [] = Unit
IsDistinct key (u ∷ us) = (any (λ v. str_eq (key v) (key u)) us ≡ false) × IsDistinct key us

pub some-inj : {u v : User} → some u ≡ some v → u ≡ v
some-inj h = cc

pub str_eq_self : (s : String) → str_eq s s ≡ true
str_eq_self s = (eq_iff s s).1 refl

pub find-here :
    (p : User → Bool) (v : User) (us : List User) → p v ≡ true → find p (v ∷ us) ≡ some v
unfolding find
find-here p v us h = rw h refl

pub find-past :
    (p : User → Bool) (v : User) (us : List User) → p v ≡ false → find p (v ∷ us) ≡ find p us
unfolding find
find-past p v us h = rw h refl

pub find_test : (p : User → Bool) (us : List User) (u : User) → find p us ≡ some u → p u ≡ true
unfolding find
find_test p [] u h = cc
find_test p (v ∷ us) u h = elim (Bool-cases (p v)) [
  | inl at ↦ let e : v ≡ u = some-inj (sym (find-here p v us at) ∙ h) in sym (ap p e) ∙ at
  | inr past ↦ find_test p us u (sym (find-past p v us past) ∙ h)
]

pub find-absent : (p : User → Bool) (us : List User) → any p us ≡ false → find p us ≡ none
unfolding find
find-absent p [] h = refl
find-absent p (v ∷ us) h = ground (arith, find-absent p us)

pub any-find-none : (p : User → Bool) (us : List User) → find p us ≡ none → any p us ≡ false
unfolding find
any-find-none p [] h = refl
any-find-none p (v ∷ us) h = ground (arith, any-find-none p us)

pub any-find : (p : User → Bool) (us : List User) (u : User) → find p us ≡ some u → any p us ≡ true
unfolding find
any-find p [] u h = cc
any-find p (v ∷ us) u h = ground (arith, any-find p us u)

pub All-find {κ} :
    (P : User → Type κ) (p : User → Bool) (us : List User) (u : User)
    → All P us
    → find p us ≡ some u
    → P u
unfolding find
All-find P p [] u k h = cc
All-find P p (v ∷ us) u k h = elim (Bool-cases (p v)) [
  | inl at ↦ subst P (some-inj (sym (find-here p v us at) ∙ h)) k.0
  | inr past ↦ All-find P p us u k.1 (sym (find-past p v us past) ∙ h)
]

pub any-member :
    (p q : User → Bool) (us : List User) (u : User)
    → find p us ≡ some u
    → q u ≡ true
    → any q us ≡ true
unfolding find
any-member p q [] u h at = cc
any-member p q (v ∷ us) u h at = elim (Bool-cases (p v)) [
  | inl here ↦ let e : v ≡ u = some-inj (sym (find-here p v us here) ∙ h) in rw (ap q e ∙ at) refl
  | inr past ↦ rw (any-member p q us u (sym (find-past p v us past) ∙ h) at) (or_true (q v))
]

module _ (id : String) (change : User → User) where
  pub find-update :
      (p : User → Bool) (us : List User)
      → ((u : User) → p (change u) ≡ p u)
      → find p (update id change us) ≡ Option.map (changed id change) (find p us)
  unfolding find update
  find-update p [] same = refl
  find-update p (v ∷ us) same = elim (Bool-cases (str_eq v.id id)) [
    | inl at ↦ elim (Bool-cases (p v)) [
      | inl here ↦ rw (at, same v, here) (rw at refl)
      | inr later ↦ rw (at, same v, later) (find-update p us same)
    ]
    | inr past ↦ elim (Bool-cases (p v)) [
      | inl here ↦ rw (past, here) (rw past refl)
      | inr later ↦ rw (past, later) (find-update p us same)
    ]
  ]

  pub any-update :
      (p : User → Bool) (us : List User)
      → ((u : User) → p (change u) ≡ p u)
      → any p (update id change us) ≡ any p us
  unfolding update
  any-update p [] same = refl
  any-update p (v ∷ us) same = elim (Bool-cases (str_eq v.id id)) [
    | inl at ↦ rw (at, same v) (ap (◌||◌ (p v)) (any-update p us same))
    | inr past ↦ rw past (ap (◌||◌ (p v)) (any-update p us same))
  ]

  pub IsDistinct-update :
      (key : User → String) (us : List User)
      → ((u : User) → key (change u) ≡ key u)
      → IsDistinct key us
      → IsDistinct key (update id change us)
  unfolding update
  IsDistinct-update key [] same h = tt
  IsDistinct-update key (v ∷ us) same h =
      let any-key : (k : String)
          → any (λ w. str_eq (key w) k) (update id change us) ≡ any (λ w. str_eq (key w) k) us =
        λ k. any-update (λ w. str_eq (key w) k) us (λ w. ap (λ j. str_eq j k) (same w)) in
      elim (Bool-cases (str_eq v.id id)) [
        | inl at ↦ rw (at, same v) (any-key (key v) ∙ h.0, IsDistinct-update key us same h.1)
        | inr past ↦ rw past (any-key (key v) ∙ h.0, IsDistinct-update key us same h.1)
      ]

  pub All-update {κ} :
      (P : User → Type κ) (us : List User)
      → ((u : User) → P u → P (change u))
      → All P us
      → All P (update id change us)
  unfolding update
  All-update P [] keeps h = tt
  All-update P (v ∷ us) keeps h = elim (Bool-cases (str_eq v.id id)) [
    | inl at ↦ rw at (keeps v h.0, All-update P us keeps h.1)
    | inr past ↦ rw past (h.0, All-update P us keeps h.1)
  ]

pub find-id :
    (p : User → Bool) (us : List User) (u : User)
    → IsDistinct (λ v. v.id) us
    → find p us ≡ some u
    → find (has_id u.id) us ≡ some u
unfolding find
find-id p [] u d h = cc
find-id p (v ∷ us) u d h = elim (Bool-cases (p v)) [
  | inl here ↦
      let e : v ≡ u = some-inj (sym (find-here p v us here) ∙ h) in
      rw e (rw (str_eq_self u.id) refl)
  | inr past ↦
      let later : find p us ≡ some u = sym (find-past p v us past) ∙ h in
      elim (Bool-cases (str_eq v.id u.id)) [
        | inl same ↦
            let clash : any (λ w. str_eq w.id v.id) us ≡ true =
              any-member p (λ w. str_eq w.id v.id) us u later
                ((eq_iff u.id v.id).1 (sym ((eq_iff v.id u.id).0 same))) in
            let impossible : true ≡ false = sym clash ∙ d.0 in cc
        | inr other ↦ rw other (find-id p us u d.1 later)
      ]
]
