-- ===== src/Accounts/Names.antt =====
-- The user names that `_generate_unique_username` of app/users/router.py finds.
use pickwise_v2_backend.Prelude.{
  ℕ, zero, suc, ◌≤◌, ◌≡◌, ◌≢◌, sym, ◌∙◌, refl, inl, inr, Bool-cases, String, true, false, not, List,
  [], ◌∷◌, str_eq, eq_iff, any, keep, length, length-keep-le, arith,
}
use pickwise_v2_backend.Accounts.Users.{User, has_username}
use pickwise_v2_backend.Accounts.Google.{Naming, next_username, generate_unique_username}

-- The numbers that the loop tries give different names.
pub record IsNaming (naming : Naming) : Type 0 where
  pub numbered-inj :
      (base : String) (i j : ℕ) → naming.numbered base i ≡ naming.numbered base j → i ≡ j
  pub numbered_new : (base : String) (i : ℕ) → naming.numbered base i ≢ base

module _ (naming : Naming) (base : String) where
  -- What the loop tries with a suffix.
  abbrev pub tried : ℕ → String
  tried zero = base
  tried (suc i) = naming.numbered base (suc i)

  tried-inj : IsNaming naming → (i j : ℕ) → tried i ≡ tried j → i ≡ j
  tried-inj good zero zero h = refl
  tried-inj good zero (suc j) h = absurd (good.numbered_new base (suc j) (sym h))
  tried-inj good (suc i) zero h = absurd (good.numbered_new base (suc i) h)
  tried-inj good (suc i) (suc j) h = good.numbered-inj base (suc i) (suc j) h

-- The rows with another name.
abbrev others : String → List User → List User
others name us = keep (λ u. not (str_eq u.username name)) us

others-has :
    (name other : String) (us : List User)
    → other ≢ name
    → any (has_username other) us ≡ true
    → any (has_username other) (others name us) ≡ true
others-has name other [] d h = h
others-has name other (u ∷ us) d h =
    ground (arith, eq_iff u.username name, eq_iff u.username other, others-has name other us d)

length-others :
    (name : String) (us : List User)
    → any (has_username name) us ≡ true
    → suc (length (others name us)) ≤ length us
length-others name [] h = cc
length-others name (u ∷ us) h =
    ground (arith, length-others name us, length-keep-le (λ v. not (str_eq v.username name)) us)

module _ (naming : Naming) (good : IsNaming naming) (users : List User) (base : String) where
  -- Where every taken name that is still to be tried is among `pool`, a fuel of its length is
  -- enough.
  next_username-new :
      (fuel suffix : ℕ) (candidate : String) (pool : List User)
      → tried naming base suffix ≡ candidate
      → ((i : ℕ)
          → suffix ≤ i
          → any (has_username (tried naming base i)) users ≡ true
          → any (has_username (tried naming base i)) pool ≡ true)
      → length pool ≤ fuel
      → any (has_username (next_username naming users base fuel suffix candidate)) users ≡ false
  unfolding next_username
  next_username-new zero suffix candidate [] e taken bound =
      elim (Bool-cases (any (has_username candidate) users)) [
        | inl used ↦
            let impossible : false ≡ true = taken suffix (omega arith) (rw (e, used) refl) in cc
        | inr free ↦ free
      ]
  next_username-new zero suffix candidate (u ∷ pool) e taken bound = absurd (omega (arith, bound))
  next_username-new (suc fuel) suffix candidate pool e taken bound =
      elim (Bool-cases (any (has_username candidate) users)) [
        | inl used ↦
            let here : any (has_username candidate) pool ≡ true =
              rw (sym e) (taken suffix (omega arith) (rw (e, used) refl)) in
            let later : (i : ℕ)
                → suc suffix ≤ i
                → any (has_username (tried naming base i)) users ≡ true
                → any (has_username (tried naming base i)) (others candidate pool) ≡ true =
              λ i l h.
                others-has candidate (tried naming base i) pool
                  (λ same.
                    absurd (omega (arith, l, tried-inj naming base good i suffix (same ∙ sym e))))
                  (taken i (omega (arith, l)) h) in
            rw used (
              next_username-new fuel (suc suffix) (naming.numbered base (suc suffix))
                (others candidate pool) refl later
                (omega (arith, bound, length-others candidate pool here)))
        | inr free ↦ rw free free
      ]

module _ (naming : Naming) (good : IsNaming naming) where
  -- If numbered names differ from each other and from the name without a number, no row has the
  -- user name that is generated for a new account, whatever names are taken.
  pub generate_unique_username-new :
      (users : List User) (email : String)
      → any (has_username (generate_unique_username naming users email)) users ≡ false
  unfolding generate_unique_username
  generate_unique_username-new users email =
      next_username-new naming good users (naming.base_of email) (length users) 0
        (naming.base_of email) users refl (λ i l h. h) (omega arith)
