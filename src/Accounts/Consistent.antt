-- ===== src/Accounts/Consistent.antt =====
-- What the table of users keeps: the columns that the database declares unique tell the rows apart,
-- and every account has a way to sign in.
use mathlib.Core.Path.{subst}
use pickwise_v2_backend.Prelude.{
  ◌≡◌, refl, sym, ap, ◌∙◌, inl, inr, Bool-cases, String, Bool, true, false, ◌&&◌, ◌||◌, Option,
  none, some, List, [], ◌∷◌, str_eq, eq_iff, or_true, or_split, any, is_some, All, arith,
}
use pickwise_v2_backend.Accounts.Users.{
  User, update, has_id, has_username, has_email, is_sub, has_sub,
}
use pickwise_v2_backend.Accounts.Rows.{IsDistinct, IsDistinct-update, any-update, All-update}
use pickwise_v2_backend.Accounts.Lockout.{update-absent}
use pickwise_v2_backend.Accounts.Google.{linked}

str_eq_flip : (a b : String) → str_eq a b ≡ false → str_eq b a ≡ false
str_eq_flip a b h = ground (arith, eq_iff a b, eq_iff b a)

abbrev pub any_sub : Option String → List User → Bool
any_sub none us = false
any_sub (some s) us = any (has_sub s) us

-- No two rows have the same Google subject.
abbrev pub IsSubDistinct : List User → Type 0
IsSubDistinct [] = Unit
IsSubDistinct (u ∷ us) = (any_sub u.provider_sub us ≡ false) × IsSubDistinct us

-- A password, or Google.
abbrev pub has_way : User → Bool
has_way u = is_some u.password || (u.is_verified && is_some u.provider_sub)

pub record IsConsistent (us : List User) : Type 0 where
  pub ids : IsDistinct (λ u. u.id) us
  pub names : IsDistinct (λ u. u.username) us
  pub emails : IsDistinct (λ u. u.email) us
  pub subs : IsSubDistinct us
  pub ways : All (λ u. has_way u ≡ true) us

-- A row that may be added.
pub record IsNew (u : User) (us : List User) : Type 0 where
  pub new_id : any (has_id u.id) us ≡ false
  pub new_name : any (has_username u.username) us ≡ false
  pub new_email : any (has_email u.email) us ≡ false
  pub new_sub : any_sub u.provider_sub us ≡ false
  pub new_way : has_way u ≡ true

-- A change to a row that keeps its keys and a way to sign in.
pub record IsKeeping (change : User → User) : Type 0 where
  pub keeps_id : (u : User) → (change u).id ≡ u.id
  pub keeps_name : (u : User) → (change u).username ≡ u.username
  pub keeps_email : (u : User) → (change u).email ≡ u.email
  pub keeps_sub : (u : User) → (change u).provider_sub ≡ u.provider_sub
  pub keeps_way : (u : User) → has_way u ≡ true → has_way (change u) ≡ true

pub add-IsConsistent :
    (u : User) (us : List User) → IsNew u us → IsConsistent us → IsConsistent (u ∷ us)
add-IsConsistent u us new c = record {
  ids = (new.new_id, c.ids);
  names = (new.new_name, c.names);
  emails = (new.new_email, c.emails);
  subs = (new.new_sub, c.subs);
  ways = (new.new_way, c.ways);
}

module _ (id : String) (change : User → User) where
  any_sub-update :
      (o : Option String) (us : List User)
      → ((u : User) → (change u).provider_sub ≡ u.provider_sub)
      → any_sub o (update id change us) ≡ any_sub o us
  any_sub-update none us same = refl
  any_sub-update (some s) us same =
      any-update id change (has_sub s) us (λ u. ap (is_sub s) (same u))

  IsSubDistinct-update :
      (us : List User)
      → ((u : User) → (change u).provider_sub ≡ u.provider_sub)
      → IsSubDistinct us
      → IsSubDistinct (update id change us)
  unfolding update
  IsSubDistinct-update [] same h = tt
  IsSubDistinct-update (u ∷ us) same h = elim (Bool-cases (str_eq u.id id)) [
    | inl at ↦
        rw (at, same u)
          (any_sub-update u.provider_sub us same ∙ h.0, IsSubDistinct-update us same h.1)
    | inr past ↦
        rw past (any_sub-update u.provider_sub us same ∙ h.0, IsSubDistinct-update us same h.1)
  ]

  pub update-IsConsistent :
      (us : List User) → IsKeeping change → IsConsistent us → IsConsistent (update id change us)
  update-IsConsistent us k c = record {
    ids = IsDistinct-update id change (λ u. u.id) us k.keeps_id c.ids;
    names = IsDistinct-update id change (λ u. u.username) us k.keeps_name c.names;
    emails = IsDistinct-update id change (λ u. u.email) us k.keeps_email c.emails;
    subs = IsSubDistinct-update us k.keeps_sub c.subs;
    ways = All-update id change (λ u. has_way u ≡ true) us k.keeps_way c.ways;
  }

module _ (id sub : String) where
  -- Another subject is as absent as it was.
  any_sub-linked :
      (o : Option String) (us : List User)
      → is_sub sub o ≡ false
      → any_sub o us ≡ false
      → any_sub o (update id (linked sub) us) ≡ false
  unfolding update
  any_sub-linked none us other h = refl
  any_sub-linked (some s) [] other h = refl
  any_sub-linked (some s) (u ∷ us) other h = elim (Bool-cases (str_eq u.id id)) [
    | inl at ↦
        rw (at, str_eq_flip s sub other)
          (any_sub-linked (some s) us other (or_split (has_sub s u) (any (has_sub s) us) h).1)
    | inr past ↦
        rw (past, (or_split (has_sub s u) (any (has_sub s) us) h).0)
          (any_sub-linked (some s) us other (or_split (has_sub s u) (any (has_sub s) us) h).1)
  ]

  IsSubDistinct-linked :
      (us : List User)
      → IsDistinct (λ u. u.id) us
      → any (has_sub sub) us ≡ false
      → IsSubDistinct us
      → IsSubDistinct (update id (linked sub) us)
  unfolding update
  IsSubDistinct-linked [] d new h = tt
  IsSubDistinct-linked (u ∷ us) d new h = elim (Bool-cases (str_eq u.id id)) [
    | inl at ↦
        let rest : update id (linked sub) us ≡ us =
          update-absent id (linked sub) us
            (ap (λ i. any (has_id i) us) (sym ((eq_iff u.id id).0 at)) ∙ d.0) in
        let later = or_split (has_sub sub u) (any (has_sub sub) us) new in
        rw at (ap (any (has_sub sub)) rest ∙ later.1, subst IsSubDistinct (sym rest) h.1)
    | inr past ↦
        let later = or_split (has_sub sub u) (any (has_sub sub) us) new in
        rw past
          (any_sub-linked u.provider_sub us later.0 h.0, IsSubDistinct-linked us d.1 later.1 h.1)
  ]

  pub linked-IsConsistent :
      (us : List User)
      → any (has_sub sub) us ≡ false
      → IsConsistent us
      → IsConsistent (update id (linked sub) us)
  linked-IsConsistent us new c = record {
    ids = IsDistinct-update id (linked sub) (λ u. u.id) us (λ u. refl) c.ids;
    names = IsDistinct-update id (linked sub) (λ u. u.username) us (λ u. refl) c.names;
    emails = IsDistinct-update id (linked sub) (λ u. u.email) us (λ u. refl) c.emails;
    subs = IsSubDistinct-linked us c.ids new c.subs;
    ways =
        All-update id (linked sub) (λ u. has_way u ≡ true) us (λ u w. or_true (is_some u.password))
          c.ways;
  }
