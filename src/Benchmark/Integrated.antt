-- ===== src/Benchmark/Integrated.antt =====
-- The integrated GPU of a CPU: the table of CPU names is searched from its longest name down.
use mathlib.Core.Path.{subst}
use pickwise_v2_backend.Prelude.{
  ℕ, ◌≤◌, ◌≡◌, refl, sym, ◌∙◌, inl, inr, Bool-cases, String, Bool, true, false, some, List, [], ◌∷◌,
  map, ltb, any, ◌&&◌, or_true, str_eq, eq_iff, All, All-weaken, arith,
}
use pickwise_v2_backend.Benchmark.Matching.{Matcher}
use pickwise_v2_backend.Benchmark.Gpu.{
  GpuTexts, insert_long, longest_first, key_in, integrated_keys, integrated_gpu_for,
}
use pickwise_v2_backend.Benchmark.Tables.{integrated_gpu_by_cpu}

some-inj : {v w : String} → some v ≡ some w → v ≡ w
some-inj h = cc

not_ltb : (a b : ℕ) → ltb a b ≡ false → b ≤ a
not_ltb a b h = ground arith

module _ (size : String → ℕ) where
  -- The names come longest first.
  abbrev IsDescending : List (String × String) → Type 0
  IsDescending [] = Unit
  IsDescending (row ∷ rows) = All (λ r. size r.0 ≤ size row.0) rows × IsDescending rows

  insert_long-All {κ} :
      (P : String × String → Type κ) (row : String × String) (rows : List (String × String))
      → P row
      → All P rows
      → All P (insert_long size row rows)
  unfolding insert_long
  insert_long-All P (k, v) [] p h = (p, tt)
  insert_long-All P (k, v) ((j, w) ∷ rows) p h = elim (Bool-cases (ltb (size k) (size j))) [
    | inl short ↦ rw short (h.0, insert_long-All P (k, v) rows p h.1)
    | inr long ↦ rw long (p, h)
  ]

  insert_long-IsDescending :
      (row : String × String) (rows : List (String × String))
      → IsDescending rows
      → IsDescending (insert_long size row rows)
  unfolding insert_long
  insert_long-IsDescending (k, v) [] h = (tt, tt)
  insert_long-IsDescending (k, v) ((j, w) ∷ rows) h = elim (Bool-cases (ltb (size k) (size j))) [
    | inl short ↦
        let l : size k ≤ size j = ground (arith, short) in
        rw short (
          insert_long-All (λ r. size r.0 ≤ size j) (k, v) rows l h.0,
          insert_long-IsDescending (k, v) rows h.1,
        )
    | inr long ↦
        let l : size j ≤ size k = not_ltb (size k) (size j) long in
        rw long (
          (
            l,
            All-weaken (λ r. size r.0 ≤ size j) (λ r. size r.0 ≤ size k) rows
                (λ r b. omega (arith, b, l)) h.0,
          ),
          h,
        )
  ]

  longest_first-IsDescending :
      (rows : List (String × String)) → IsDescending (longest_first size rows)
  unfolding longest_first
  longest_first-IsDescending [] = tt
  longest_first-IsDescending (row ∷ rows) =
      insert_long-IsDescending row (longest_first size rows) (longest_first-IsDescending rows)

  insert_long-All_rows :
      (P : String × String → Type 0) (row : String × String) (rows : List (String × String))
      → All P (insert_long size row rows)
      → P row × All P rows
  unfolding insert_long
  insert_long-All_rows P (k, v) [] h = h
  insert_long-All_rows P (k, v) ((j, w) ∷ rows) h = elim (Bool-cases (ltb (size k) (size j))) [
    | inl short ↦
        let here : insert_long size (k, v) ((j, w) ∷ rows) ≡ (j, w) ∷ insert_long size (k, v) rows =
          rw short refl in
        let h' : P (j, w) × All P (insert_long size (k, v) rows) = subst (All P) here h in
        let (p, rest) = insert_long-All_rows P (k, v) rows h'.1 in (p, (h'.0, rest))
    | inr long ↦
        let here : insert_long size (k, v) ((j, w) ∷ rows) ≡ (k, v) ∷ (j, w) ∷ rows =
          rw long refl in
        subst (All P) here h
  ]

  longest_first-All :
      (P : String × String → Type 0) (rows : List (String × String))
      → All P (longest_first size rows)
      → All P rows
  unfolding longest_first
  longest_first-All P [] h = tt
  longest_first-All P (row ∷ rows) h =
      let (p, rest) = insert_long-All_rows P row (longest_first size rows) h in
      (p, longest_first-All P rows rest)

  -- A row of the table with a name that is inside, such that no row has a longer one that is.
  pub record IsLongest (is_inside : String → Bool) (rows : List (String × String)) (v : String)
      : Type 0 where
    pub name : String
    pub is_row : any (λ r. str_eq r.0 name && str_eq r.1 v) rows ≡ true
    pub is_inside_it : is_inside name ≡ true
    pub no_longer : All (λ r. (is_inside r.0 ≡ true) → size r.0 ≤ size name) rows

  key_in-IsLongest :
      (is_inside : String → Bool) (rows : List (String × String)) (v : String)
      → IsDescending rows
      → key_in is_inside rows ≡ some v
      → IsLongest is_inside rows v
  unfolding key_in
  key_in-IsLongest is_inside [] v h e = cc
  key_in-IsLongest is_inside ((k, w) ∷ rows) v h e = elim (Bool-cases (is_inside k)) [
    | inl here ↦
        let found : key_in is_inside ((k, w) ∷ rows) ≡ some w = rw here refl in
        let same : w ≡ v = some-inj (sym found ∙ e) in
        record {
          name = k;
          is_row = ground (arith, eq_iff k k, eq_iff w v);
          is_inside_it = here;
          no_longer = (
            (λ at. omega arith),
            All-weaken (λ r. size r.0 ≤ size k) (λ r. (is_inside r.0 ≡ true) → size r.0 ≤ size k)
                rows (λ r b at. b) h.0,
          );
        }
    | inr past ↦
        let later : key_in is_inside ((k, w) ∷ rows) ≡ key_in is_inside rows = rw past refl in
        let l = key_in-IsLongest is_inside rows v h.1 (sym later ∙ e) in
        record {
          name = l.name;
          is_row = rw l.is_row (or_true (str_eq k l.name && str_eq w v));
          is_inside_it = l.is_inside_it;
          no_longer = ((λ at. let impossible : true ≡ false = sym at ∙ past in cc), l.no_longer);
        }
  ]

module _ {C : Type 0} (m : Matcher C) (texts : GpuTexts) where
  -- The integrated GPU of a CPU belongs to a name of the sorted table that stands in the CPU's name,
  -- and no name of the table of the source, normalized, that stands in it is longer.
  pub integrated_gpu_for-longest :
      (cpu v : String)
      → integrated_gpu_for m texts cpu ≡ some v
      → (name : String) × (any (λ r. str_eq r.0 name && str_eq r.1 v) (integrated_keys m texts)
          ≡ true)
        × (texts.is_in name (m.normalize cpu) ≡ true)
        × All
            (λ (r : String × String).
              (texts.is_in r.0 (m.normalize cpu) ≡ true) → texts.size r.0 ≤ texts.size name)
            (map (λ (row : String × String). (m.normalize row.0, row.1)) integrated_gpu_by_cpu)
  unfolding integrated_gpu_for integrated_keys
  integrated_gpu_for-longest cpu v h =
      let table =
        map (λ (row : String × String). (m.normalize row.0, row.1)) integrated_gpu_by_cpu in
      let l =
        key_in-IsLongest texts.size (λ k. texts.is_in k (m.normalize cpu))
          (longest_first texts.size table) v (longest_first-IsDescending texts.size table) h in
      (
        l.name,
        l.is_row,
        l.is_inside_it,
        longest_first-All texts.size
            (λ (r : String × String).
              (texts.is_in r.0 (m.normalize cpu) ≡ true) → texts.size r.0 ≤ texts.size l.name)
            table l.no_longer,
      )
