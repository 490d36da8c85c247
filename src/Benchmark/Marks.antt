-- ===== src/Benchmark/Marks.antt =====
-- A mark that resolve_benchmark gives is the mark of a row.
use pickwise_v2_backend.Prelude.{
  ℕ, ◌≡◌, refl, inl, inr, Bool-cases, String, Bool, true, false, ◌&&◌, Option, none, some, List, [],
  ◌∷◌, map, any, keep, ◌==◌, str_eq, eq_iff, or_true, All, All-weaken, arith, get_text, put_text,
  All-get_text, All-put_text,
}
use pickwise_v2_backend.Benchmark.Matching.{
  Threshold, Matcher, Result, Index, first_of, index_marks, sort_by, is_placeholder, build_index,
  unmatched, with_mark, with_name, weak_name, fuzzy_result, exact_result, same_part, match_key,
  fresh_match,
}
use pickwise_v2_backend.Benchmark.Cached.{meaning}

-- The name and the mark of a row, or neither.
abbrev pub is_mark : List (String × ℕ) → Option String → Option ℕ → Bool
is_mark bs none none = true
is_mark bs (some name) (some mark) = any (λ b. str_eq b.0 name && (b.1 == mark)) bs
is_mark bs none (some mark) = false
is_mark bs (some name) none = false

abbrev InTable : List (String × ℕ) → String × ℕ → Type 0
InTable bs (name, mark) = is_mark bs (some name) (some mark) ≡ true

table-InTable : (bs : List (String × ℕ)) → All (InTable bs) bs
table-InTable [] = tt
table-InTable ((name, mark) ∷ bs) = (
  ground (arith, eq_iff name name),
  All-weaken (InTable bs) (InTable ((name, mark) ∷ bs)) bs
      (λ (n, k) there. rw there (or_true (str_eq name n && (mark == k)))) (table-InTable bs),
)

index_marks-InTable :
    (bs rows all_rows : List (String × ℕ))
    → All (InTable all_rows) bs
    → All (InTable all_rows) rows
    → All (InTable all_rows) (index_marks bs rows)
unfolding index_marks
index_marks-InTable [] rows all_rows h k = k
index_marks-InTable ((name, mark) ∷ bs) rows all_rows h k =
    index_marks-InTable bs (put_text name mark rows) all_rows h.1
      (All-put_text (InTable all_rows) name mark rows h.0 k)

module _ {C : Type 0} (m : Matcher C) where
  -- A result of resolve_benchmark: its mark is of a row, and it is no proxy.
  abbrev pub IsPlain : List (String × ℕ) → Option (Result C) → Type 0
  IsPlain bs none = Unit
  IsPlain bs (some r) = (is_mark bs r.matched_name r.score ≡ true) × (r.is_proxy ≡ false)

  module _ (bs : List (String × ℕ)) (index : Index) (marks : All (InTable bs) index.marks) where
    with_mark-IsPlain :
        (c : C) (name : String) (o : Option ℕ)
        → get_text name index.marks ≡ o
        → IsPlain bs (with_mark m c name o)
    unfolding with_mark
    with_mark-IsPlain c name none h = tt
    with_mark-IsPlain c name (some mark) h =
        (All-get_text (InTable bs) name index.marks mark marks h, refl)

    with_name-IsPlain : (c : C) (o : Option String) → IsPlain bs (with_name m c index o)
    unfolding with_name
    with_name-IsPlain c none = tt
    with_name-IsPlain c (some name) = with_mark-IsPlain c name (get_text name index.marks) refl

    weak_name-IsPlain : (c : C) (o : Option String) → IsPlain bs (weak_name m c o)
    unfolding weak_name unmatched
    weak_name-IsPlain c none = tt
    weak_name-IsPlain c (some name) = (refl, refl)

    fuzzy_result-IsPlain :
        (threshold : Threshold) (o : Option (String × C))
        → IsPlain bs (fuzzy_result m index threshold o)
    unfolding fuzzy_result unmatched
    fuzzy_result-IsPlain threshold none = (refl, refl)
    fuzzy_result-IsPlain threshold (some (k, c)) = elim (Bool-cases (m.reaches c threshold)) [
      | inl enough ↦ rw enough (with_name-IsPlain c (get_text k index.by_norm))
      | inr weak ↦ rw weak (weak_name-IsPlain c (get_text k index.by_norm))
    ]

    exact_result-IsPlain : (o : Option (String × C)) → IsPlain bs (exact_result m index o)
    unfolding exact_result
    exact_result-IsPlain none = tt
    exact_result-IsPlain (some (k, c)) =
        with_name-IsPlain m.full_confidence (get_text k index.by_norm)

    same_part-IsPlain :
        (key : String) (threshold : Threshold) (names : List String)
        → IsPlain bs (same_part m key index threshold names)
    unfolding same_part
    same_part-IsPlain key threshold [] =
        fuzzy_result-IsPlain threshold (m.best key (map first_of index.by_norm))
    same_part-IsPlain key threshold (n ∷ ns) = exact_result-IsPlain (m.best key (n ∷ ns))

    match_key-IsPlain :
        (key : String) (threshold : Threshold) (o : Option String)
        → IsPlain bs (match_key m key index threshold o)
    unfolding match_key
    match_key-IsPlain key threshold none =
        fuzzy_result-IsPlain threshold (m.best key (map first_of index.by_norm))
    match_key-IsPlain key threshold (some part) =
        same_part-IsPlain key threshold
          (sort_by m.is_before (keep (m.carries part) (map first_of index.by_norm)))

  fresh_match-IsPlain :
      (key : String) (bs : List (String × ℕ)) (threshold : Threshold)
      → IsPlain bs (fresh_match m key bs threshold)
  unfolding fresh_match build_index unmatched
  fresh_match-IsPlain key [] threshold = (refl, refl)
  fresh_match-IsPlain key (b ∷ bs) threshold =
      match_key-IsPlain (b ∷ bs) (build_index m (b ∷ bs))
        (index_marks-InTable (b ∷ bs) [] (b ∷ bs) (table-InTable (b ∷ bs)) tt) key threshold
        (m.part_of key)

  pub meaning-IsPlain :
      (model : String) (bs : List (String × ℕ)) (threshold : Threshold)
      → IsPlain bs (meaning m model bs threshold)
  unfolding unmatched
  meaning-IsPlain model bs threshold = elim (Bool-cases (is_placeholder m model)) [
    | inl blank ↦ rw blank (refl, refl)
    | inr name ↦ rw name (fresh_match-IsPlain (m.normalize model) bs threshold)
  ]
