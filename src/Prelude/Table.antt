-- ===== src/Prelude/Table.antt =====
-- A database table as the list of its rows, each with its primary key.
use Prim.Native.Nat.{ℕ}
use mathlib.Core.Path.{◌≡◌}
use mathlib.Core.List.{List, [], ◌∷◌}
use mathlib.Core.Option.{Option, none, some}
use native.Mathlib.Omega.{arith}
use pickwise_v2_backend.Prelude.Tests.{◌==◌, if◌then◌else◌}

module _ {ℓ} {R : Type ℓ} where
  -- `session.get(Row, key)`.
  unfoldable pub get : ℕ → List (ℕ × R) → Option R
  get k [] = none
  get k ((j, r) ∷ t) = if j == k then some r else get k t

  -- The commit of one row that is in the table. A key that is not there writes nothing.
  unfoldable pub put : ℕ → R → List (ℕ × R) → List (ℕ × R)
  put k r [] = []
  put k r ((j, s) ∷ t) = if j == k then (j, r) ∷ t else (j, s) ∷ put k r t

  pub get-put :
      (k j : ℕ) (r : R) (t : List (ℕ × R))
      → get j (put k r t)
        ≡ (if k == j then (elim (get k t) [ none ↦ none | some _ ↦ some r ]) else get j t)
  unfolding get put
  get-put k j r [] = ground arith
  get-put k j r ((i, s) ∷ t) = ground (arith, get-put k j r t)
