-- ===== src/Benchmark/Paths.antt =====
-- A GPU's answer says which path its mark is from.
use pickwise_v2_backend.Prelude.{
  ℕ, ◌≡◌, String, Bool, true, false, not, Option, none, some, List, is_some,
}
use pickwise_v2_backend.Benchmark.Matching.{Matcher}
use pickwise_v2_backend.Benchmark.Gpu.{GpuTexts, Resolution, unresolved, GpuMatch}
use pickwise_v2_backend.Benchmark.Marks.{is_mark}

abbrev pub is_found : Resolution → Bool
is_found unresolved = false
is_found _ = true

module _ {C : Type 0} (m : Matcher C) (texts : GpuTexts) where
  -- The mark is of a row, the resolution says if there is one, and a name without a model number
  -- gives a proxy and no other name does.
  abbrev pub IsMatch : List (String × ℕ) → Bool → Option (GpuMatch C) → Type 0
  IsMatch bs is_anchored none = Unit
  IsMatch bs is_anchored (some g) =
      (is_mark bs g.result.matched_name g.result.score ≡ true)
      × (is_some g.result.score ≡ is_found g.resolution)
      × (g.result.is_proxy ≡ not is_anchored)
