-- ===== src/PickScore/Whole.antt =====
-- Whole numbers in place of floats: an arithmetic in which the order laws hold.
use pickwise_v2_backend.Prelude.{ℕ, zero, suc, ◌+◌, ◌-◌, ◌*◌, ◌/◌, ◌≤◌, refl, leb, arith, str_eq}
use pickwise_v2_backend.PickScore.Platform.{Platform, IsOrdered}

abbrev pub whole : Platform
whole = record {
  F = ℕ;
  le = leb;
  add = λ a b. a + b;
  sub = λ a b. a - b;
  mul = λ a b. a * b;
  div = λ a b. a / b;
  of_nat = λ n. n;
  tenths = λ n. n / 10;
  rounded = λ n. n;
  round_to = λ d x. x;
  lower = λ s. s;
  is_within = λ a b. str_eq a b;
  starts_with = λ a b. str_eq a b;
}

share_le : (x p : ℕ) → x ≤ 100 → p ≤ 1 → x * p ≤ 100
share_le x zero h k = omega arith
share_le x (suc zero) h k = omega arith
share_le x (suc (suc p)) h k = absurd (omega arith)

pub whole-IsOrdered : IsOrdered whole
whole-IsOrdered = record {
  total = λ a b h. ground arith;
  trans = λ a b c h k. ground arith;
  zero_fifty = refl;
  fifty_hundred = refl;
  inverse_low = λ x h. ground arith;
  inverse_high = λ x h. ground arith;
  share_low = λ x p h k. ground arith;
  share_high = λ x p h k l. ground (arith, share_le x p);
  one_less = λ x h. ground arith;
  fifteen_less = λ x h. ground arith;
  zero_one = refl;
  excess = λ a b h k. ground arith;
  mix_low = λ x y h k. ground arith;
  mix_high = λ x y h k. ground arith;
  forty_less = λ d. ground arith;
  one_cap = refl;
}
