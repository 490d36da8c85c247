-- ===== src/PickScore/Platform.antt =====
-- What app/pickscore/engine.py uses of Python: floats, round, and tests on text.
use pickwise_v2_backend.Prelude.{ℕ, String, ◌≡◌, Bool, true, false, if◌then◌else◌}

pub record Platform : Type 1 where
  pub F : Type 0
  pub le : F → F → Bool  -- `<=`
  pub add : F → F → F
  pub sub : F → F → F
  pub mul : F → F → F
  pub div : F → F → F
  pub of_nat : ℕ → F  -- `float(n)`
  pub tenths : ℕ → F  -- the literal of so many tenths
  pub rounded : F → ℕ  -- `int(max(0, round(x)))`
  pub round_to : ℕ → F → F  -- `round(x, digits)`
  pub lower : String → String
  pub is_within : String → String → Bool  -- `a in b`
  pub starts_with : String → String → Bool  -- `a.startswith(b)`

module _ (py : Platform) where
  -- Python's `max(a, b)` and `min(a, b)` keep the first of two equal values.
  abbrev pub fmax : py.F → py.F → py.F
  fmax a b = if py.le b a then a else b

  abbrev pub fmin : py.F → py.F → py.F
  fmin a b = if py.le a b then a else b

  abbrev pub is_zero : py.F → Bool
  is_zero x = if py.le x (py.of_nat 0) then py.le (py.of_nat 0) x else false

  -- What a score between 0 and 100 relies on: no value is NaN, so that `<=` is total and transitive,
  -- 0 ≤ 50 ≤ 100, and the arithmetic of the factors does not leave the bounds by rounding.
  pub record IsOrdered : Type 0 where
    pub total : (a b : py.F) → py.le a b ≡ false → py.le b a ≡ true
    pub trans : (a b c : py.F) → py.le a b ≡ true → py.le b c ≡ true → py.le a c ≡ true
    pub zero_fifty : py.le (py.of_nat 0) (py.of_nat 50) ≡ true
    pub fifty_hundred : py.le (py.of_nat 50) (py.of_nat 100) ≡ true
    -- `100.0 - x` of a score is a score.
    pub inverse_low :
        (x : py.F)
        → py.le x (py.of_nat 100) ≡ true
        → py.le (py.of_nat 0) (py.sub (py.of_nat 100) x) ≡ true
    pub inverse_high :
        (x : py.F)
        → py.le (py.of_nat 0) x ≡ true
        → py.le (py.sub (py.of_nat 100) x) (py.of_nat 100) ≡ true
    -- A share of a score is a score.
    pub share_low :
        (x p : py.F)
        → py.le (py.of_nat 0) x ≡ true
        → py.le (py.of_nat 0) p ≡ true
        → py.le (py.of_nat 0) (py.mul x p) ≡ true
    pub share_high :
        (x p : py.F)
        → py.le x (py.of_nat 100) ≡ true
        → py.le (py.of_nat 0) p ≡ true
        → py.le p (py.of_nat 1) ≡ true
        → py.le (py.mul x p) (py.of_nat 100) ≡ true
    -- `1.0 - x` for a ratio, and `x - 15.0` for a score.
    pub one_less :
        (x : py.F)
        → py.le (py.of_nat 0) x ≡ true
        → py.le (py.sub (py.of_nat 1) x) (py.of_nat 1) ≡ true
    pub fifteen_less :
        (x : py.F)
        → py.le x (py.of_nat 100) ≡ true
        → py.le (py.sub x (py.of_nat 15)) (py.of_nat 100) ≡ true
    pub zero_one : py.le (py.of_nat 0) (py.of_nat 1) ≡ true
    -- A price over a positive budget has a positive excess.
    pub excess :
        (a b : py.F)
        → py.le a b ≡ false
        → py.le b (py.of_nat 0) ≡ false
        → py.le (py.of_nat 0) (py.mul (py.of_nat 2) (py.div (py.sub a b) b)) ≡ true
    -- Six tenths of a score and four tenths of another make a score.
    pub mix_low :
        (x y : py.F)
        → py.le (py.of_nat 0) x ≡ true
        → py.le (py.of_nat 0) y ≡ true
        → py.le (py.of_nat 0) (py.add (py.mul x (py.tenths 6)) (py.mul y (py.tenths 4))) ≡ true
    pub mix_high :
        (x y : py.F)
        → py.le x (py.of_nat 100) ≡ true
        → py.le y (py.of_nat 100) ≡ true
        → py.le (py.add (py.mul x (py.tenths 6)) (py.mul y (py.tenths 4))) (py.of_nat 100) ≡ true
    -- `100.0 - d * 40.0` for a distance of buckets.
    pub forty_less :
        (d : ℕ)
        → py.le (py.sub (py.of_nat 100) (py.mul (py.of_nat d) (py.of_nat 40))) (py.of_nat 100)
          ≡ true
    pub one_cap : py.le (py.of_nat 1) (py.tenths 13) ≡ true
