-- ===== src/Prelude/Marked.antt =====
-- Texts with marks, from which what was written can be read back: they stand for tokens and hashes in
-- the examples.
use Prim.Native.Char.{Char, code}
use Prim.Native.Nat.{ℕ, zero, suc}
use Prim.Native.String.{String}
use mathlib.Core.Path.{◌≡◌, refl, ap}
use mathlib.Core.Bool.{Bool}
use mathlib.Core.Option.{Option, none, some}
use pickwise_v2_backend.Prelude.Tests.{◌==◌, if◌then◌else◌}

-- Each character behind a mark, and another mark at the end.
abbrev pub write_text : String → String → String
write_text String.[] rest = String.◌∷◌ "." rest
write_text (String.◌∷◌ c s) rest = String.◌∷◌ "," (String.◌∷◌ c (write_text s rest))

abbrev pub cons_text : Char → Option (String × String) → Option (String × String)
cons_text c none = none
cons_text c (some (s, rest)) = some (String.◌∷◌ c s, rest)

abbrev pub is_end : Char → Bool
is_end c = code c == 46

abbrev pub read_text : String → Option (String × String)
read_text String.[] = none
read_text (String.◌∷◌ t String.[]) = if is_end t then some ("", "") else none
read_text (String.◌∷◌ t (String.◌∷◌ c s)) =
    let later = read_text s in if is_end t then some ("", String.◌∷◌ c s) else cons_text c later

pub read-write : (s rest : String) → read_text (write_text s rest) ≡ some (s, rest)
read-write String.[] String.[] = refl
read-write String.[] (String.◌∷◌ c rest) = refl
read-write (String.◌∷◌ c s) rest = ap (cons_text c) (read-write s rest)

abbrev pub unary : ℕ → String
unary zero = ""
unary (suc n) = String.◌∷◌ "1" (unary n)

abbrev pub size : String → ℕ
size String.[] = 0
size (String.◌∷◌ c s) = suc (size s)

pub size-unary : (n : ℕ) → size (unary n) ≡ n
size-unary zero = refl
size-unary (suc n) = ap (λ m. suc m) (size-unary n)
