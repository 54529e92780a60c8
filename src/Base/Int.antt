-- ===== src/Base/Int.antt =====
-- Signed integers and binary fractions, as Python's `int` and finite `float` values.
use Prim.Native.Nat.{ℕ, suc, ◌+◌, ◌*◌, ◌^◌, ◌%◌, ◌≤◌}
use mathlib.Core.Bool.{Bool}
use fedora_config.Base.Tests.{leb, ◌==◌}

-- `negsuc n` is -(n + 1).
pub data ℤ : Type 0 where
  pos : ℕ → ℤ
  negsuc : ℕ → ℤ

abbrev pub pos_part : ℤ → ℕ
pos_part (pos n) = n
pos_part (negsuc n) = 0

abbrev pub neg_part : ℤ → ℕ
neg_part (pos n) = 0
neg_part (negsuc n) = suc n

infix 50 ◌≤ℤ◌
abbrev pub ◌≤ℤ◌ : ℤ → ℤ → Type 0
a ≤ℤ b = pos_part a + neg_part b ≤ pos_part b + neg_part a

abbrev pub leb_ℤ : ℤ → ℤ → Bool
leb_ℤ a b = leb (pos_part a + neg_part b) (pos_part b + neg_part a)

-- A finite float is `mantissa / 2 ^ exponent`, exactly.
pub record Dyadic : Type 0 where
  pub mantissa : ℤ
  pub exponent : ℕ

abbrev pub whole : ℤ → Dyadic
whole n = record { mantissa = n; exponent = 0 }

-- Comparison by cross-multiplication.
infix 50 ◌≤dyadic◌
abbrev pub ◌≤dyadic◌ : Dyadic → Dyadic → Type 0
x ≤dyadic y =
    pos_part x.mantissa * 2 ^ y.exponent + neg_part y.mantissa * 2 ^ x.exponent
    ≤ pos_part y.mantissa * 2 ^ x.exponent + neg_part x.mantissa * 2 ^ y.exponent

abbrev pub leb_dyadic : Dyadic → Dyadic → Bool
leb_dyadic x y =
    leb (pos_part x.mantissa * 2 ^ y.exponent + neg_part y.mantissa * 2 ^ x.exponent)
      (pos_part y.mantissa * 2 ^ x.exponent + neg_part x.mantissa * 2 ^ y.exponent)

-- `float.is_integer`.
abbrev pub is_integer : Dyadic → Bool
is_integer x = (pos_part x.mantissa + neg_part x.mantissa) % 2 ^ x.exponent == 0
