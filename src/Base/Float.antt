-- ===== src/Base/Float.antt =====
-- Python's `float` (an IEEE 754 double) by its 64 bits, and the comparisons the code makes. The
-- comparisons are exact, signed zeros and NaN included.
use contract_evidence_os.Prelude.{
  ℕ, ◌+◌, ◌%◌, ◌^◌, ◌≡◌, refl, Bool, true, false, ◌&&◌, not, ltb, leb, if◌then◌else◌,
}

pub record Float : Type 0 where
  pub bits : ℕ

abbrev pub of_bits : ℕ → Float
of_bits n = record { bits = n }

-- The sign bit is set.
is_negative : Float → Bool
is_negative x = leb (2 ^ 63) (x.bits % 2 ^ 64)

magnitude : Float → ℕ
magnitude x = x.bits % 2 ^ 63

is_nan : Float → Bool
unfolding magnitude
is_nan x = ltb 0x7ff0000000000000 (magnitude x)

positive_part : Float → ℕ
positive_part x = if is_negative x then 0 else magnitude x

negative_part : Float → ℕ
negative_part x = if is_negative x then magnitude x else 0

-- `x < y` and `x <= y`: false as soon as one side is NaN.
unfoldable pub float_lt : Float → Float → Bool
unfolding is_negative magnitude is_nan positive_part negative_part
float_lt x y =
    not (is_nan x)
    && not (is_nan y)
    && ltb (positive_part x + negative_part y) (positive_part y + negative_part x)

unfoldable pub float_le : Float → Float → Bool
unfolding is_negative magnitude is_nan positive_part negative_part
float_le x y =
    not (is_nan x)
    && not (is_nan y)
    && leb (positive_part x + negative_part y) (positive_part y + negative_part x)

-- The literals of the source, rounded to nearest.
abbrev pub float_0_0 : Float
float_0_0 = of_bits 0

abbrev pub float_0_2 : Float
float_0_2 = of_bits 0x3fc999999999999a

abbrev pub float_0_5 : Float
float_0_5 = of_bits 0x3fe0000000000000

abbrev pub float_0_4 : Float
float_0_4 = of_bits 0x3fd999999999999a

abbrev pub float_0_7 : Float
float_0_7 = of_bits 0x3fe6666666666666

abbrev pub float_0_75 : Float
float_0_75 = of_bits 0x3fe8000000000000

abbrev pub float_1_5 : Float
float_1_5 = of_bits 0x3ff8000000000000

abbrev pub float_1_0 : Float
float_1_0 = of_bits 0x3ff0000000000000

float_lt-literals : (float_lt float_0_4 float_0_7 ≡ true) × (float_lt float_0_7 float_0_4 ≡ false)
unfolding float_lt
float_lt-literals = (refl, refl)

-- Python's `min` and `max` of two floats: the first argument, unless the second is strictly better.
unfoldable pub float_min : Float → Float → Float
float_min x y = if float_lt y x then y else x

unfoldable pub float_max : Float → Float → Float
float_max x y = if float_lt x y then y else x

-- The rounded operations of IEEE 754 arithmetic that the code uses, and `float(n)`.
pub record Arithmetic : Type 0 where
  pub add : Float → Float → Float
  pub sub : Float → Float → Float
  pub mul : Float → Float → Float
  pub div : Float → Float → Float
  pub of_int : ℕ → Float

-- `x == y`
unfoldable pub float_eq : Float → Float → Bool
float_eq x y = float_le x y && float_le y x
