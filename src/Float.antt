-- ===== src/Float.antt =====
-- Go's float64, as far as the program compares values of it.
use ebookfs.Common.{
  ℕ, ◌+◌, ◌*◌, ◌^◌, ◌≡◌, refl, ◌↔◌, Bool, true, false, not, ◌||◌, ◌&&◌, arith, leb,
}

-- Not a number, an infinity (true is the positive one), or a sign (true is plus) and a magnitude
-- counted in units of 2^-1074, of which every finite float64 is a whole number.
pub data Float64 : Type 0 where
  nan : Float64
  inf : Bool → Float64
  finite : Bool → ℕ → Float64

-- how many units make 1
units : ℕ
units = 2 ^ 1074

unfoldable pub of_nat : ℕ → Float64
unfolding units
of_nat n = finite true (n * units)

unfoldable pub is_nan : Float64 → Bool
is_nan nan = true
is_nan (inf s) = false
is_nan (finite s n) = false

-- `a <= b`; every comparison with NaN is false
unfoldable pub float_le : Float64 → Float64 → Bool
float_le nan b = false
float_le (inf s) nan = false
float_le (finite s n) nan = false
float_le (inf s) (inf t) = not s || t
float_le (inf s) (finite t m) = not s
float_le (finite s n) (inf t) = t
float_le (finite true n) (finite true m) = leb n m
float_le (finite true n) (finite false m) = leb (n + m) 0
float_le (finite false n) (finite true m) = true
float_le (finite false n) (finite false m) = leb m n

-- `a < b`
unfoldable pub float_lt : Float64 → Float64 → Bool
unfolding float_le is_nan
float_lt a b = not (is_nan a) && not (is_nan b) && not (float_le b a)

-- `a == b`
unfoldable pub float_eq : Float64 → Float64 → Bool
unfolding float_le
float_eq a b = float_le a b && float_le b a

pub float_le_trans :
    (a b c : Float64) → float_le a b ≡ true → float_le b c ≡ true → float_le a c ≡ true
unfolding float_le
float_le_trans a b c h k = ground arith

pub float_le_total :
    (a b : Float64)
    → is_nan a ≡ false
    → is_nan b ≡ false
    → float_le a b ≡ false
    → float_le b a ≡ true
unfolding float_le is_nan
float_le_total a b h k l = ground arith

pub of_nat_number : (n : ℕ) → is_nan (of_nat n) ≡ false
unfolding of_nat is_nan
of_nat_number n = refl

float_le_number : (a b : Float64) → float_le a b ≡ true → (is_nan a ≡ false) × (is_nan b ≡ false)
unfolding float_le is_nan
float_le_number a b h = ground arith

-- The test "not a number, or below the one bound, or above the other" fails exactly between the bounds.
pub float_between_iff :
    (a lo hi : Float64)
    → is_nan lo ≡ false
    → is_nan hi ≡ false
    → ((is_nan a || (float_lt a lo || float_lt hi a)) ≡ false)
      ↔ ((float_le lo a ≡ true) × (float_le a hi ≡ true))
unfolding float_lt
float_between_iff a lo hi hl hh = ground (arith, float_le_number lo a, float_le_number a hi)
