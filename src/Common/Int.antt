-- ===== src/Common/Int.antt =====
-- Go's int64 as an integer, its decimal print and `strconv.ParseInt(s, 10, 64)`.
use Prim.Native.Nat.{ℕ, zero, suc, ◌+◌, ◌-◌, ◌*◌, ◌/◌, ◌%◌, ◌^◌, ◌≤◌, ◌<◌}
use mathlib.Core.Path.{◌≡◌, refl, sym, ap, ◌∙◌}
use mathlib.Core.Logic.{◌↔◌, ◌≢◌, inl, inr}
use mathlib.Core.Bool.{Bool, true, false, ◌&&◌}
use mathlib.Core.Option.{Option, none, some}
use mathlib.Core.List.{[], ◌∷◌}
use native.Mathlib.Omega.{arith}
use ebookfs.Common.Tests.{ltb, leb, ◌==◌, if◌then◌else◌, Bool-cases}
use ebookfs.Common.Lists.{All}
use ebookfs.Common.Keys.{Comparable}
use ebookfs.Common.Strings.{Text}

-- `negsuc n` is -(n + 1).
pub data ℤ : Type 0 where
  pos : ℕ → ℤ
  negsuc : ℕ → ℤ

abbrev pub int_eq : ℤ → ℤ → Bool
int_eq (pos a) (pos b) = a == b
int_eq (pos a) (negsuc b) = false
int_eq (negsuc a) (pos b) = false
int_eq (negsuc a) (negsuc b) = a == b

pub int_eq_iff : (a b : ℤ) → (int_eq a b ≡ true) ↔ (a ≡ b)
int_eq_iff (pos a) (pos b) = ground arith
int_eq_iff (pos a) (negsuc b) = ground arith
int_eq_iff (negsuc a) (pos b) = ground arith
int_eq_iff (negsuc a) (negsuc b) = ground arith

instance abbrev pub int_comparable : Comparable ℤ
int_comparable = record { beq = int_eq; beq_iff = int_eq_iff }

-- `a < b`
abbrev pub int_ltb : ℤ → ℤ → Bool
int_ltb (pos a) (pos b) = ltb a b
int_ltb (pos a) (negsuc b) = false
int_ltb (negsuc a) (pos b) = true
int_ltb (negsuc a) (negsuc b) = ltb b a

abbrev pub int64_bound : ℕ
int64_bound = 2 ^ 63

-- the digits of `n` before `out`; `n` rounds are more than enough
digits : ℕ → ℕ → Text → Text
digits zero n out = out
digits (suc f) n out =
    let rest = digits f (n / 10) ((b'0' + n % 10) ∷ out) in if n == 0 then out else rest

unfoldable pub format_nat : ℕ → Text
unfolding digits
format_nat n = if n == 0 then b'0' ∷ [] else digits n n []

-- `strconv.FormatInt(i, 10)`, and `%d`
unfoldable pub format_int : ℤ → Text
unfolding format_nat
format_int (pos n) = format_nat n
format_int (negsuc n) = b'-' ∷ format_nat (suc n)

abbrev pub is_digit : ℕ → Bool
is_digit c = leb b'0' c && leb c b'9'

-- the value of a run of digits behind `n`, with no bound
scan : Text → ℕ → Option ℕ
scan [] n = some n
scan (c ∷ s) n = let rest = scan s (n * 10 + (c - b'0')) in if is_digit c then rest else none

scan_filled : Text → Option ℕ
unfolding scan
scan_filled [] = none
scan_filled (c ∷ s) = scan (c ∷ s) 0

in_range : Bool → Option ℕ → Option ℤ
in_range negative none = none
in_range false (some n) = if ltb n int64_bound then some (pos n) else none
in_range true (some n) =
    if leb n int64_bound then some (if n == 0 then pos 0 else negsuc (n - 1)) else none

unfoldable pub parse_int : Text → Option ℤ
unfolding scan_filled in_range
parse_int [] = none
parse_int (c ∷ s) =
    if c == b'-'
    then in_range true (scan_filled s)
    else if c == b'+'
    then in_range false (scan_filled s)
    else in_range false (scan_filled (c ∷ s))

abbrev pub IsDigit : ℕ → Type 0
IsDigit c = (b'0' ≤ c) × (c ≤ b'9')

digits-IsDigit : (f n : ℕ) (out : Text) → All IsDigit out → All IsDigit (digits f n out)
unfolding digits
digits-IsDigit zero n out h = h
digits-IsDigit (suc f) n out h = elim (Bool-cases (n == 0)) [
  | inl e ↦ rw e h
  | inr e ↦ rw e (digits-IsDigit f (n / 10) ((b'0' + n % 10) ∷ out) (omega arith, h))
]

pub format_nat-IsDigit : (n : ℕ) → All IsDigit (format_nat n)
unfolding format_nat
format_nat-IsDigit n = elim (Bool-cases (n == 0)) [
  | inl e ↦ rw e (omega arith)
  | inr e ↦ rw e (digits-IsDigit n n [] tt)
]

scan_last : (n : ℕ) (out : Text) → scan ((b'0' + n % 10) ∷ out) (n / 10) ≡ scan out n
unfolding scan
scan_last n out = ground arith

scan-digits : (f n : ℕ) (out : Text) → n ≤ f → scan (digits f n out) 0 ≡ scan out n
unfolding digits
scan-digits zero n out h = ap (scan out) (omega arith)
scan-digits (suc f) n out h = elim (Bool-cases (n == 0)) [
  | inl e ↦ rw e (ap (scan out) (ground arith))
  | inr e ↦ rw e (scan-digits f (n / 10) ((b'0' + n % 10) ∷ out) (ground arith) ∙ scan_last n out)
]

digits-ne-nil : (f n : ℕ) (out : Text) → out ≢ [] → digits f n out ≢ []
unfolding digits
digits-ne-nil zero n out h = h
digits-ne-nil (suc f) n out h = elim (Bool-cases (n == 0)) [
  | inl e ↦ rw e h
  | inr e ↦ rw e (digits-ne-nil f (n / 10) ((b'0' + n % 10) ∷ out) (cc))
]

digits_start : (n : ℕ) → n ≢ 0 → digits n n [] ≢ []
unfolding digits
digits_start zero h = absurd (h refl)
digits_start (suc n) h =
    let e : (suc n == 0) ≡ false = ground arith in
    rw e (digits-ne-nil n (suc n / 10) ((b'0' + suc n % 10) ∷ []) (cc))

pub format_nat-ne-nil : (n : ℕ) → format_nat n ≢ []
unfolding format_nat
format_nat-ne-nil n = elim (Bool-cases (n == 0)) [
  | inl e ↦ rw e (cc)
  | inr e ↦ rw e (digits_start n (ground arith))
]

scan-format_nat : (n : ℕ) → scan (format_nat n) 0 ≡ some n
scan-format_nat n = elim (Bool-cases (n == 0)) [
  | inl e ↦ unfold format_nat scan in rw e (ground arith)
  | inr e ↦ unfold format_nat in rw e (scan-digits n n [] (omega arith) ∙ unfold scan in refl)
]

pub format_nat-injective : (n m : ℕ) → format_nat n ≡ format_nat m → n ≡ m
format_nat-injective n m e =
    some_injective n m (sym (scan-format_nat n) ∙ ap (λ t. scan t 0) e ∙ scan-format_nat m)
  where
    some_injective : (n m : ℕ) → some n ≡ some m → n ≡ m
    some_injective n m e = cc

scan_filled-eq : (s : Text) → s ≢ [] → scan_filled s ≡ scan s 0
unfolding scan_filled
scan_filled-eq [] h = absurd (h refl)
scan_filled-eq (c ∷ s) h = refl

parse_digits : (s : Text) → All IsDigit s → s ≢ [] → parse_int s ≡ in_range false (scan s 0)
parse_digits [] h k = absurd (k refl)
parse_digits (c ∷ s) h k = unfold parse_int in ground (arith)

-- A number that fits an int64 is read back from its decimal print.
pub parse_int-format_nat : (n : ℕ) → n < int64_bound → parse_int (format_nat n) ≡ some (pos n)
parse_int-format_nat n h =
    parse_digits (format_nat n) (format_nat-IsDigit n) (format_nat-ne-nil n)
    ∙ ap (in_range false) (scan-format_nat n)
    ∙ unfold in_range in ground arith
