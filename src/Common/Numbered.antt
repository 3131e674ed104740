-- ===== src/Common/Numbered.antt =====
-- Loops that look for a name that is not taken: `stem`, then `stem` with a number from 2 on.
use ebookfs.Common.{
  ℕ, zero, suc, ◌+◌, ◌≤◌, ◌<◌, ◌≡◌, ◌≢◌, refl, sym, ◌∙◌, true, false, List, [], ◌∷◌, ◌++◌, Option,
  none, some, if◌then◌else◌, arith, length, Text, text_eq_iff, text_comparable, contains, without,
  format_nat, Bool-cases, inl, inr, format_nat-injective, format_nat-ne-nil,
}

-- the names that such a loop tries, in order
unfoldable pub numbered : Text → Text → ℕ → Text
numbered stem separator zero = stem
numbered stem separator (suc n) = stem ++ (separator ++ format_nat (n + 2))

-- The first name from the `n`-th on that is not taken; `none` is a loop that goes on.
unfoldable pub first_free : List Text → (ℕ → Text) → ℕ → ℕ → Option Text
first_free taken name zero n = none
first_free taken name (suc fuel) n =
    let rest = first_free taken name fuel (suc n) in
    if contains taken (name n) then rest else some (name n)

append_injective : (s t u : Text) → s ++ t ≡ s ++ u → t ≡ u
append_injective [] t u e = e
append_injective (c ∷ s) t u e = append_injective s t u (cc)

append_self : (s t : Text) → s ≡ s ++ t → t ≡ []
append_self [] t e = sym e
append_self (c ∷ s) t e = append_self s t (cc)

append-ne-nil : (s t : Text) → t ≢ [] → s ++ t ≢ []
append-ne-nil [] t h = h
append-ne-nil (c ∷ s) t h = λ e. absurd (cc)

-- No name is tried twice.
pub numbered-injective :
    (stem separator : Text) (n m : ℕ)
    → numbered stem separator n ≡ numbered stem separator m
    → n ≡ m
unfolding numbered
numbered-injective stem separator zero zero e = refl
numbered-injective stem separator zero (suc m) e = absurd (
    append-ne-nil separator (format_nat (m + 2)) (format_nat-ne-nil (m + 2))
      (append_self stem (separator ++ format_nat (m + 2)) e))
numbered-injective stem separator (suc n) zero e = absurd (
    append-ne-nil separator (format_nat (n + 2)) (format_nat-ne-nil (n + 2))
      (append_self stem (separator ++ format_nat (n + 2)) (sym e)))
numbered-injective stem separator (suc n) (suc m) e = omega (
  arith,
  format_nat-injective (n + 2) (m + 2) (
      append_injective separator (format_nat (n + 2)) (format_nat (m + 2)) (
        append_injective stem (separator ++ format_nat (n + 2)) (separator ++ format_nat (m + 2))
          e)),
)

length-without : (taken : List Text) (x : Text) → length (without taken x) ≤ length taken
length-without [] x = omega arith
length-without (t ∷ taken) x = ground (arith, length-without taken x)

length-without_lt :
    (taken : List Text) (x : Text)
    → contains taken x ≡ true
    → length (without taken x) < length taken
length-without_lt [] x h = absurd (cc)
length-without_lt (t ∷ taken) x h =
    ground (arith, length-without_lt taken x, length-without taken x)

contains-without :
    (taken : List Text) (x y : Text) → x ≢ y → contains (without taken x) y ≡ contains taken y
contains-without [] x y h = refl
contains-without (t ∷ taken) x y h =
    ground (arith, contains-without taken x y, text_eq_iff t x, text_eq_iff t y)

module _ (name : ℕ → Text) (once : (n m : ℕ) → name n ≡ name m → n ≡ m) where
  -- a name that is not tried again does not matter
  first_free-without :
      (taken : List Text) (k fuel n : ℕ)
      → k < n
      → first_free (without taken (name k)) name fuel n ≡ first_free taken name fuel n
  unfolding first_free
  first_free-without taken k zero n h = refl
  first_free-without taken k (suc fuel) n h =
      rw
        (
          contains-without taken (name k) (name n) (λ e. absurd (omega (arith, once k n e))),
          first_free-without taken k fuel (suc n) (omega arith),
        )
        refl

  -- The loop ends with a name that is not taken, after as many rounds as there are taken names at most.
  pub first_free-ends :
      (taken : List Text) (fuel n : ℕ)
      → length taken < fuel
      → (k : ℕ) × (n ≤ k)
        × (first_free taken name fuel n ≡ some (name k))
        × (contains taken (name k) ≡ false)
  unfolding first_free
  first_free-ends taken zero n h = absurd (omega arith)
  first_free-ends taken (suc fuel) n h = elim (Bool-cases (contains taken (name n))) [
    | inr free ↦ (n, omega arith, rw free refl, free)
    | inl used ↦ later used (
        first_free-ends (without taken (name n)) fuel (suc n)
          (omega (arith, length-without_lt taken (name n) used)))
  ]
    where
      later :
          contains taken (name n) ≡ true
          → (k : ℕ) × (suc n ≤ k)
            × (first_free (without taken (name n)) name fuel (suc n) ≡ some (name k))
            × (contains (without taken (name n)) (name k) ≡ false)
          → (k : ℕ) × (n ≤ k)
            × (first_free taken name (suc fuel) n ≡ some (name k))
            × (contains taken (name k) ≡ false)
      later used (k, more, found, free) = (
        k,
        omega arith,
        rw used (sym (first_free-without taken n fuel (suc n) (omega arith)) ∙ found),
        sym (contains-without taken (name n) (name k) (λ e. absurd (omega (arith, once n k e))))
            ∙ free,
      )
