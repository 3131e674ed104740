-- ===== src/Common/Keys.antt =====
-- Comparable types: Go's `==` on them, as an instance; membership and removal on lists of them.
use Prim.Native.Nat.{ℕ}
use mathlib.Core.Path.{◌≡◌, refl}
use mathlib.Core.Logic.{◌↔◌}
use mathlib.Core.Bool.{Bool, true, false, ◌||◌, not, ◌&&◌}
use mathlib.Core.List.{List, [], ◌∷◌, ◌++◌}
use native.Mathlib.Omega.{arith}
use ebookfs.Common.Tests.{◌==◌, ==_iff}
use ebookfs.Common.Lists.{keep}

pub record Comparable {ℓ} (A : Type ℓ) : Type ℓ where
  pub beq : A → A → Bool
  pub beq_iff : (a b : A) → (beq a b ≡ true) ↔ (a ≡ b)

abbrev pub same {ℓ} : {A : Type ℓ} ⦃e : Comparable A⦄ → A → A → Bool
same ⦃e⦄ = e.beq

instance abbrev pub nat_comparable : Comparable ℕ
nat_comparable = record { beq = ◌==◌; beq_iff = ==_iff }

abbrev pub text_eq : List ℕ → List ℕ → Bool
text_eq [] [] = true
text_eq [] (b ∷ t) = false
text_eq (a ∷ s) [] = false
text_eq (a ∷ s) (b ∷ t) = (a == b) && text_eq s t

pub text_eq_iff : (s t : List ℕ) → (text_eq s t ≡ true) ↔ (s ≡ t)
text_eq_iff [] [] = ground arith
text_eq_iff [] (b ∷ t) = ground arith
text_eq_iff (a ∷ s) [] = ground arith
text_eq_iff (a ∷ s) (b ∷ t) = ground (arith, text_eq_iff s t)

instance abbrev pub text_comparable : Comparable (List ℕ)
text_comparable = record { beq = text_eq; beq_iff = text_eq_iff }

module _ {ℓ} {A : Type ℓ} ⦃e : Comparable A⦄ where
  pub same_refl : (a : A) → same a a ≡ true
  same_refl a = (e.beq_iff a a).1 refl

  pub eq_of_same : (a b : A) → same a b ≡ true → a ≡ b
  eq_of_same a b = (e.beq_iff a b).0

  pub same_sym : (a b : A) → same a b ≡ same b a
  same_sym a b = ground (arith, e.beq_iff a b, e.beq_iff b a)

  -- `slices.Contains`
  abbrev pub contains : List A → A → Bool
  contains [] a = false
  contains (x ∷ xs) a = same x a || contains xs a

  -- `slices.DeleteFunc(slices.Clone(xs), func(x) bool { return x == a })`
  abbrev pub without : List A → A → List A
  without xs a = keep (λ x. not (same x a)) xs

  pub contains-append :
      (xs ys : List A) (a : A) → contains (xs ++ ys) a ≡ (contains xs a || contains ys a)
  contains-append [] ys a = refl
  contains-append (x ∷ xs) ys a = ground (arith, contains-append xs ys a)

  pub contains-keep :
      (p : A → Bool) (xs : List A) (a : A) → contains (keep p xs) a ≡ (p a && contains xs a)
  contains-keep p [] a = ground arith
  contains-keep p (x ∷ xs) a = ground (arith, contains-keep p xs a, e.beq_iff x a)
