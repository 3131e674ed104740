-- ===== src/Common/Trim.antt =====
-- What trimming leaves: its ends, its elements, and when nothing is left.
use ebookfs.Common.Tests.{if◌then◌else◌, Bool-cases}
use ebookfs.Common.Lists.{all, All}
use ebookfs.Common.Strings.{Text, trim_left, trim_right, trim}
use Prim.Native.Nat.{ℕ}
use mathlib.Core.Path.{◌≡◌, refl, ap, ◌∙◌}
use mathlib.Core.Logic.{inl, inr}
use mathlib.Core.Bool.{Bool, true, false, not}
use mathlib.Core.List.{[], ◌∷◌}
use native.Mathlib.Omega.{arith}

module _ (cut : ℕ → Bool) where
  abbrev pub head_kept : Text → Bool
  head_kept [] = true
  head_kept (c ∷ s) = not (cut c)

  abbrev pub last_kept : Text → Bool
  last_kept [] = true
  last_kept (c ∷ s) = elim s [ [] ↦ not (cut c) | d ∷ t ↦ last_kept s ]

  head_kept-trim_left : (s : Text) → head_kept (trim_left cut s) ≡ true
  head_kept-trim_left [] = refl
  head_kept-trim_left (c ∷ s) = ground (arith, head_kept-trim_left s)

  head_kept-trim_right : (s : Text) → head_kept s ≡ true → head_kept (trim_right cut s) ≡ true
  head_kept-trim_right [] h = refl
  head_kept-trim_right (c ∷ s) h = ground arith

  last_kept-trim_right : (s : Text) → last_kept (trim_right cut s) ≡ true
  last_kept-trim_right [] = refl
  last_kept-trim_right (c ∷ s) = ground (arith, last_kept-trim_right s)

  trim_left_fixed : (s : Text) → head_kept s ≡ true → trim_left cut s ≡ s
  trim_left_fixed [] h = refl
  trim_left_fixed (c ∷ s) h = ground arith

  trim_right_fixed : (s : Text) → last_kept s ≡ true → trim_right cut s ≡ s
  trim_right_fixed [] h = refl
  trim_right_fixed (c ∷ []) h = ground arith
  trim_right_fixed (c ∷ d ∷ t) h = ground (arith, trim_right_fixed (d ∷ t) h)

  pub head_kept-trim : (s : Text) → head_kept (trim cut s) ≡ true
  head_kept-trim s = head_kept-trim_right (trim_left cut s) (head_kept-trim_left s)

  pub last_kept-trim : (s : Text) → last_kept (trim cut s) ≡ true
  last_kept-trim s = last_kept-trim_right (trim_left cut s)

  pub trim_fixed : (s : Text) → head_kept s ≡ true → last_kept s ≡ true → trim cut s ≡ s
  trim_fixed s h k = ap (trim_right cut) (trim_left_fixed s h) ∙ trim_right_fixed s k

  pub trim_idem : (s : Text) → trim cut (trim cut s) ≡ trim cut s
  trim_idem s = trim_fixed (trim cut s) (head_kept-trim s) (last_kept-trim s)

  is_nil : Text → Bool
  is_nil [] = true
  is_nil (c ∷ s) = false

  trim_right-is_nil : (s : Text) → is_nil (trim_right cut s) ≡ all cut s
  unfolding is_nil
  trim_right-is_nil [] = refl
  trim_right-is_nil (c ∷ s) = ground (arith, trim_right-is_nil s)

  all-trim_left : (s : Text) → all cut (trim_left cut s) ≡ all cut s
  all-trim_left [] = refl
  all-trim_left (c ∷ s) = ground (arith, all-trim_left s)

  -- Trimming leaves nothing exactly when every element is one that it cuts.
  pub trim-eq-nil : (s : Text) → all cut s ≡ true → trim cut s ≡ []
  unfolding is_nil
  trim-eq-nil s h = ground (arith, trim_right-is_nil (trim_left cut s), all-trim_left s)

  pub all_of_trim : (s : Text) → trim cut s ≡ [] → all cut s ≡ true
  unfolding is_nil
  all_of_trim s h = ground (arith, trim_right-is_nil (trim_left cut s), all-trim_left s)

module _ {ℓ} (cut : ℕ → Bool) (P : ℕ → Type ℓ) where
  All-trim_left : (s : Text) → All P s → All P (trim_left cut s)
  All-trim_left [] h = tt
  All-trim_left (c ∷ s) h = elim (Bool-cases (cut c)) [
    | inl e ↦ rw e (All-trim_left s h.1)
    | inr e ↦ rw e h
  ]

  All-trim_right : (s : Text) → All P s → All P (trim_right cut s)
  All-trim_right [] h = tt
  All-trim_right (c ∷ s) h = step (trim_right cut s) (All-trim_right s h.1)
    where
      step :
          (t : Text)
          → All P t
          → All P (elim t [ [] ↦ if cut c then [] else c ∷ [] | d ∷ t ↦ c ∷ d ∷ t ])
      step [] k = elim (Bool-cases (cut c)) [ inl e ↦ rw e tt | inr e ↦ rw e (h.0, tt) ]
      step (d ∷ t) k = (h.0, k)

  pub All-trim : (s : Text) → All P s → All P (trim cut s)
  All-trim s h = All-trim_right (trim_left cut s) (All-trim_left s h)
