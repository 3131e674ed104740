-- ===== src/Book/Validation/FirstRepeat.antt =====
-- `firstRepeat` of internal/book/edits.go against its description.
use ebookfs.Common.{
  ℕ, ◌+◌, ◌≡◌, ◌↔◌, refl, true, false, ◌||◌, List, [], ◌∷◌, map, none, some, arith, contains,
  Comparable, Bool-cases, inl, inr, get_elem?, take, suc,
}
use ebookfs.Book.Validation.{first_repeat_from, first_repeat}

module _ {ℓ} {K : Type ℓ} ⦃e : Comparable K⦄ where
  -- no key occurs twice
  abbrev pub Distinct : List K → Type 0
  Distinct [] = Unit
  Distinct (k ∷ ks) = (contains ks k ≡ false) × Distinct ks

  -- none of the keys is among those seen
  abbrev Fresh : List K → List K → Type 0
  Fresh seen [] = Unit
  Fresh seen (k ∷ ks) = (contains seen k ≡ false) × Fresh seen ks

  Fresh-cons :
      (k : K) (seen ks : List K) → Fresh (k ∷ seen) ks → (contains ks k ≡ false) × Fresh seen ks
  Fresh-cons k seen [] h = (refl, tt)
  Fresh-cons k seen (j ∷ ks) h =
      let (a, b) = Fresh-cons k seen ks h.1 in
      (ground (arith, e.beq_iff j k, e.beq_iff k j), (ground arith, b))

  cons-Fresh :
      (k : K) (seen ks : List K) → contains ks k ≡ false → Fresh seen ks → Fresh (k ∷ seen) ks
  cons-Fresh k seen [] h f = tt
  cons-Fresh k seen (j ∷ ks) h f =
      (ground (arith, e.beq_iff j k, e.beq_iff k j), cons-Fresh k seen ks (ground arith) f.1)

  Fresh-nil : (ks : List K) → Fresh [] ks
  Fresh-nil [] = tt
  Fresh-nil (k ∷ ks) = (refl, Fresh-nil ks)

module _ {ℓ κ} {A : Type ℓ} {K : Type κ} ⦃e : Comparable K⦄ (key : A → K) where
  no_repeat :
      (seen : List K) (i : ℕ) (xs : List A)
      → first_repeat_from key seen i xs ≡ none
      → Fresh seen (map key xs) × Distinct (map key xs)
  unfolding first_repeat_from
  no_repeat seen i [] h = (tt, tt)
  no_repeat seen i (x ∷ xs) h = elim (Bool-cases (contains seen (key x))) [
    | inl t ↦ absurd (ground arith)
    | inr f ↦
        let (a, b) = no_repeat (key x ∷ seen) (i + 1) xs (ground arith) in
        let (c, d) = Fresh-cons (key x) seen (map key xs) a in ((f, d), (c, b))
  ]

  repeat_none :
      (seen : List K) (i : ℕ) (xs : List A)
      → Fresh seen (map key xs)
      → Distinct (map key xs)
      → first_repeat_from key seen i xs ≡ none
  unfolding first_repeat_from
  repeat_none seen i [] f d = refl
  repeat_none seen i (x ∷ xs) f d =
      rw f.0
        (repeat_none (key x ∷ seen) (i + 1) xs (cons-Fresh (key x) seen (map key xs) d.0 f.1) d.1)

  -- `firstRepeat` finds nothing exactly when the keys are distinct.
  pub first_repeat-none : (xs : List A) → (first_repeat xs key ≡ none) ↔ Distinct (map key xs)
  unfolding first_repeat
  first_repeat-none xs =
      (λ h. (no_repeat [] 0 xs h).1, repeat_none [] 0 xs (Fresh-nil (map key xs)))

  -- the element found at `j`, in a list that begins at index `i`, with the keys seen before it
  repeat_at :
      (seen : List K) (i j : ℕ) (xs : List A)
      → first_repeat_from key seen i xs ≡ some j
      → (d : ℕ) × (x : A) × (j ≡ i + d)
        × (get_elem? xs d ≡ some x)
        × ((contains (map key (take d xs)) (key x) || contains seen (key x)) ≡ true)
  unfolding first_repeat_from
  repeat_at seen i j [] h = absurd (ground arith)
  repeat_at seen i j (x ∷ xs) h = elim (Bool-cases (contains seen (key x))) [
    | inl t ↦ (0, x, ground arith, refl, t)
    | inr f ↦
        let (d, y, at, found, earlier) = repeat_at (key x ∷ seen) (i + 1) j xs (ground arith) in
        (suc d, y, omega arith, found, ground arith)
  ]

  -- An index that `firstRepeat` returns is that of an element whose key an earlier element shares.
  pub first_repeat-some :
      (xs : List A) (i : ℕ)
      → first_repeat xs key ≡ some i
      → (x : A) × (get_elem? xs i ≡ some x) × (contains (map key (take i xs)) (key x) ≡ true)
  unfolding first_repeat
  first_repeat-some xs i h =
      let (d, x, at, found, earlier) = repeat_at [] 0 i xs h in
      let e : i ≡ d = omega arith in rw e (x, found, ground arith)
