-- ===== src/Book/Facts.antt =====
-- What internal/book/book.go promises of `FirstOf` and of the names it joins.
use ebookfs.Common.{
  ◌≡◌, refl, ◌&&◌, not, List, [], ◌∷◌, map, arith, contains, Comparable, Bool-cases, inl, inr,
}
use ebookfs.Book.{first_of_seen, first_of}
use ebookfs.Book.Validation.FirstRepeat.{Distinct}

module _ {ℓ κ} {A : Type ℓ} {K : Type κ} ⦃e : Comparable K⦄ (key : A → K) where
  -- a key is kept if it is in the list and was not seen before
  contains-first_of_seen :
      (seen : List K) (xs : List A) (k : K)
      → contains (map key (first_of_seen key seen xs)) k
        ≡ (contains (map key xs) k && not (contains seen k))
  unfolding first_of_seen
  contains-first_of_seen seen [] k = refl
  contains-first_of_seen seen (x ∷ xs) k =
      ground (arith, contains-first_of_seen (key x ∷ seen) xs k, e.beq_iff (key x) k)

  first_of_seen-Distinct :
      (seen : List K) (xs : List A) → Distinct (map key (first_of_seen key seen xs))
  unfolding first_of_seen
  first_of_seen-Distinct seen [] = tt
  first_of_seen-Distinct seen (x ∷ xs) = elim (Bool-cases (contains seen (key x))) [
    | inl t ↦ rw t (first_of_seen-Distinct (key x ∷ seen) xs)
    | inr f ↦ rw f (
      ground (arith, contains-first_of_seen (key x ∷ seen) xs (key x), e.beq_iff (key x) (key x)),
      first_of_seen-Distinct (key x ∷ seen) xs,
    )
  ]

  -- `FirstOf` keeps exactly the keys of its argument, and each of them once.
  pub first_of_keys :
      (xs : List A) (k : K)
      → Distinct (map key (first_of xs key))
        × (contains (map key (first_of xs key)) k ≡ contains (map key xs) k)
  unfolding first_of
  first_of_keys xs k =
      (first_of_seen-Distinct [] xs, ground (arith, contains-first_of_seen [] xs k))
