-- ===== src/Views/InSync.antt =====
-- A view of internal/fs lists exactly the registered books that its predicate selects.
pub mod Runs
use ebookfs.Common.{
  ℕ, zero, suc, ◌≡◌, refl, sym, ap, ◌∙◌, subst, ◌⊎◌, Bool, true, false, not, ◌&&◌, ◌||◌, List, [],
  ◌∷◌, ◌++◌, map, Option, none, some, arith, if◌then◌else◌, All, All-append, ℤ, int_eq, int_eq_iff,
  Dict, get, put, delete, get-put, get-delete, text_comparable, int_comparable, Bool-cases,
  Option-cases, inl, inr, Text,
}
use ebookfs.Book.{Book}
use ebookfs.Views.BookList.{
  SearchResults, selects, results_add, results_remove, results_reset, list_add, list_remove,
  remove_named, entry_name,
}
use ebookfs.Views.Registry.{
  BookRegistry, fill, add_view, change_at, resync_view, add_locked, on_ingested, commit, on_edited,
  remove_found, on_deleted,
}

abbrev pub is_some {ℓ} : {A : Type ℓ} → Option A → Bool
is_some none = false
is_some (some a) = true

-- whether a book is in the listing
abbrev pub is_listed : SearchResults → ℤ → Bool
is_listed v id = is_some (get v.list.entries id)

abbrev pub is_selected : SearchResults → Option Book → Bool
is_selected v none = false
is_selected v (some b) = selects v.matches_fn b

pub record InSync (books : Dict ℤ Book) (v : SearchResults) : Type 0 where
  pub follows : (id : ℤ) → is_listed v id ≡ is_selected v (get books id)

-- every id is bound once
abbrev pub IsDict : Dict ℤ Book → Type 0
IsDict [] = Unit
IsDict ((id, b) ∷ m) = (get m id ≡ none) × IsDict m

pub record IsFollowed (r : BookRegistry) : Type 0 where
  pub once : IsDict r.books
  pub followed : All (InSync r.books) r.views

listed-add :
    (v : SearchResults) (id : ℤ) (b : Book) (j : ℤ)
    → is_listed (results_add v id b) j ≡ (is_listed v j || (int_eq id j && selects v.matches_fn b))
unfolding results_add
listed-add v id b j = elim (Bool-cases (selects v.matches_fn b)) [
  | inl h ↦ rw h (ap is_some (get-put v.list.entries id (entry_name v.list id b) j) ∙ ground arith)
  | inr h ↦ rw h (ground arith)
]

selects-add :
    (v : SearchResults) (id : ℤ) (b : Book) → (results_add v id b).matches_fn ≡ v.matches_fn
unfolding results_add
selects-add v id b = elim (Bool-cases (selects v.matches_fn b)) [
  | inl h ↦ rw h refl
  | inr h ↦ rw h refl
]

listed-remove :
    (v : SearchResults) (id j : ℤ)
    → is_listed (results_remove v id) j ≡ (not (int_eq id j) && is_listed v j)
unfolding results_remove
listed-remove v id j = elim (Option-cases (get v.list.entries id)) [
  | inl h ↦ rw h (elim (Bool-cases (int_eq id j)) [
    | inl t ↦ rw t (ap is_some (ap (get v.list.entries) (sym ((int_eq_iff id j).0 t)) ∙ h))
    | inr f ↦ rw f refl
  ])
  | inr (name, h) ↦ rw h (ap is_some (get-delete v.list.entries id j) ∙ ground arith)
]

-- a book is added to a view that does not list it
add-InSync :
    (books : Dict ℤ Book) (v : SearchResults) (id : ℤ) (b : Book)
    → ((j : ℤ) → is_listed v j ≡ (not (int_eq id j) && is_selected v (get books j)))
    → InSync (put books id b) (results_add v id b)
add-InSync books v id b h = record {
  follows = λ j.
      listed-add v id b j
      ∙ selected j (Bool-cases (int_eq id j)) (h j)
      ∙ sym (ap (is_selected (results_add v id b)) (get-put books id b j));
}
  where
    same_selection : (o : Option Book) → is_selected (results_add v id b) o ≡ is_selected v o
    same_selection none = refl
    same_selection (some c) = ap (λ f. selects f c) (selects-add v id b)

    selected :
        (j : ℤ)
        → (int_eq id j ≡ true) ⊎ (int_eq id j ≡ false)
        → is_listed v j ≡ (not (int_eq id j) && is_selected v (get books j))
        → (is_listed v j || (int_eq id j && selects v.matches_fn b))
          ≡ is_selected (results_add v id b) (if int_eq id j then some b else get books j)
    selected j (inl t) k = rw t (ground (arith, same_selection (some b)))
    selected j (inr f) k = rw f (ground (arith, same_selection (get books j)))

-- the old snapshot's entry goes before the new one is filed
refile-InSync :
    (books : Dict ℤ Book) (v : SearchResults) (id : ℤ) (b : Book)
    → InSync books v
    → InSync (put books id b) (results_add (results_remove v id) id b)
refile-InSync books v id b s = add-InSync books (results_remove v id) id b (λ j.
    listed-remove v id j
    ∙ ap (λ x. not (int_eq id j) && x) (s.follows j)
    ∙ unchanged j (get books j))
  where
    unchanged :
        (j : ℤ) (o : Option Book)
        → (not (int_eq id j) && is_selected v o)
          ≡ (not (int_eq id j) && is_selected (results_remove v id) o)
    unchanged j none = refl
    unchanged j (some c) = unfold results_remove in refl

remove-InSync :
    (books : Dict ℤ Book) (v : SearchResults) (id : ℤ)
    → InSync books v
    → InSync (delete books id) (results_remove v id)
remove-InSync books v id s = record {
  follows = λ j.
      listed-remove v id j
      ∙ ap (λ x. not (int_eq id j) && x) (s.follows j)
      ∙ gone j (get books j)
      ∙ sym (ap (is_selected (results_remove v id)) (get-delete books id j));
}
  where
    gone :
        (j : ℤ) (o : Option Book)
        → (not (int_eq id j) && is_selected v o)
          ≡ is_selected (results_remove v id) (if int_eq id j then none else o)
    gone j none = ground arith
    gone j (some c) = unfold results_remove in ground arith

fresh-InSync :
    (books : Dict ℤ Book) (v : SearchResults) (id : ℤ) (b : Book)
    → get books id ≡ none
    → InSync books v
    → InSync (put books id b) (results_add v id b)
fresh-InSync books v id b free s =
    add-InSync books v id b (λ j. s.follows j ∙ unlisted j (Bool-cases (int_eq id j)))
  where
    unlisted :
        (j : ℤ)
        → (int_eq id j ≡ true) ⊎ (int_eq id j ≡ false)
        → is_selected v (get books j) ≡ (not (int_eq id j) && is_selected v (get books j))
    unlisted j (inl t) =
        rw t (ap (is_selected v) (ap (get books) (sym ((int_eq_iff id j).0 t)) ∙ free))
    unlisted j (inr f) = rw f refl

-- the same snapshot added again
again-InSync :
    (books : Dict ℤ Book) (v : SearchResults) (id : ℤ) (old : Book)
    → get books id ≡ some old
    → InSync books v
    → InSync books (results_add v id old)
again-InSync books v id old found s = record {
  follows = λ j. listed-add v id old j ∙ kept j (Bool-cases (int_eq id j)) (s.follows j);
}
  where
    same_selection : (o : Option Book) → is_selected (results_add v id old) o ≡ is_selected v o
    same_selection none = refl
    same_selection (some c) = ap (λ f. selects f c) (selects-add v id old)

    kept :
        (j : ℤ)
        → (int_eq id j ≡ true) ⊎ (int_eq id j ≡ false)
        → is_listed v j ≡ is_selected v (get books j)
        → (is_listed v j || (int_eq id j && selects v.matches_fn old))
          ≡ is_selected (results_add v id old) (get books j)
    kept j (inl t) k =
        let here : get books j ≡ some old = ap (get books) (sym ((int_eq_iff id j).0 t)) ∙ found in
        rw (t, here) (ground (arith, same_selection (some old), k ∙ ap (is_selected v) here))
    kept j (inr f) k = rw f (ground (arith, same_selection (get books j)))
