-- ===== src/Views/InSync/Runs.antt =====
-- The views of internal/fs/registry/registry.go after any sequence of events.
use ebookfs.Common.{
  ℕ, zero, suc, ◌≡◌, refl, sym, ap, ◌∙◌, ◌⊎◌, Bool, true, false, ◌&&◌, ◌||◌, List, [], ◌∷◌, map,
  Option, none, some, arith, if◌then◌else◌, All, All-append, ℤ, int_eq, int_eq_iff, Dict, get, put,
  delete, get-delete, int_comparable, Bool-cases, inl, inr,
}
use ebookfs.Book.{Book}
use ebookfs.Views.BookList.{
  SearchResults, selects, results_add, results_remove, results_reset, new_book_list,
}
use ebookfs.Views.Registry.{
  BookRegistry, fill, add_view, change_at, resync_view, add_locked, on_ingested, commit, on_edited,
  remove_found, on_deleted,
}
use ebookfs.Views.InSync.{
  is_listed, is_selected, InSync, IsDict, IsFollowed, listed-add, selects-add, fresh-InSync,
  again-InSync, refile-InSync, remove-InSync,
}

delete-IsDict : (m : Dict ℤ Book) (id : ℤ) → IsDict m → IsDict (delete m id)
unfolding delete
delete-IsDict [] id h = tt
delete-IsDict ((j, b) ∷ m) id h = elim (Bool-cases (int_eq j id)) [
  | inl t ↦ rw t (delete-IsDict m id h.1)
  | inr f ↦ rw f (get-delete m id j ∙ ground (arith, h.0), delete-IsDict m id h.1)
]

put-IsDict : (m : Dict ℤ Book) (id : ℤ) (b : Book) → IsDict m → IsDict (put m id b)
unfolding put
put-IsDict m id b h =
    (get-delete m id id ∙ rw ((int_eq_iff id id).1 refl) refl, delete-IsDict m id h)

-- a view that the books are added to one after the other
fill-selected :
    (v : SearchResults) (m : Dict ℤ Book) (o : Option Book)
    → is_selected (fill v m) o ≡ is_selected v o
fill-selected v [] o = refl
fill-selected v ((id, b) ∷ m) none = fill-selected (results_add v id b) m none
fill-selected v ((id, b) ∷ m) (some c) =
    fill-selected (results_add v id b) m (some c) ∙ ap (λ f. selects f c) (selects-add v id b)

fill-listed :
    (v : SearchResults) (m : Dict ℤ Book) (j : ℤ)
    → IsDict m
    → is_listed (fill v m) j ≡ (is_listed v j || is_selected v (get m j))
unfolding get
fill-listed v [] j h = ground arith
fill-listed v ((id, b) ∷ m) j h =
    fill-listed (results_add v id b) m j h.1
    ∙ ap (λ x. x || is_selected (results_add v id b) (get m j)) (listed-add v id b j)
    ∙ by_key (Bool-cases (int_eq id j))
  where
    same_selection : (o : Option Book) → is_selected (results_add v id b) o ≡ is_selected v o
    same_selection none = refl
    same_selection (some c) = ap (λ f. selects f c) (selects-add v id b)

    by_key :
        (int_eq id j ≡ true) ⊎ (int_eq id j ≡ false)
        → ((is_listed v j || (int_eq id j && selects v.matches_fn b))
            || is_selected (results_add v id b) (get m j))
          ≡ (is_listed v j || is_selected v (if int_eq id j then some b else get m j))
    by_key (inl t) =
        let absent : get m j ≡ none = ap (get m) (sym ((int_eq_iff id j).0 t)) ∙ h.0 in
        rw (t, absent) (ground arith)
    by_key (inr f) = rw (f, same_selection (get m j)) (ground arith)

fill-InSync :
    (books : Dict ℤ Book) (v : SearchResults)
    → IsDict books
    → ((j : ℤ) → is_listed v j ≡ false)
    → InSync books (fill v books)
fill-InSync books v d h = record {
  follows = λ j.
      fill-listed v books j d
      ∙ ap (λ x. x || is_selected v (get books j)) (h j)
      ∙ sym (fill-selected v books (get books j));
}

reset_unlisted :
    (f : Book → Bool) (v : SearchResults) (j : ℤ) → is_listed (results_reset f v) j ≡ false
unfolding results_reset get
reset_unlisted f v j = refl

All-map {ℓ κ} :
    {A : Type ℓ} (P Q : A → Type κ) (f : A → A) (xs : List A)
    → ((x : A) → P x → Q (f x))
    → All P xs
    → All Q (map f xs)
All-map P Q f [] h p = tt
All-map P Q f (x ∷ xs) h p = (h x p.0, All-map P Q f xs h p.1)

change_at-All :
    (books : Dict ℤ Book) (f : SearchResults → SearchResults) (n : ℕ) (vs : List SearchResults)
    → ((v : SearchResults) → InSync books (f v))
    → All (InSync books) vs
    → All (InSync books) (change_at f n vs)
change_at-All books f n [] h p = tt
change_at-All books f zero (v ∷ vs) h p = (h v, p.1)
change_at-All books f (suc n) (v ∷ vs) h p = (p.0, change_at-All books f n vs h p.1)

-- a view that lists nothing yet
abbrev pub new_results : Option (Book → Bool) → SearchResults
new_results f = record { matches_fn = f; list = new_book_list }

new_unlisted : (f : Option (Book → Bool)) (j : ℤ) → is_listed (new_results f) j ≡ false
unfolding get
new_unlisted f j = refl

-- what the registry hears: books arrive, change and go, views are opened, and searches are run
pub data Event : Type 0 where
  ingested : Book → Event
  edited : Book → Event
  deleted : ℤ → Event
  viewed : Option (Book → Bool) → Event
  searched : ℕ → (Book → Bool) → Event

abbrev pub hear : BookRegistry → Event → BookRegistry
hear r (ingested b) = on_ingested r b
hear r (edited b) = on_edited r b
hear r (deleted id) = on_deleted r id
hear r (viewed f) = add_view r (new_results f)
hear r (searched n f) = resync_view r n f

abbrev pub hear_all : BookRegistry → List Event → BookRegistry
hear_all r [] = r
hear_all r (e ∷ es) = hear_all (hear r e) es

module _ (r : BookRegistry) (h : IsFollowed r) where
  add_locked-IsFollowed :
      (id : ℤ) (b : Book) (o : Option Book) → get r.books id ≡ o → IsFollowed (add_locked r id b o)
  add_locked-IsFollowed id b none e = record {
    once = put-IsDict r.books id b h.once;
    followed =
        All-map (InSync r.books) (InSync (put r.books id b)) (λ v. results_add v id b) r.views
          (λ v s. fresh-InSync r.books v id b e s) h.followed;
  }
  add_locked-IsFollowed id b (some old) e = record {
    once = h.once;
    followed =
        All-map (InSync r.books) (InSync r.books) (λ v. results_add v id old) r.views
          (λ v s. again-InSync r.books v id old e s) h.followed;
  }

  commit-IsFollowed : (id : ℤ) (b : Book) (o : Option Book) → IsFollowed (commit r id b o)
  commit-IsFollowed id b none = h
  commit-IsFollowed id b (some old) = record {
    once = put-IsDict r.books id b h.once;
    followed =
        All-map (InSync r.books) (InSync (put r.books id b))
          (λ v. results_add (results_remove v id) id b) r.views
          (λ v s. refile-InSync r.books v id b s) h.followed;
  }

  remove_found-IsFollowed : (id : ℤ) (o : Option Book) → IsFollowed (remove_found r id o)
  remove_found-IsFollowed id none = h
  remove_found-IsFollowed id (some old) = record {
    once = delete-IsDict r.books id h.once;
    followed =
        All-map (InSync r.books) (InSync (delete r.books id)) (λ v. results_remove v id) r.views
          (λ v s. remove-InSync r.books v id s) h.followed;
  }

  hear-IsFollowed : (e : Event) → IsFollowed (hear r e)
  unfolding on_ingested on_edited on_deleted add_view resync_view
  hear-IsFollowed (ingested b) = add_locked-IsFollowed b.meta.id b (get r.books b.meta.id) refl
  hear-IsFollowed (edited b) = commit-IsFollowed b.meta.id b (get r.books b.meta.id)
  hear-IsFollowed (deleted id) = remove_found-IsFollowed id (get r.books id)
  hear-IsFollowed (viewed f) = record {
    once = h.once;
    followed =
        All-append (InSync r.books) r.views (fill (new_results f) r.books ∷ []) h.followed
          (fill-InSync r.books (new_results f) h.once (new_unlisted f), tt);
  }
  hear-IsFollowed (searched n f) = record {
    once = h.once;
    followed =
        change_at-All r.books (λ v. fill (results_reset f v) r.books) n r.views
          (λ v. fill-InSync r.books (results_reset f v) h.once (reset_unlisted f v)) h.followed;
  }

pub hear_all-IsFollowed :
    (r : BookRegistry) (es : List Event) → IsFollowed r → IsFollowed (hear_all r es)
hear_all-IsFollowed r [] h = h
hear_all-IsFollowed r (e ∷ es) h = hear_all-IsFollowed (hear r e) es (hear-IsFollowed r h e)
