-- ===== src/Views/Registry.antt =====
-- internal/fs/registry/registry.go: the books that are served, and the views that follow them. A book's
-- directory keeps its identity, which is its id, while its snapshot is replaced; each method holds the
-- registry's lock and is one step. The views here are the results of searches.
use ebookfs.Common.{
  ℕ, zero, suc, Bool, List, [], ◌∷◌, ◌++◌, map, Option, none, some, ℤ, Dict, get, put, delete,
  int_comparable,
}
use ebookfs.Book.{Book}
use ebookfs.Views.BookList.{SearchResults, results_add, results_remove, results_reset}

pub record BookRegistry : Type 0 where
  pub books : Dict ℤ Book
  pub views : List SearchResults

abbrev pub new_registry : BookRegistry
new_registry = record { books = []; views = [] }

-- the books are added to a view one after the other
abbrev pub fill : SearchResults → Dict ℤ Book → SearchResults
fill v [] = v
fill v ((id, b) ∷ books) = fill (results_add v id b) books

unfoldable pub add_view : BookRegistry → SearchResults → BookRegistry
add_view r v = record r { views = r.views ++ fill v r.books ∷ [] }

abbrev pub change_at : (SearchResults → SearchResults) → ℕ → List SearchResults → List SearchResults
change_at f n [] = []
change_at f zero (v ∷ vs) = f v ∷ vs
change_at f (suc n) (v ∷ vs) = v ∷ change_at f n vs

-- `executeSearch` on one of the views: a new predicate, and the books filed afresh
unfoldable pub resync_view : BookRegistry → ℕ → (Book → Bool) → BookRegistry
resync_view r n f = record r { views = change_at (λ v. fill (results_reset f v) r.books) n r.views }

-- `dirLocked` keeps the directory of a book that is registered, with the snapshot it has.
abbrev pub add_locked : BookRegistry → ℤ → Book → Option Book → BookRegistry
add_locked r id b (some old) = record r { views = map (λ v. results_add v id old) r.views }
add_locked r id b none = record {
  books = put r.books id b;
  views = map (λ v. results_add v id b) r.views;
}

unfoldable pub on_ingested : BookRegistry → Book → BookRegistry
on_ingested r b = add_locked r b.meta.id b (get r.books b.meta.id)

abbrev pub load : BookRegistry → List Book → BookRegistry
load r [] = r
load r (b ∷ bs) = load (on_ingested r b) bs

abbrev pub commit : BookRegistry → ℤ → Book → Option Book → BookRegistry
commit r id updated none = r
commit r id updated (some old) = record {
  books = put r.books id updated;
  views = map (λ v. results_add (results_remove v id) id updated) r.views;
}

unfoldable pub on_edited : BookRegistry → Book → BookRegistry
on_edited r b = commit r b.meta.id b (get r.books b.meta.id)

abbrev pub remove_found : BookRegistry → ℤ → Option Book → BookRegistry
remove_found r id none = r
remove_found r id (some old) = record {
  books = delete r.books id;
  views = map (λ v. results_remove v id) r.views;
}

unfoldable pub on_deleted : BookRegistry → ℤ → BookRegistry
on_deleted r id = remove_found r id (get r.books id)
