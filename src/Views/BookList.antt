-- ===== src/Views/BookList.antt =====
-- internal/fs/views/booklist.go and the results of internal/fs/views/search_handle.go: a listing of books by
-- title, and one that keeps to a predicate. A directory's children are a map from names to books.
use ebookfs.Common.{
  Bool, false, not, [], ◌∷◌, ◌++◌, Option, none, some, if◌then◌else◌, Text, codes, ℤ, int_eq,
  format_int, Dict, get, put, delete, text_comparable, int_comparable,
}
use ebookfs.Naming
use ebookfs.Book.{Book}

pub record BookListDir : Type 0 where
  pub children : Dict Text ℤ
  pub entries : Dict ℤ Text

abbrev pub new_book_list : BookListDir
new_book_list = record { children = []; entries = [] }

abbrev pub disambiguated_name : ℤ → Book → Text
disambiguated_name id b =
    Naming.path_safe b.bib.title ++ (codes " (" ++ (format_int id ++ codes ")"))

-- whether another book has the name
abbrev pub is_taken : Option ℤ → ℤ → Bool
is_taken none id = false
is_taken (some other) id = not (int_eq other id)

-- the name under which a book is added
abbrev pub entry_name : BookListDir → ℤ → Book → Text
entry_name d id b =
    if is_taken (get d.children (Naming.path_safe b.bib.title)) id
    then disambiguated_name id b
    else Naming.path_safe b.bib.title

abbrev pub list_add : BookListDir → ℤ → Book → BookListDir
list_add d id b = record {
  children = put d.children (entry_name d id b) id;
  entries = put d.entries id (entry_name d id b);
}

abbrev pub remove_named : BookListDir → ℤ → Option Text → BookListDir
remove_named d id none = d
remove_named d id (some name) = record {
  children = delete d.children name;
  entries = delete d.entries id;
}

abbrev pub list_remove : BookListDir → ℤ → BookListDir
list_remove d id = remove_named d id (get d.entries id)

-- every entry's child goes, and then every entry is gone
abbrev pub cleared_children : Dict Text ℤ → Dict ℤ Text → Dict Text ℤ
cleared_children children [] = children
cleared_children children ((id, name) ∷ entries) = cleared_children (delete children name) entries

abbrev pub list_clear : BookListDir → BookListDir
list_clear d = record { children = cleared_children d.children d.entries; entries = [] }

-- a handle's results: no predicate before its first query
pub record SearchResults : Type 0 where
  pub matches_fn : Option (Book → Bool)
  pub list : BookListDir

abbrev pub selects : Option (Book → Bool) → Book → Bool
selects none b = false
selects (some f) b = f b

unfoldable pub results_add : SearchResults → ℤ → Book → SearchResults
results_add v id b = if selects v.matches_fn b then record v { list = list_add v.list id b } else v

unfoldable pub results_remove : SearchResults → ℤ → SearchResults
results_remove v id = record v { list = list_remove v.list id }

-- the reset that a new query runs
unfoldable pub results_reset : (Book → Bool) → SearchResults → SearchResults
results_reset f v = record { matches_fn = some f; list = list_clear v.list }
