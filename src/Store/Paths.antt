-- ===== src/Store/Paths.antt =====
-- pkg/library/internal/store/path.go: the names of a book's directory and file, and the id read back.
pub mod IdRoundTrip
use ebookfs.Common.{
  ℕ, zero, suc, ◌+◌, ◌-◌, ◌≡◌, Bool, true, false, ◌&&◌, ◌||◌, List, [], ◌∷◌, ◌++◌, Option, none,
  some, if◌then◌else◌, ◌==◌, length, take, drop, Text, codes, text_eq, ℤ, pos, format_int,
  parse_int, int_ltb,
}
use ebookfs.FilePath
use ebookfs.Naming
use ebookfs.Book.{Author, Location, join_authors, author_sep}

unfoldable pub epub_filename : List Author → Text → Text
epub_filename [] title = Naming.for_fat title ++ codes ".epub"
epub_filename (a ∷ as') title =
    Naming.for_fat title
    ++ (codes " - " ++ (Naming.for_fat (join_authors (a ∷ as') author_sep) ++ codes ".epub"))

unfoldable pub author_dir_name : List Author → Text
author_dir_name authors = Naming.path_safe (join_authors authors author_sep)

-- `fmt.Sprintf("%s (%d)", naming.PathSafe(title), id)`
abbrev pub book_dir_name : Text → ℤ → Text
book_dir_name title id = Naming.path_safe title ++ (codes " (" ++ (format_int id ++ codes ")"))

unfoldable pub canonical_dir : List Author → Text → ℤ → Text
unfolding author_dir_name
canonical_dir authors title id =
    FilePath.join_path (author_dir_name authors) (book_dir_name title id)

unfoldable pub layout : List Author → Text → ℤ → Location
unfolding canonical_dir epub_filename
layout authors title id = record {
  epub_path = FilePath.join_path (canonical_dir authors title id) (epub_filename authors title);
}

-- `strings.HasPrefix`
is_prefix : Text → Text → Bool
is_prefix [] s = true
is_prefix (c ∷ p) [] = false
is_prefix (c ∷ p) (d ∷ s) = (c == d) && is_prefix p s

-- `strings.LastIndex`
last_index : Text → Text → Option ℕ
unfolding is_prefix
last_index p [] = if is_prefix p [] then some 0 else none
last_index p (c ∷ s) = elim (last_index p s) [
  | none ↦ if is_prefix p (c ∷ s) then some 0 else none
  | some i ↦ some (suc i)
]

-- whether the text ends with this rune
ends_with : ℕ → Text → Bool
ends_with c [] = false
ends_with c (d ∷ s) = elim s [ [] ↦ d == c | e ∷ t ↦ ends_with c s ]

-- the id, if it is positive
positive : Option ℤ → Option ℤ
positive none = none
positive (some id) = if int_ltb (pos 0) id then some id else none

unfoldable pub id_from_path : Text → Option ℤ
unfolding last_index ends_with positive
id_from_path library_path =
    let base = FilePath.base library_path in
    if ends_with b')' base
    then elim (last_index (codes " (") base) [
      | none ↦ none
      | some open' ↦
          positive (parse_int (take (length base - 1 - (open' + 2)) (drop (open' + 2) base)))
    ]
    else none
