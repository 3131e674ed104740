-- ===== src/Book.antt =====
-- internal/book/book.go: the records of a book, its reading statuses, and the display of its authors.
pub mod Edits
pub mod Validation
pub mod Facts
use ebookfs.Common.{
  ℕ, ◌≡◌, Bool, true, false, not, ◌||◌, ◌&&◌, List, [], ◌∷◌, ◌++◌, map, Option, none, some,
  if◌then◌else◌, ◌==◌, keep, contains, Comparable, same, Dict, Text, codes, join, text_eq,
  text_comparable, ℤ, ltb, leb,
}
use ebookfs.FilePath
use ebookfs.Float.{Float64}

-- a time stamp, in seconds; zero is the zero `time.Time`
abbrev pub Time : Type 0
Time = ℕ

pub record Author : Type 0 where
  pub id : ℤ
  pub name : Text
  pub sort_name : Text

pub record SeriesRef : Type 0 where
  pub id : ℤ
  pub name : Text
  pub index : Text

abbrev pub unknown_author : Text
unknown_author = codes "Unknown"

abbrev pub status_unread : Text
status_unread = codes "unread"

abbrev pub status_reading : Text
status_reading = codes "reading"

abbrev pub status_read : Text
status_read = codes "read"

abbrev pub status_abandoned : Text
status_abandoned = codes "abandoned"

abbrev pub default_status : Text
default_status = status_unread

abbrev pub statuses : List Text
statuses = status_unread ∷ status_reading ∷ status_read ∷ status_abandoned ∷ []

unfoldable pub is_valid_status : Text → Bool
is_valid_status s = contains statuses s

abbrev pub author_sep : Text
author_sep = codes " & "

-- the names that are not empty
names_given : List Author → List Text
names_given [] = []
names_given (a ∷ as') = if text_eq a.name [] then names_given as' else a.name ∷ names_given as'

unfoldable pub join_authors : List Author → Text → Text
unfolding names_given
join_authors authors sep = elim (names_given authors) [
  | [] ↦ unknown_author
  | n ∷ ns ↦ join (n ∷ ns) sep
]

pub record Contributor : Type 0 where
  pub name : Text
  pub role : Text

pub record Bib : Type 0 where
  pub title : Text
  pub sort_title : Text
  pub authors : List Author
  pub series : Option SeriesRef
  pub language : Text
  pub publisher : Text
  pub rights : Text
  pub pubdate : Text
  pub description : Text
  pub subjects : List Text
  pub contributors : List Contributor
  pub identifiers : Dict Text Text
  pub cover_path : Text
  pub opf_size : ℤ
  pub cover_size : ℤ

pub record Location : Type 0 where
  pub epub_path : Text

unfoldable pub location_dir : Location → Text
location_dir l = FilePath.dir l.epub_path

unfoldable pub location_filename : Location → Text
location_filename l = FilePath.base l.epub_path

pub record Meta : Type 0 where
  pub id : ℤ
  pub date_added : Time
  pub date_modified : Time
  pub status : Text
  pub rating : Float64
  pub tags : List Text

pub record Book : Type 0 where
  pub location : Location
  pub bib : Bib
  pub meta : Meta
  pub epub_size : ℤ

-- The clock is read as `now`. A nil slice and an empty one are the same list here.
unfoldable pub new_book : Time → Bib → Meta → Location → Book
new_book now bib meta loc = record {
  location = loc;
  bib = bib;
  meta = record meta {
    date_added = if meta.date_added == 0 then now else meta.date_added;
    date_modified = if meta.date_modified == 0 then now else meta.date_modified;
    status = if text_eq meta.status [] then default_status else meta.status;
  };
  epub_size = ℤ.pos 0;
}

module _ {ℓ κ} {A : Type ℓ} {K : Type κ} ⦃e : Comparable K⦄ where
  -- the loop of `FirstOf`, with the keys seen so far
  unfoldable pub first_of_seen : (A → K) → List K → List A → List A
  first_of_seen key seen [] = []
  first_of_seen key seen (x ∷ xs) =
      let rest = first_of_seen key (key x ∷ seen) xs in
      if contains seen (key x) then rest else x ∷ rest

  unfoldable pub first_of : List A → (A → K) → List A
  unfolding first_of_seen
  first_of xs key = first_of_seen key [] xs

unfoldable pub has_series : Book → Bool
has_series b = elim b.bib.series [ none ↦ false | some s ↦ true ]

unfoldable pub series_name : Book → Text
series_name b = elim b.bib.series [ none ↦ [] | some s ↦ s.name ]
