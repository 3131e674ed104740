-- ===== src/Book/Edits.antt =====
-- internal/book/edits.go: a partial update of a book, its normal form, and how it is applied.
use ebookfs.Common.{Bool, true, false, ◌||◌, List, Option, none, some, Text}
use ebookfs.Float.{Float64}
use ebookfs.Book.{Author, Contributor}

pub record Edits : Type 0 where
  pub title : Option Text
  pub sort_title : Option Text
  pub description : Option Text
  pub language : Option Text
  pub publisher : Option Text
  pub rights : Option Text
  pub authors : Option (List Author)
  pub series : Option Text
  pub series_index : Option Text
  pub subjects : Option (List Text)
  pub contributors : Option (List Contributor)
  pub cover : Option Text
  pub status : Option Text
  pub rating : Option Float64
  pub tags : Option (List Text)

abbrev pub no_edits : Edits
no_edits = record {
  title = none;
  sort_title = none;
  description = none;
  language = none;
  publisher = none;
  rights = none;
  authors = none;
  series = none;
  series_index = none;
  subjects = none;
  contributors = none;
  cover = none;
  status = none;
  rating = none;
  tags = none;
}

-- `round` is `math.Round(x*100) / 100` in float64
unfoldable pub normalized : (Float64 → Float64) → Edits → Edits
normalized round e = record e { rating = elim e.rating [ none ↦ none | some r ↦ some (round r) ] }

abbrev given {ℓ} : {A : Type ℓ} → Option A → Bool
given none = false
given (some a) = true

unfoldable pub has_bib_edits : Edits → Bool
has_bib_edits e =
    given e.title
    || given e.sort_title
    || given e.description
    || given e.language
    || given e.publisher
    || given e.rights
    || given e.authors
    || given e.series
    || given e.series_index
    || given e.subjects
    || given e.contributors

unfoldable pub has_cover_edit : Edits → Bool
has_cover_edit e = given e.cover
