-- ===== src/FieldFiles.antt =====
-- internal/fs/book/fields.go: the metadata of a book as text files, read with `get` and written with
-- `edits`. The text of a float64 is a parameter, `strconv` with format 'f' and as few digits as needed.
pub mod Lists
pub mod Authors
use ebookfs.Common.{
  ℕ, Bool, true, false, not, List, [], ◌∷◌, ◌++◌, map, Option, none, some, if◌then◌else◌, ◌==◌,
  take, drop, Text, codes, text_eq, join, split_on, trim_space, fields_by,
}
use ebookfs.Float.{Float64}
use ebookfs.Book.{Author, Contributor, SeriesRef, Book, series_name, has_series}
use ebookfs.Book.Edits.{Edits, no_edits}
use ebookfs.TextFmt.{parse_author}

pub data Field : Type 0 where
  status rating tags title language description publisher rights subjects contributors authors
        series series_index :
      Field

-- the text of a float64, and its value
pub record FloatText : Type 0 where
  pub format : Float64 → Text
  pub parse : Text → Option Float64

abbrev pub newline : Text
newline = 10 ∷ []

-- `name | note`, or the name alone
abbrev pub print_pair : Text → Text → Text
print_pair name [] = name
print_pair name (c ∷ note) = name ++ (codes " | " ++ (c ∷ note))

unfoldable pub print_authors : List Author → Text
print_authors as' = join (map (λ (a : Author). print_pair a.name a.sort_name) as') newline

unfoldable pub print_contributors : List Contributor → Text
print_contributors cs = join (map (λ (c : Contributor). print_pair c.name c.role) cs) newline

series_index_of : Option SeriesRef → Text
series_index_of none = []
series_index_of (some s) = s.index

unfoldable pub get_field : FloatText → Field → Book → Text
unfolding series_index_of
get_field f status b = b.meta.status
get_field f rating b = f.format b.meta.rating
get_field f tags b = join b.meta.tags newline
get_field f title b = b.bib.title
get_field f language b = b.bib.language
get_field f description b = b.bib.description
get_field f publisher b = b.bib.publisher
get_field f rights b = b.bib.rights
get_field f subjects b = join b.bib.subjects newline
get_field f contributors b = print_contributors b.bib.contributors
get_field f authors b = print_authors b.bib.authors
get_field f series b = series_name b
get_field f series_index b = series_index_of b.bib.series

-- what stands before the separator " | ", and what stands after it, if it occurs
abbrev pub cut_pair : Text → Text × Text
cut_pair [] = ([], [])
cut_pair (c ∷ s) =
    let (name, note) = cut_pair s in
    if text_eq (codes " | ") (c ∷ take 2 s) then ([], drop 2 s) else (c ∷ name, note)

-- the contributor of one line, if it has a name
abbrev pub named_contributor : Text → Text → List Contributor → List Contributor
named_contributor [] role cs = cs
named_contributor (c ∷ name) role cs = record { name = c ∷ name; role = role } ∷ cs

abbrev pub parse_contributors : List Text → List Contributor
parse_contributors [] = []
parse_contributors (line ∷ lines) =
    let (name, role) = cut_pair line in
    named_contributor (trim_space name) (trim_space role) (parse_contributors lines)

abbrev pub onto_named : Author → List Author → List Author
onto_named a as' = if text_eq a.name [] then as' else a ∷ as'

abbrev pub parse_authors : List Text → List Author
parse_authors [] = []
parse_authors (line ∷ lines) = onto_named (parse_author line) (parse_authors lines)

abbrev pub set_authors : List Author → Option Edits
set_authors [] = none
set_authors (a ∷ as') = some (record no_edits { authors = some (a ∷ as') })

abbrev pub is_newline : ℕ → Bool
is_newline c = c == 10

-- `none` is an input that does not parse.
unfoldable pub edits_of : FloatText → Field → Text → Option Edits
edits_of f status s = some (record no_edits { status = some s })
edits_of f rating s = elim (f.parse s) [
  | none ↦ none
  | some r ↦ some (record no_edits { rating = some r })
]
edits_of f tags s = some (record no_edits { tags = some (fields_by is_newline s) })
edits_of f title s = some (record no_edits { title = some s })
edits_of f language s = some (record no_edits { language = some s })
edits_of f description s = some (record no_edits { description = some s })
edits_of f publisher s = some (record no_edits { publisher = some s })
edits_of f rights s = some (record no_edits { rights = some s })
edits_of f subjects s = some (record no_edits { subjects = some (fields_by is_newline s) })
edits_of f contributors s =
    some (record no_edits { contributors = some (parse_contributors (split_on 10 s)) })
edits_of f authors s = set_authors (parse_authors (split_on 10 s))
edits_of f series s = some (record no_edits { series = some s })
edits_of f series_index s = some (record no_edits { series_index = some s })
