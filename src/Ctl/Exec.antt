-- ===== src/Ctl/Exec.antt =====
-- internal/fs/ctl/exec.go: the commands, each a query and an edit of the books that it selects.
pub mod Tags
pub mod Counts
use ebookfs.Common.{
  ℕ, suc, ◌+◌, Bool, true, false, not, ◌&&◌, ◌||◌, List, [], ◌∷◌, ◌++◌, map, Option, none, some,
  if◌then◌else◌, ◌==◌, contains, without, Text, codes, text_eq, ℤ, parse_int, text_comparable,
  int_comparable, Dict, get, put,
}
use ebookfs.Float.{Float64, float_eq}
use ebookfs.Book.{Author, Book, first_of}
use ebookfs.Book.Edits.{Edits, no_edits}
use ebookfs.TextFmt.{parse_author}
use ebookfs.TextFmt.Query.{Query, no_query}
use ebookfs.Ctl.Selection.{Selection, SelectionError, selected, refused, parse_selection}

-- what a command does to one book: nothing, where the book is already as asked, or an edit
abbrev pub EditFn : Type 0
EditFn = Book → Option Edits

abbrev pub set_tags : List Text → Option Edits
set_tags tags = some (record no_edits { tags = some tags })

unfoldable pub add_tag : Text → EditFn
add_tag tag b = if contains b.meta.tags tag then none else set_tags (b.meta.tags ++ tag ∷ [])

unfoldable pub remove_tag : Text → EditFn
remove_tag tag b = if contains b.meta.tags tag then set_tags (without b.meta.tags tag) else none

unfoldable pub set_status : Text → EditFn
set_status status b =
    if text_eq b.meta.status status then none else some (record no_edits { status = some status })

unfoldable pub set_rating : Float64 → EditFn
set_rating rating b =
    if float_eq b.meta.rating rating then none else some (record no_edits { rating = some rating })

-- the loop that overwrites the old tag in place
abbrev pub replace_tag : Text → Text → List Text → List Text
replace_tag old new tags = map (λ t. if text_eq t old then new else t) tags

abbrev pub renamed_tags : Text → Text → List Text → List Text
renamed_tags old new tags = if contains tags new then without tags old else replace_tag old new tags

unfoldable pub rename_tag : Text → Text → EditFn
rename_tag old new b = set_tags (renamed_tags old new b.meta.tags)

abbrev pub is_author : Text → Author → Bool
is_author old a = text_eq a.name old || text_eq a.sort_name old

abbrev replace_author : Text → Author → List Author → List Author
replace_author old new authors = map (λ a. if is_author old a then new else a) authors

abbrev any_author : Text → List Author → Bool
any_author old [] = false
any_author old (a ∷ as') = is_author old a || any_author old as'

unfoldable pub dedupe_authors : List Author → List Author
dedupe_authors authors = first_of authors (λ (a : Author). a.name)

unfoldable pub rename_author : Text → Author → EditFn
unfolding dedupe_authors
rename_author old new b =
    if any_author old b.bib.authors
    then some
        (record no_edits { authors = some (dedupe_authors (replace_author old new b.bib.authors)) })
    else none

unfoldable pub rename_series : Text → EditFn
rename_series new b = some (record no_edits { series = some new })

abbrev pub nothing {ℓ} : {A : Type ℓ} → List A → Bool
nothing [] = true
nothing (x ∷ xs) = false

unfoldable pub ids_only : Query → Bool
ids_only q =
    not (nothing q.ids)
    && nothing q.authors
    && nothing q.tags
    && nothing q.series
    && nothing q.status
    && nothing q.titles

-- the library, as the commands use it; `fails` is an error's text
pub record Shelves {ℓ} (S : Type ℓ) : Type ℓ where
  pub search : S → Query → Option (List Book)
  pub edit : S → ℤ → Edits → Option Text × S

-- one line of a result's errors
pub data BookError : Type 0 where
  not_found : ℤ → BookError
  edit_failed : ℤ → Text → BookError

-- the counts that `formatResult` prints, with the verb
pub record Tally : Type 0 where
  pub affected : ℕ
  pub skipped : ℕ
  pub errors : List BookError

abbrev pub no_tally : Tally
no_tally = record { affected = 0; skipped = 0; errors = [] }

-- a later book with the same id replaces an earlier one
abbrev pub by_id : Dict ℤ Book → List Book → Dict ℤ Book
by_id m [] = m
by_id m (b ∷ bs) = by_id (put m b.meta.id b) bs

abbrev pub to_visit : Query → List Book → List ℤ
to_visit q books = if ids_only q then q.ids else map (λ (b : Book). b.meta.id) books

abbrev pub count_edit : Tally → ℤ → Option Text → Tally
count_edit t id none = record t { affected = t.affected + 1 }
count_edit t id (some e) = record t { errors = t.errors ++ edit_failed id e ∷ [] }

module _ {ℓ} {S : Type ℓ} (lib : Shelves S) (edit_fn : EditFn) where
  abbrev pub apply_edit : S → Tally → ℤ → Option Edits → Tally × S
  apply_edit s t id none = (record t { skipped = t.skipped + 1 }, s)
  apply_edit s t id (some e) = let (err, s') = lib.edit s id e in (count_edit t id err, s')

  abbrev pub visit_book : S → Tally → ℤ → Option Book → Tally × S
  visit_book s t id none = (record t { errors = t.errors ++ not_found id ∷ [] }, s)
  visit_book s t id (some b) = apply_edit s t id (edit_fn b)

  -- an id that was seen is passed over
  abbrev pub visit_id : Dict ℤ Book → List ℤ → S → Tally → ℤ → Tally × S
  visit_id books seen s t id = if contains seen id then (t, s) else visit_book s t id (get books id)

  -- the loop over the ids, with those seen
  abbrev pub visit_all : Dict ℤ Book → List ℤ → S → Tally → List ℤ → Tally × S
  visit_all books seen s t [] = (t, s)
  visit_all books seen s t (id ∷ ids) =
      let (t', s') = visit_id books seen s t id in visit_all books (id ∷ seen) s' t' ids

  abbrev pub visit_found : S → Query → Option (List Book) → Option Tally × S
  visit_found s q none = (none, s)
  visit_found s q (some books) =
      let (t, s') = visit_all (by_id [] books) [] s no_tally (to_visit q books) in (some t, s')

  -- `none` is a search that failed.
  unfoldable pub edit_selection : S → Query → Option Tally × S
  edit_selection s q = visit_found s q (lib.search s q)

pub data Outcome : Type 0 where
  bad_selection : SelectionError → Outcome
  search_failed : Outcome
  tallied : Text → Tally → Outcome

abbrev pub outcome_of : Text → Option Tally → Outcome
outcome_of op none = search_failed
outcome_of op (some t) = tallied op t

module _ {ℓ} {S : Type ℓ} (lib : Shelves S) where
  abbrev pub edit_selected : Text → EditFn → S → Selection → Outcome × S
  edit_selected op edit_fn s (refused e) = (bad_selection e, s)
  edit_selected op edit_fn s (selected q) =
      let (t, s') = edit_selection lib edit_fn s q in (outcome_of op t, s')

  unfoldable pub edit_spec : Text → Text → EditFn → S → Outcome × S
  edit_spec op spec edit_fn s = edit_selected op edit_fn s (parse_selection spec)

-- whether a result opens with "error": every book that was addressed failed
unfoldable pub is_error : Tally → Bool
is_error t = t.affected == 0 && not (nothing t.errors)
