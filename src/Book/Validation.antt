-- ===== src/Book/Validation.antt =====
-- The validators of internal/book/edits.go. A message is a value here, with one constructor for each
-- text that the code formats; `field_error` pairs it with its field.
pub mod Acceptable
pub mod Accepts
pub mod FirstRepeat
use ebookfs.Common.{
  ℕ, ◌+◌, ◌≡◌, Bool, true, false, not, ◌||◌, ◌&&◌, List, [], ◌∷◌, ◌++◌, map, Option, none, some,
  if◌then◌else◌, ◌==◌, all, contains, Comparable, Text, codes, text_eq, text_comparable, trim_space,
  split_on, is_digit, text_eq_iff, ◌↔◌, arith, get_elem?, length,
}
use ebookfs.Float.{Float64, is_nan, float_lt, of_nat}
use ebookfs.Naming
use ebookfs.Book.{Author, SeriesRef, Contributor, Book, is_valid_status}
use ebookfs.Book.Edits.{Edits}

pub data Message : Type 0 where
  invalid_status : Text → Message
  invalid_rating : Float64 → Message
  title_empty : Message
  author_required : Message
  author_unnamed : ℕ → Message
  author_duplicates : ℕ → Text → Message
  tag_empty : ℕ → Message
  tag_names_nothing : ℕ → Text → Message
  tag_duplicates : ℕ → Text → Message
  subject_duplicates : ℕ → Text → Message
  contributor_duplicates : ℕ → Text → Message
  contributor_duplicates_as : ℕ → Text → Text → Message
  language_empty : Message
  language_unrecognised : Text → Message
  cover_empty : Message
  no_cover : Message
  invalid_series_index : Text → Message
  index_while_clearing : Message
  no_series : Message

-- the names that `Validate` pairs with its validators
pub data Field : Type 0 where
  status rating title authors tags subjects contributors language cover series_index : Field

pub record FieldError : Type 0 where
  pub field : Field
  pub message : Message

-- `strings.TrimSpace(s) == ""`
abbrev pub is_blank : Text → Bool
is_blank s = text_eq (trim_space s) []

module _ {ℓ κ} {A : Type ℓ} {K : Type κ} ⦃e : Comparable K⦄ where
  -- the loop of `firstRepeat`, with the keys seen so far and the index
  first_repeat_from : (A → K) → List K → ℕ → List A → Option ℕ
  first_repeat_from key seen i [] = none
  first_repeat_from key seen i (x ∷ xs) =
      let rest = first_repeat_from key (key x ∷ seen) (i + 1) xs in
      if contains seen (key x) then some i else rest

  -- `none` is the code's -1
  unfoldable pub first_repeat : List A → (A → K) → Option ℕ
  unfolding first_repeat_from
  first_repeat xs key = first_repeat_from key [] 0 xs

abbrev contributor_eq : Contributor → Contributor → Bool
contributor_eq a b = text_eq a.name b.name && text_eq a.role b.role

pub contributor_eq_iff : (a b : Contributor) → (contributor_eq a b ≡ true) ↔ (a ≡ b)
contributor_eq_iff a b = ground (arith, text_eq_iff a.name b.name, text_eq_iff a.role b.role)

instance abbrev pub contributor_comparable : Comparable Contributor
contributor_comparable = record { beq = contributor_eq; beq_iff = contributor_eq_iff }

-- Each validator is a method of the edits and is given here the fields that it reads.
pub validate_status : Option Text → Option Message
validate_status none = none
validate_status (some s) = if is_valid_status s then none else some (invalid_status s)

pub validate_rating : Option Float64 → Option Message
validate_rating none = none
validate_rating (some r) =
    if is_nan r || (float_lt r (of_nat 0) || float_lt (of_nat 5) r)
    then some (invalid_rating r)
    else none

pub validate_title : Option Text → Option Message
validate_title none = none
validate_title (some t) = if is_blank t then some title_empty else none

-- the first position whose text is blank, counted from `i`
first_blank : ℕ → List Text → Option ℕ
first_blank i [] = none
first_blank i (x ∷ xs) = let rest = first_blank (i + 1) xs in if is_blank x then some i else rest

-- the name at an index that a loop found, trimmed
trimmed_at : List Text → ℕ → Text
trimmed_at xs i = elim (get_elem? xs i) [ none ↦ [] | some t ↦ trim_space t ]

-- what follows the loops over a field's texts: the first repeat, reported by `m`
repeated : (ℕ → Text → Message) → List Text → Option Message
unfolding trimmed_at
repeated m xs = elim (first_repeat xs trim_space) [
  | some i ↦ some (m (i + 1) (trimmed_at xs i))
  | none ↦ none
]

or_else : Option Message → Option Message → Option Message
or_else (some m) k = some m
or_else none k = k

unfoldable pub author_name : Author → Text
author_name a = a.name

pub validate_authors : Option (List Author) → Option Message
unfolding first_blank repeated or_else author_name
validate_authors none = none
validate_authors (some []) = some author_required
validate_authors (some (a ∷ as')) =
    let names = map author_name (a ∷ as') in
    or_else (elim (first_blank 0 names) [ some i ↦ some (author_unnamed (i + 1)) | none ↦ none ])
      (repeated author_duplicates names)

-- the loop of `validateTags` over the tags
check_tags : ℕ → List Text → Option Message
check_tags i [] = none
check_tags i (t ∷ ts) =
    let rest = check_tags (i + 1) ts in
    if is_blank t
    then some (tag_empty (i + 1))
    else if Naming.names_nothing t
    then some (tag_names_nothing (i + 1) t)
    else rest

pub validate_tags : Option (List Text) → Option Message
unfolding check_tags repeated or_else
validate_tags none = none
validate_tags (some ts) = or_else (check_tags 0 ts) (repeated tag_duplicates ts)

pub validate_subjects : Option (List Text) → Option Message
unfolding repeated
validate_subjects none = none
validate_subjects (some ss) = repeated subject_duplicates ss

duplicate_contributor : ℕ → Option Contributor → Option Message
duplicate_contributor i none = none
duplicate_contributor i (some c) =
    if text_eq c.role []
    then some (contributor_duplicates (i + 1) c.name)
    else some (contributor_duplicates_as (i + 1) c.name c.role)

pub validate_contributors : Option (List Contributor) → Option Message
unfolding duplicate_contributor
validate_contributors none = none
validate_contributors (some cs) = elim (first_repeat cs (λ c. c)) [
  | some i ↦ duplicate_contributor i (get_elem? cs i)
  | none ↦ none
]

-- `parses` says whether golang.org/x/text/language parses a tag.
pub validate_language : (Text → Bool) → Option Text → Option Message
validate_language parses none = none
validate_language parses (some v) =
    if is_blank v
    then some language_empty
    else if parses (trim_space v)
    then none
    else some (language_unrecognised v)

pub validate_cover : Option Text → Text → Option Message
validate_cover none cover_path = none
validate_cover (some []) cover_path = some cover_empty
validate_cover (some (c ∷ image)) cover_path = if text_eq cover_path [] then some no_cover else none

-- one or more digits
abbrev pub is_number : Text → Bool
is_number [] = false
is_number (c ∷ s) = is_digit c && all is_digit s

-- `^[0-9]+(\.[0-9]+)*$`: numbers separated by dots
unfoldable pub valid_series_index : Text → Bool
valid_series_index s = all is_number (split_on b'.' s)

-- the switch on the series that the edit sets and the one that the book has
series_missing : Option Text → Option SeriesRef → Option Message
series_missing none none = some no_series
series_missing none (some s) = none
series_missing (some []) s = some index_while_clearing
series_missing (some (c ∷ t)) s = none

pub validate_series_index : Option Text → Option Text → Option SeriesRef → Option Message
unfolding series_missing
validate_series_index none series current = none
validate_series_index (some i) series current =
    if valid_series_index i then series_missing series current else some (invalid_series_index i)

-- the errors that one validator adds
report : Field → Option Message → List FieldError
report f none = []
report f (some m) = record { field = f; message = m } ∷ []

-- the errors of the ten validators, in their order
validation_errors : (Text → Bool) → Edits → Book → List FieldError
unfolding report
validation_errors parses e b =
    report status (validate_status e.status)
    ++ (report rating (validate_rating e.rating)
        ++ (report title (validate_title e.title)
            ++ (report authors (validate_authors e.authors)
                ++ (report tags (validate_tags e.tags)
                    ++ (report subjects (validate_subjects e.subjects)
                        ++ (report contributors (validate_contributors e.contributors)
                            ++ (report language (validate_language parses e.language)
                                ++ (report cover (validate_cover e.cover b.bib.cover_path)
                                    ++ report series_index (
                                        validate_series_index e.series_index e.series
                                          b.bib.series)))))))))

unless_nil : List FieldError → Option (List FieldError)
unless_nil [] = none
unless_nil (x ∷ xs) = some (x ∷ xs)

-- `none` is the code's nil: no validator had anything to say.
unfoldable pub validate : (Text → Bool) → Edits → Book → Option (List FieldError)
unfolding unless_nil validation_errors validate_status validate_rating validate_title
    validate_authors validate_tags validate_subjects validate_contributors validate_language
    validate_cover validate_series_index
validate parses e b = unless_nil (validation_errors parses e b)
