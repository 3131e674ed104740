-- ===== src/Book/Validation/Acceptable.antt =====
-- An edit that a book can take, apart from the code of internal/book/edits.go, and each field's validator.
use ebookfs.Common.{
  ℕ, ◌+◌, ◌≡◌, ◌≢◌, ◌↔◌, ◌⊎◌, refl, Bool, true, false, List, [], ◌∷◌, map, Option, none, some,
  arith, if◌then◌else◌, codes, contains, Text, text_eq_iff, text_comparable, trim_space, inl, inr,
  Option-cases, All,
}
use ebookfs.Float.{Float64, float_le, of_nat, float_between_iff, of_nat_number}
use ebookfs.Naming
use ebookfs.Book.{
  Author, SeriesRef, Contributor, Book, is_valid_status, status_unread, status_reading, status_read,
  status_abandoned,
}
use ebookfs.Book.Edits.{Edits}
use ebookfs.Book.Validation.FirstRepeat.{Distinct, first_repeat-none, first_repeat-some}
use ebookfs.Book.Validation.{
  duplicate_contributor, Message, is_blank, first_repeat, contributor_comparable, validate_status,
  validate_rating, validate_title, first_blank, repeated, author_name, validate_authors, check_tags,
  validate_tags, validate_subjects, validate_contributors, validate_language, validate_cover,
  valid_series_index, validate_series_index,
}

-- what an edit sets, if it sets the field at all
abbrev pub Given {ℓ κ} : {A : Type ℓ} → (A → Type κ) → Option A → Type κ
Given P none = Unit
Given P (some a) = P a

abbrev pub IsNamed : Text → Type 0
IsNamed t = trim_space t ≢ []

abbrev pub IsStatus : Text → Type 0
IsStatus s =
    (s ≡ codes "unread") ⊎ ((s ≡ codes "reading") ⊎ ((s ≡ codes "read") ⊎ (s ≡ codes "abandoned")))

abbrev pub IsRating : Float64 → Type 0
IsRating r = (float_le (of_nat 0) r ≡ true) × (float_le r (of_nat 5) ≡ true)

abbrev pub AreAuthors : List Author → Type 0
AreAuthors as' =
    (as' ≢ []) × All IsNamed (map author_name as') × Distinct (map trim_space (map author_name as'))

abbrev pub AreTags : List Text → Type 0
AreTags ts =
    All (λ t. IsNamed t × (Naming.names_nothing t ≡ false)) ts × Distinct (map trim_space ts)

-- a position is set only where the book has a series, or is being given one
abbrev pub HasSeries : Option Text → Option SeriesRef → Type 0
HasSeries none current = current ≢ none
HasSeries (some s) current = s ≢ []

-- the edits that a book can take; `parses` is the language tag parser
pub record IsAcceptable (parses : Text → Bool) (e : Edits) (b : Book) : Type 0 where
  pub status : Given IsStatus e.status
  pub rating : Given IsRating e.rating
  pub title : Given IsNamed e.title
  pub authors : Given AreAuthors e.authors
  pub tags : Given AreTags e.tags
  pub subjects : Given (λ ss. Distinct (map trim_space ss)) e.subjects
  pub contributors : Given (λ cs. Distinct (map (λ (c : Contributor). c) cs)) e.contributors
  pub language : Given (λ v. IsNamed v × (parses (trim_space v) ≡ true)) e.language
  pub cover : Given (λ image. (image ≢ []) × (b.bib.cover_path ≢ [])) e.cover
  pub series_index :
      Given (λ i. (valid_series_index i ≡ true) × HasSeries e.series b.bib.series) e.series_index

blank_iff : (t : Text) → (is_blank t ≡ false) ↔ IsNamed t
blank_iff t = ground (arith, text_eq_iff (trim_space t) [])

pub iff_trans {ℓ κ ν} : {A : Type ℓ} {B : Type κ} {C : Type ν} → A ↔ B → B ↔ C → A ↔ C
iff_trans f g = (λ a. g.0 (f.0 a), λ c. f.1 (g.1 c))

four_texts :
    (a b c d s : Text)
    → (contains (a ∷ b ∷ c ∷ d ∷ []) s ≡ true) ↔ ((s ≡ a) ⊎ ((s ≡ b) ⊎ ((s ≡ c) ⊎ (s ≡ d))))
four_texts a b c d s =
    ground (arith, text_eq_iff a s, text_eq_iff b s, text_eq_iff c s, text_eq_iff d s)

is_valid_status_iff : (s : Text) → (is_valid_status s ≡ true) ↔ IsStatus s
unfolding is_valid_status
is_valid_status_iff s = four_texts status_unread status_reading status_read status_abandoned s

if_none : (b : Bool) (m : Message) → ((if b then none else some m) ≡ none) ↔ (b ≡ true)
if_none b m = ground arith

pub validate_status-none : (o : Option Text) → (validate_status o ≡ none) ↔ Given IsStatus o
unfolding validate_status
validate_status-none none = ground arith
validate_status-none (some s) =
    iff_trans (if_none (is_valid_status s) (Message.invalid_status s)) (is_valid_status_iff s)

pub validate_rating-none : (o : Option Float64) → (validate_rating o ≡ none) ↔ Given IsRating o
unfolding validate_rating
validate_rating-none none = ground arith
validate_rating-none (some r) =
    ground (arith, float_between_iff r (of_nat 0) (of_nat 5) (of_nat_number 0) (of_nat_number 5))

pub validate_title-none : (o : Option Text) → (validate_title o ≡ none) ↔ Given IsNamed o
unfolding validate_title
validate_title-none none = ground arith
validate_title-none (some t) = ground (arith, blank_iff t)

first_blank-none : (i : ℕ) (xs : List Text) → (first_blank i xs ≡ none) ↔ All IsNamed xs
unfolding first_blank
first_blank-none i [] = ground arith
first_blank-none i (x ∷ xs) = ground (arith, blank_iff x, first_blank-none (i + 1) xs)

repeated-none :
    (m : ℕ → Text → Message) (xs : List Text)
    → (repeated m xs ≡ none) ↔ Distinct (map trim_space xs)
unfolding repeated
repeated-none m xs = ground (arith, first_repeat-none trim_space xs)

pub validate_authors-none :
    (o : Option (List Author)) → (validate_authors o ≡ none) ↔ Given AreAuthors o
unfolding validate_authors
validate_authors-none none = ground arith
validate_authors-none (some []) = ground arith
validate_authors-none (some (a ∷ as')) = ground (
  arith,
  first_blank-none 0 (map author_name (a ∷ as')),
  repeated-none Message.author_duplicates (map author_name (a ∷ as')),
)

check_tags-none :
    (i : ℕ) (ts : List Text)
    → (check_tags i ts ≡ none) ↔ All (λ t. IsNamed t × (Naming.names_nothing t ≡ false)) ts
unfolding check_tags
check_tags-none i [] = ground arith
check_tags-none i (t ∷ ts) = ground (arith, blank_iff t, check_tags-none (i + 1) ts)

pub validate_tags-none : (o : Option (List Text)) → (validate_tags o ≡ none) ↔ Given AreTags o
unfolding validate_tags
validate_tags-none none = ground arith
validate_tags-none (some ts) =
    ground (arith, check_tags-none 0 ts, repeated-none Message.tag_duplicates ts)

pub validate_subjects-none :
    (o : Option (List Text))
    → (validate_subjects o ≡ none) ↔ Given (λ ss. Distinct (map trim_space ss)) o
unfolding validate_subjects
validate_subjects-none none = ground arith
validate_subjects-none (some ss) = repeated-none Message.subject_duplicates ss

duplicate_contributor-some : (i : ℕ) (c : Contributor) → duplicate_contributor i (some c) ≢ none
unfolding duplicate_contributor
duplicate_contributor-some i c = ground arith

pub validate_contributors-none :
    (o : Option (List Contributor))
    → (validate_contributors o ≡ none) ↔ Given (λ cs. Distinct (map (λ (c : Contributor). c) cs)) o
unfolding validate_contributors
validate_contributors-none none = ground arith
validate_contributors-none (some cs) =
    elim (Option-cases (first_repeat cs (λ (c : Contributor). c))) [
      | inl e ↦
          rw (e, validate_contributors)
            (λ _. (first_repeat-none (λ (c : Contributor). c) cs).0 e, λ _. refl)
      | inr (i, e) ↦
          let (c, at, _) = first_repeat-some (λ (c : Contributor). c) cs i e in
          rw (e, validate_contributors, at)
            (
              λ h. absurd (duplicate_contributor-some i c h),
              λ d. absurd (ground (arith, (first_repeat-none (λ (c : Contributor). c) cs).1 d)),
            )
    ]

pub validate_language-none :
    (parses : Text → Bool) (o : Option Text)
    → (validate_language parses o ≡ none)
      ↔ Given (λ v. IsNamed v × (parses (trim_space v) ≡ true)) o
unfolding validate_language
validate_language-none parses none = ground arith
validate_language-none parses (some v) = ground (arith, blank_iff v)

pub validate_cover-none :
    (o : Option Text) (path : Text)
    → (validate_cover o path ≡ none) ↔ Given (λ image. (image ≢ []) × (path ≢ [])) o
unfolding validate_cover
validate_cover-none none path = ground arith
validate_cover-none (some []) path = ground arith
validate_cover-none (some (c ∷ image)) path = ground (arith, text_eq_iff path [])

pub validate_series_index-none :
    (o series : Option Text) (current : Option SeriesRef)
    → (validate_series_index o series current ≡ none)
      ↔ Given (λ i. (valid_series_index i ≡ true) × HasSeries series current) o
unfolding validate_series_index
validate_series_index-none none series current = ground arith
validate_series_index-none (some i) none none = ground arith
validate_series_index-none (some i) none (some s) = ground arith
validate_series_index-none (some i) (some []) current = ground arith
validate_series_index-none (some i) (some (c ∷ t)) current = ground arith
