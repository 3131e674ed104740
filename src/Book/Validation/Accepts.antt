-- ===== src/Book/Validation/Accepts.antt =====
-- Which edits `Validate` of internal/book/edits.go lets through.
use ebookfs.Common.{
  ◌≡◌, ◌↔◌, refl, Bool, List, [], ◌∷◌, ◌++◌, Option, none, some, arith, Text, text_comparable,
}
use ebookfs.Book.{Book}
use ebookfs.Book.Edits.{Edits}
use ebookfs.Book.Validation.{
  Message, contributor_comparable, validate_status, validate_rating, validate_title, Field,
  FieldError, validation_errors, validate_authors, validate_tags, validate_subjects,
  validate_contributors, validate_language, validate_cover, report, unless_nil, validate,
}
use ebookfs.Book.Validation.Acceptable.{
  IsAcceptable, iff_trans, validate_status-none, validate_rating-none, validate_title-none,
  validate_authors-none, validate_tags-none, validate_subjects-none, validate_contributors-none,
  validate_language-none, validate_cover-none, validate_series_index-none,
}

report-nil :
    (f : Field) (m : Option Message) (rest : List FieldError)
    → (report f m ++ rest ≡ []) ↔ ((m ≡ none) × (rest ≡ []))
unfolding report
report-nil f none rest = ground arith
report-nil f (some m) rest = ground arith

unless_nil-nil : (l : List FieldError) → (unless_nil l ≡ none) ↔ (l ≡ [])
unfolding unless_nil
unless_nil-nil [] = ground arith
unless_nil-nil (x ∷ xs) = ground arith

module _ (parses : Text → Bool) (e : Edits) (b : Book) where
  errors_of-IsAcceptable : validation_errors parses e b ≡ [] → IsAcceptable parses e b
  unfolding validation_errors
  errors_of-IsAcceptable h =
      let (h0, r0) = (report-nil Field.status (validate_status e.status) _).0 h in
      let (h1, r1) = (report-nil Field.rating (validate_rating e.rating) _).0 r0 in
      let (h2, r2) = (report-nil Field.title (validate_title e.title) _).0 r1 in
      let (h3, r3) = (report-nil Field.authors (validate_authors e.authors) _).0 r2 in
      let (h4, r4) = (report-nil Field.tags (validate_tags e.tags) _).0 r3 in
      let (h5, r5) = (report-nil Field.subjects (validate_subjects e.subjects) _).0 r4 in
      let (h6, r6) =
        (report-nil Field.contributors (validate_contributors e.contributors) _).0 r5 in
      let (h7, r7) = (report-nil Field.language (validate_language parses e.language) _).0 r6 in
      let (h8, r8) = (report-nil Field.cover (validate_cover e.cover b.bib.cover_path) _).0 r7 in
      record {
        status = (validate_status-none e.status).0 h0;
        rating = (validate_rating-none e.rating).0 h1;
        title = (validate_title-none e.title).0 h2;
        authors = (validate_authors-none e.authors).0 h3;
        tags = (validate_tags-none e.tags).0 h4;
        subjects = (validate_subjects-none e.subjects).0 h5;
        contributors = (validate_contributors-none e.contributors).0 h6;
        language = (validate_language-none parses e.language).0 h7;
        cover = (validate_cover-none e.cover b.bib.cover_path).0 h8;
        series_index =
            (validate_series_index-none e.series_index e.series b.bib.series).0
              (last_report _ _ r8);
      }
    where
      last_report : (f : Field) (m : Option Message) → report f m ≡ [] → m ≡ none
      last_report f none h = refl
      last_report f (some m) h = absurd (unfold report in cc)

  IsAcceptable-errors : IsAcceptable parses e b → validation_errors parses e b ≡ []
  unfolding validation_errors report
  IsAcceptable-errors a = rw (
    (validate_status-none e.status).1 a.status,
    (validate_rating-none e.rating).1 a.rating,
    (validate_title-none e.title).1 a.title,
    (validate_authors-none e.authors).1 a.authors,
    (validate_tags-none e.tags).1 a.tags,
    (validate_subjects-none e.subjects).1 a.subjects,
    (validate_contributors-none e.contributors).1 a.contributors,
    (validate_language-none parses e.language).1 a.language,
    (validate_cover-none e.cover b.bib.cover_path).1 a.cover,
    (validate_series_index-none e.series_index e.series b.bib.series).1 a.series_index,
  )

  -- `Validate` returns nil exactly for the edits that the book can take: a known status, a rating from 0
  -- to 5, a title and authors that are not blank, no author, tag or subject twice after trimming, no
  -- contributor twice in a role, tags that can name a directory, a language that parses, a cover only
  -- where the book has one, and a well-formed series position only where there is a series.
  pub validate-none_iff : (validate parses e b ≡ none) ↔ IsAcceptable parses e b
  unfolding validate
  validate-none_iff =
      iff_trans (unless_nil-nil (validation_errors parses e b))
        (errors_of-IsAcceptable, IsAcceptable-errors)
