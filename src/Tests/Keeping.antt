-- ===== src/Tests/Keeping.antt =====
-- pkg/library at one book: it arrives, is edited, and an edit fails half way.
use ebookfs.Common.{
  ◌≡◌, refl, true, false, [], ◌∷◌, none, some, Text, codes, pos, get, int_comparable,
}
use ebookfs.Float.{Float64, of_nat, nan}
use ebookfs.Book.{Bib, Book}
use ebookfs.Book.Edits.{no_edits, normalized}
use ebookfs.Book.Validation.{validate, rating, invalid_rating}
use ebookfs.Library.Facade.{World, written, Outcome, done, failed, invalid, EpubCode, edit}
use ebookfs.Library.Ingest.{ingest, reindex}
use ebookfs.Library.Agreement.{IsKept}
use ebookfs.Library.Agreement.Runs.{Run, start, next, ingested, edited, Run-IsKept, reindex_heals}
use ebookfs.Library.Edited.{IsEdited, edit-IsEdited, edit_invalid}

abbrev bib_of : Text → Bib
bib_of title = record {
  title = title;
  sort_title = [];
  authors = record { id = pos 0; name = codes "Ursula K. Le Guin"; sort_name = [] } ∷ [];
  series = none;
  language = codes "en";
  publisher = [];
  rights = [];
  pubdate = [];
  description = [];
  subjects = [];
  contributors = [];
  identifiers = [];
  cover_path = [];
  opf_size = pos 0;
  cover_size = pos 0;
}

-- an epub whose text is its title, and whose rewrite changes nothing
abbrev plain_epub : EpubCode
plain_epub = record {
  parse = λ content. some (bib_of content);
  rewrite = λ b e. some b.bib;
  language_parses = λ v. true;
  round = λ r. r;
}

abbrev smooth_run : Outcome
smooth_run = record {
  op_id = 7;
  marks = true;
  files = written (pos 900);
  removes = none;
  commits = true;
  cancels = true;
}

-- the database fails where the index is written
abbrev broken_run : Outcome
broken_run = record smooth_run { commits = false }

abbrev blank_world : World
blank_world = record { rows = []; pending = []; sequence = 0; disk = []; strays = [] }

blank-IsKept : IsKept blank_world
unfolding get
blank-IsKept = record { agrees = λ h id. refl; unused = λ n h. refl }

abbrev one_book : World
one_book = (ingest plain_epub [] smooth_run 50 blank_world (codes "Tehanu")).1

abbrev broken_world : World
broken_world =
    (edit plain_epub broken_run 60 one_book (pos 1)
      (record no_edits { status = some (codes "read") })).1

two_steps : Run plain_epub blank_world broken_world
two_steps =
    next blank_world one_book broken_world
      (next blank_world blank_world one_book (start blank_world)
        (ingested smooth_run 50 blank_world [] (codes "Tehanu")))
      (edited broken_run 60 one_book (pos 1) (record no_edits { status = some (codes "read") }))

Run-IsKept_example : IsKept broken_world
Run-IsKept_example = Run-IsKept plain_epub blank_world broken_world two_steps blank-IsKept

edit-IsEdited_example : IsEdited one_book (pos 1) (pos 2) (
    edit plain_epub smooth_run 60 one_book
      (pos 1)
      (record no_edits { status = some (codes "read") }))
edit-IsEdited_example =
    edit-IsEdited plain_epub smooth_run 60 one_book (pos 1) (pos 2) refl
      (record no_edits { status = some (codes "read") })

abbrev kept_book : Book
kept_book = record {
  location = record {
    epub_path = codes "Ursula K. Le Guin/Tehanu (1)/Tehanu - Ursula K. Le Guin.epub";
  };
  bib = bib_of (codes "Tehanu");
  meta = record {
    id = pos 1;
    date_added = 50;
    date_modified = 50;
    status = codes "unread";
    rating = of_nat 0;
    tags = [];
  };
  epub_size = pos 900;
}

-- an index row whose book is missing from the disk, behind an operation that never finished
abbrev left_pending : World
left_pending = record {
  rows = (pos 1, kept_book) ∷ [];
  pending = 3 ∷ [];
  sequence = 1;
  disk = [];
  strays = [];
}

reindexed_ok : (reindex (λ id. true) 0 smooth_run left_pending).0 ≡ done tt
unfolding reindex
reindexed_ok = refl

reindex_heals_example :
    IsKept (reindex (λ id. true) 0 smooth_run left_pending).1
    × ((reindex (λ id. true) 0 smooth_run left_pending).1.pending ≡ [])
reindex_heals_example = reindex_heals (λ id. true) 0 smooth_run left_pending reindexed_ok

unrated_errors :
    validate plain_epub.language_parses
      (normalized plain_epub.round (record no_edits { rating = some nan }))
      kept_book
    ≡ some (record { field = rating; message = invalid_rating nan } ∷ [])
unfolding validate normalized ebookfs.Float.is_nan
unrated_errors = refl

found_row : get left_pending.rows (pos 1) ≡ some kept_book
unfolding get
found_row = refl

edit_invalid_example :
    edit plain_epub smooth_run 60 left_pending (pos 1) (record no_edits { rating = some nan }) ≡ (
      failed (invalid (record { field = rating; message = invalid_rating nan } ∷ [])),
      left_pending,
    )
edit_invalid_example =
    edit_invalid plain_epub smooth_run 60 left_pending (pos 1)
      (record no_edits { rating = some nan }) kept_book
      (record { field = rating; message = invalid_rating nan } ∷ []) found_row unrated_errors
