-- ===== src/Tests/Books.antt =====
-- internal/book at concrete books and edits.
use ebookfs.Common.{
  ℕ, ◌≡◌, ◌↔◌, refl, Bool, [], ◌∷◌, none, some, Text, codes, pos, nat_comparable, text_comparable,
}
use ebookfs.Float.{nan, of_nat, is_nan}
use ebookfs.Book.{Author, Bib, Book}
use ebookfs.Book.Edits.{Edits, no_edits}
use ebookfs.Book.Validation.{first_repeat, validate, rating, invalid_rating}
use ebookfs.Book.Validation.Acceptable.{IsAcceptable}
use ebookfs.Book.Validation.Accepts.{validate-none_iff}

abbrev writer : Author
writer = record {
  id = pos 1;
  name = codes "Ursula K. Le Guin";
  sort_name = codes "Le Guin, Ursula K.";
}

abbrev blank_bib : Bib
blank_bib = record {
  title = codes "The Dispossessed";
  sort_title = codes "Dispossessed, The";
  authors = writer ∷ [];
  series = none;
  language = codes "en";
  publisher = [];
  rights = [];
  pubdate = [];
  description = [];
  subjects = [];
  contributors = [];
  identifiers = [];
  cover_path = [];
  opf_size = pos 0;
  cover_size = pos 0;
}

abbrev dispossessed : Book
dispossessed = record {
  location = record {
    epub_path = codes "Ursula K. Le Guin/The Dispossessed (1)/The Dispossessed.epub";
  };
  bib = blank_bib;
  meta = record {
    id = pos 1;
    date_added = 100;
    date_modified = 100;
    status = codes "unread";
    rating = of_nat 0;
    tags = [];
  };
  epub_size = pos 0;
}

-- the language tags of this example
abbrev knows_english : Text → Bool
knows_english = text_comparable.beq (codes "en")

abbrev finished : Edits
finished = record no_edits {
  status = some (codes "read");
  rating = some (of_nat 5);
  tags = some (codes "utopia" ∷ codes "anarchism" ∷ []);
}

validate-none_iff_example :
    (validate knows_english finished dispossessed ≡ none)
    ↔ IsAcceptable knows_english finished dispossessed
validate-none_iff_example = validate-none_iff knows_english finished dispossessed

unrated :
    validate knows_english (record no_edits { rating = some nan }) dispossessed
    ≡ some (record { field = rating; message = invalid_rating nan } ∷ [])
unfolding validate is_nan
unrated = refl

repeats_at_two : first_repeat (3 ∷ 1 ∷ 3 ∷ []) (λ (n : ℕ). n) ≡ some 2
unfolding first_repeat
repeats_at_two = refl
