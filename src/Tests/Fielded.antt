-- ===== src/Tests/Fielded.antt =====
-- internal/fs/book/fields.go at one book.
use ebookfs.Common.{
  ℕ, ◌≡◌, ◌≢◌, refl, Bool, List, [], ◌∷◌, Option, none, some, arith, Text, codes, ℤ, pos, is_space,
}
use ebookfs.Float.{of_nat}
use ebookfs.Book.{Author, Book}
use ebookfs.Book.Edits.{no_edits}
use ebookfs.FieldFiles.{FloatText, Field, get_field, edits_of}
use ebookfs.FieldFiles.Lists.{edits_of-get_field}
use ebookfs.FieldFiles.Authors.{IsWritable, edits_of-print_authors}

abbrev editor : Author
editor = record {
  id = pos 0;
  name = codes "Ursula K. Le Guin";
  sort_name = codes "Le Guin, Ursula K.";
}

abbrev reader : Author
reader = record { id = pos 0; name = codes "Anon"; sort_name = [] }

abbrev two_authors : Book
two_authors = record {
  location = record { epub_path = [] };
  bib = record {
    title = codes "Tehanu";
    sort_title = [];
    authors = editor ∷ reader ∷ [];
    series = none;
    language = codes "en";
    publisher = [];
    rights = [];
    pubdate = [];
    description = [];
    subjects = codes "Dragons | dragons" ∷ [];
    contributors =
        record { name = codes "A"; role = codes "edt" }
        ∷ record { name = codes "B"; role = [] }
        ∷ [];
    identifiers = [];
    cover_path = [];
    opf_size = pos 0;
    cover_size = pos 0;
  };
  meta = record {
    id = pos 1;
    date_added = 1;
    date_modified = 1;
    status = codes "read";
    rating = of_nat 4;
    tags = codes "sf" ∷ codes "to keep" ∷ [];
  };
  epub_size = pos 0;
}

-- a text for float64 values that this book does not need
abbrev no_floats : FloatText
no_floats = record { format = λ r. []; parse = λ s. none }

edits_of-get_field_example :
    (edits_of no_floats Field.tags (get_field no_floats Field.tags two_authors)
      ≡ some (record no_edits { tags = some two_authors.meta.tags }))
    × (edits_of no_floats Field.subjects (get_field no_floats Field.subjects two_authors)
        ≡ some (record no_edits { subjects = some two_authors.bib.subjects }))
edits_of-get_field_example =
    edits_of-get_field no_floats two_authors ((cc, ground arith), ((cc, ground arith), tt))
      ((cc, ground arith), tt)

editor-IsWritable : IsWritable editor
unfolding is_space
editor-IsWritable = record {
  named = cc;
  name = record { starts = refl; ends = refl; one_line = ground arith; no_bar = ground arith };
  sort_name = record { starts = refl; ends = refl; one_line = ground arith; no_bar = ground arith };
  unnumbered = refl;
}

reader-IsWritable : IsWritable reader
unfolding is_space
reader-IsWritable = record {
  named = cc;
  name = record { starts = refl; ends = refl; one_line = ground arith; no_bar = ground arith };
  sort_name = record { starts = refl; ends = refl; one_line = tt; no_bar = tt };
  unnumbered = refl;
}

edits_of-print_authors_example :
    edits_of no_floats Field.authors (get_field no_floats Field.authors two_authors)
    ≡ some (record no_edits { authors = some (editor ∷ reader ∷ []) })
edits_of-print_authors_example =
    edits_of-print_authors no_floats two_authors editor (reader ∷ []) refl
      (editor-IsWritable, (reader-IsWritable, tt))

contributors_back :
    edits_of no_floats Field.contributors (get_field no_floats Field.contributors two_authors)
    ≡ some (record no_edits { contributors = some two_authors.bib.contributors })
unfolding get_field edits_of ebookfs.Common.join ebookfs.Common.split_on ebookfs.Common.trim_space
    ebookfs.FieldFiles.print_contributors
contributors_back = refl
