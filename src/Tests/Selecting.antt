-- ===== src/Tests/Selecting.antt =====
-- internal/fs/ctl commands on concrete books.
use ebookfs.Common.{
  ℕ, ◌+◌, ◌≡◌, refl, Bool, true, false, not, ◌&&◌, ◌||◌, List, [], ◌∷◌, map, Option, none, some,
  arith, contains, length, Text, codes, text_eq, ℤ, pos, text_comparable, int_comparable,
  int64_bound,
}
use ebookfs.Float.{of_nat}
use ebookfs.Book.{Book, first_of}
use ebookfs.TextFmt.Query.{Query, no_query}
use ebookfs.Ctl.Selection.{Selection, selected, refused, empty_spec, bad_id, parse_selection}
use ebookfs.Ctl.Selection.Printed.{print_ids, parse_selection-print}
use ebookfs.Ctl.Exec.{Shelves, add_tag, rename_tag, to_visit, edit_selection}
use ebookfs.Ctl.Exec.Tags.{tags_after, rename_tag-contains}
use ebookfs.Ctl.Exec.Counts.{total_of, edit_selection-total}

abbrev tagged : Book
tagged = record {
  location = record { epub_path = codes "A/T (4)/T - A.epub" };
  bib = record {
    title = codes "T";
    sort_title = [];
    authors = [];
    series = none;
    language = codes "en";
    publisher = [];
    rights = [];
    pubdate = [];
    description = [];
    subjects = [];
    contributors = [];
    identifiers = [];
    cover_path = [];
    opf_size = pos 0;
    cover_size = pos 0;
  };
  meta = record {
    id = pos 4;
    date_added = 1;
    date_modified = 1;
    status = codes "read";
    rating = of_nat 3;
    tags = codes "sf" ∷ codes "own" ∷ [];
  };
  epub_size = pos 0;
}

rename_tag-contains_example :
    contains (tags_after tagged (rename_tag (codes "sf") (codes "scifi") tagged)) (codes "scifi")
    ≡ (not (text_eq (codes "sf") (codes "scifi"))
        && (contains tagged.meta.tags (codes "scifi")
            || (text_eq (codes "scifi") (codes "scifi") && contains tagged.meta.tags (codes "sf"))))
rename_tag-contains_example =
    rename_tag-contains (codes "sf") (codes "scifi") tagged (codes "scifi")

renamed_to_itself :
    tags_after tagged (rename_tag (codes "sf") (codes "sf") tagged) ≡ codes "own" ∷ []
unfolding rename_tag
renamed_to_itself = refl

parse_selection-print_example :
    parse_selection (print_ids 4 (7 ∷ []))
    ≡ selected (record no_query { ids = map pos (4 ∷ 7 ∷ []) })
parse_selection-print_example = parse_selection-print 4 (7 ∷ []) (omega arith, (omega arith, tt))

no_spec : parse_selection (codes "  ") ≡ refused empty_spec
unfolding parse_selection ebookfs.Common.trim_space
no_spec = refl

misspelt : parse_selection (codes "4, x") ≡ refused (bad_id (codes "x") (codes "4, x"))
unfolding parse_selection ebookfs.Common.trim_space ebookfs.Ctl.Selection.parse_id_list
    ebookfs.Common.parse_int ebookfs.Common.fields_by
misspelt = refl

-- a library of one book, in which every edit succeeds
abbrev one_shelf : Shelves ℕ
one_shelf = record { search = λ s q. some (tagged ∷ []); edit = λ s id e. (none, s + 1) }

abbrev twice_and_missing : Query
twice_and_missing = record no_query { ids = pos 4 ∷ pos 9 ∷ pos 4 ∷ [] }

edit_selection-total_example :
    total_of (edit_selection one_shelf (add_tag (codes "new")) 0 twice_and_missing).0
    ≡ some (length (first_of (to_visit twice_and_missing (tagged ∷ [])) (λ id. id)))
edit_selection-total_example =
    edit_selection-total one_shelf (add_tag (codes "new")) 0 twice_and_missing
