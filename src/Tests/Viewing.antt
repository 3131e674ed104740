-- ===== src/Tests/Viewing.antt =====
-- A search's results while a book arrives, is edited and goes.
use ebookfs.Common.{
  ◌≡◌, refl, Bool, true, List, [], ◌∷◌, map, none, Text, codes, pos, get, int_comparable,
}
use ebookfs.Float.{of_nat}
use ebookfs.Book.{Book}
use ebookfs.TextFmt.Query.{no_query}
use ebookfs.Views.Match.{matches}
use ebookfs.Views.Registry.{BookRegistry, new_registry}
use ebookfs.Views.InSync.{IsFollowed, is_listed}
use ebookfs.Views.InSync.Runs.{Event, viewed, ingested, searched, hear_all, hear_all-IsFollowed}

abbrev book_in : Text → Book
book_in status = record {
  location = record { epub_path = [] };
  bib = record {
    title = codes "Tehanu";
    sort_title = [];
    authors = [];
    series = none;
    language = codes "en";
    publisher = [];
    rights = [];
    pubdate = [];
    description = [];
    subjects = [];
    contributors = [];
    identifiers = [];
    cover_path = [];
    opf_size = pos 0;
    cover_size = pos 0;
  };
  meta = record {
    id = pos 6;
    date_added = 1;
    date_modified = 1;
    status = status;
    rating = of_nat 0;
    tags = [];
  };
  epub_size = pos 0;
}

-- status:unread, where nothing has capitals
abbrev unread : Book → Bool
unread = matches (λ t. t) (record no_query { status = codes "unread" ∷ [] })

abbrev arrival : List Event
arrival = viewed none ∷ ingested (book_in (codes "unread")) ∷ searched 0 unread ∷ []

new-IsFollowed : IsFollowed new_registry
new-IsFollowed = record { once = tt; followed = tt }

hear_all-IsFollowed_example : IsFollowed (hear_all new_registry arrival)
hear_all-IsFollowed_example = hear_all-IsFollowed new_registry arrival new-IsFollowed

-- the search's listing holds the book until an edit takes it out of the query
found_book : map (λ v. is_listed v (pos 6)) (hear_all new_registry arrival).views ≡ true ∷ []
unfolding ebookfs.Views.Registry.on_ingested ebookfs.Views.Registry.add_view
    ebookfs.Views.Registry.resync_view get ebookfs.Common.put ebookfs.Common.delete
    ebookfs.Views.BookList.results_add ebookfs.Views.BookList.results_reset matches
found_book = refl
