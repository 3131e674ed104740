-- ===== src/Library/Ingest.antt =====
-- pkg/library/ingest.go and the rebuild of pkg/library/reindex.go.
use ebookfs.Common.{
  ℕ, ◌+◌, Bool, not, ◌&&◌, ◌||◌, List, [], ◌∷◌, map, Option, none, some, if◌then◌else◌, ltb, Text,
  text_eq, ℤ, pos, negsuc, any, all, contains, Dict, text_comparable, int_comparable,
  nat_comparable,
}
use ebookfs.FilePath
use ebookfs.Float.{of_nat}
use ebookfs.Book.{Time, Author, Bib, Meta, Book, Location, location_dir, location_filename}
use ebookfs.Store.Paths.{layout, author_dir_name, epub_filename}
use ebookfs.Library.Facade.{
  World, Written, written, torn, Outcome, Reply, done, failed, EpubCode, mark_pending, cancel,
  op_put, put_files, book_from_bib, index_failed, store_failed, unparsable, duplicate,
  duplicate_on_disk,
}

abbrev pub author_names : List Author → List Text
author_names authors = map (λ (a : Author). a.name) authors

-- the same set of names
abbrev same_names : List Text → List Text → Bool
same_names xs ys = all (contains ys) xs && all (contains xs) ys

-- `Index.Exists`: a row with this title and this set of authors
abbrev pub exists : Dict ℤ Book → Text → List Text → Bool
exists rows title names =
    any
      (λ (r : ℤ × Book).
        text_eq r.1.bib.title title && same_names (author_names r.1.bib.authors) names)
      rows

-- whether an epub lies in a directory of this author directory, under this name
abbrev lies_at : Text → Text → Location → Bool
lies_at author_dir filename l =
    text_eq (FilePath.dir (location_dir l)) author_dir && text_eq (location_filename l) filename

-- `Store.PathTaken`
abbrev pub path_taken : World → List Author → Text → Bool
path_taken w authors title =
    let author_dir = author_dir_name authors in
    let filename = epub_filename authors title in
    any (λ (r : ℤ × Book). lies_at author_dir filename r.1.location) w.disk
    || any (lies_at author_dir filename) w.strays

abbrev pub new_meta : ℤ → Time → Meta
new_meta id now = record {
  id = id;
  date_added = now;
  date_modified = now;
  status = [];
  rating = of_nat 0;
  tags = [];
}

-- the clean-up of a failed ingest: what was written is deleted, and then there is nothing to heal
abbrev pub clean_up : Outcome → World → ℤ → Option (Option Book) → World
clean_up o w id (some left) = put_files w id left
clean_up o w id none = cancel o (put_files w id none)

abbrev pub finish_ingest : Outcome → World → ℤ → Reply Book × World → Reply Book × World
finish_ingest o w id (done b, w') = (done b, w')
finish_ingest o w id (failed f, w') = (failed f, clean_up o w' id o.removes)

abbrev pub place : Outcome → Time → World → ℤ → Bib → Written → Reply Book × World
place o now w id bib (torn left) = (failed store_failed, put_files w id left)
place o now w id bib (written size) =
    let b = book_from_bib now bib (new_meta id now) (layout bib.authors bib.title id) size in
    op_put o id b (put_files w id (some b))

abbrev pub ingest_marked : Outcome → Time → World → ℤ → Bib → Option World → Reply Book × World
ingest_marked o now w id bib none = (failed index_failed, w)
ingest_marked o now w id bib (some marked) =
    finish_ingest o marked id (place o now marked id bib o.files)

-- `NextID` inserts into the sequence, which advances whatever happens afterwards.
abbrev pub ingest_new : Outcome → Time → World → Bib → Reply Book × World
ingest_new o now w bib =
    let id = ℤ.pos (w.sequence + 1) in
    let numbered = record w { sequence = w.sequence + 1 } in
    ingest_marked o now numbered id bib (mark_pending o numbered)

abbrev pub ingest_bib : Outcome → Time → World → Option Bib → Reply Book × World
ingest_bib o now w none = (failed unparsable, w)
ingest_bib o now w (some bib) =
    if exists w.rows bib.title (author_names bib.authors)
    then (failed (duplicate bib.title), w)
    else if path_taken w bib.authors bib.title
    then (failed (duplicate_on_disk bib.title), w)
    else ingest_new o now w bib

-- the hooks amend what was parsed, in the order of their registration, or stop the ingest
abbrev pub pre_commit : List (Bib → Option Bib) → Bib → Option Bib
pre_commit [] bib = some bib
pre_commit (h ∷ hooks) bib = elim (h bib) [ none ↦ none | some bib' ↦ pre_commit hooks bib' ]

abbrev pub hooked : List (Bib → Option Bib) → Option Bib → Option Bib
hooked hooks none = none
hooked hooks (some bib) = pre_commit hooks bib

-- The hooks before parsing have chosen the text that is parsed.
unfoldable pub ingest :
    EpubCode → List (Bib → Option Bib) → Outcome → Time → World → Text → Reply Book × World
ingest epub hooks o now w content = ingest_bib o now w (hooked hooks (epub.parse content))

-- a book moves to its canonical place, unless the move fails
abbrev pub moved : (ℤ → Bool) → ℤ → Book → Book
moved moves id b =
    if moves id then record b { location = layout b.bib.authors b.bib.title b.meta.id } else b

abbrev pub move_to_canonical : (ℤ → Bool) → Dict ℤ Book → Dict ℤ Book
move_to_canonical moves [] = []
move_to_canonical moves ((id, b) ∷ books) = (id, moved moves id b) ∷ move_to_canonical moves books

abbrev pub larger : ℕ → ℕ → ℕ
larger a b = if ltb a b then b else a

-- the positive ids that a scan reserves
abbrev pub reserve_id : ℕ → ℤ → ℕ
reserve_id m (pos n) = larger m n
reserve_id m (negsuc n) = m

abbrev pub reserve_ids : ℕ → Dict ℤ Book → ℕ
reserve_ids m [] = m
reserve_ids m ((id, b) ∷ books) = reserve_id (reserve_ids m books) id

-- `Rebuild` after the moves: the rows are those of the disk, in one transaction that clears every pending
-- operation, if it commits. `reserved` is the largest id of a directory that cannot be read.
unfoldable pub reindex : (ℤ → Bool) → ℕ → Outcome → World → Reply (Unit {0}) × World
reindex moves reserved o w =
    let books = move_to_canonical moves w.disk in
    if not (o.marks && not (contains w.pending o.op_id))
    then (failed index_failed, record w { disk = books })
    else if o.commits
    then (
      done tt,
      record w {
        rows = books;
        disk = books;
        pending = [];
        sequence = larger w.sequence (reserve_ids reserved books);
      },
    )
    else (failed index_failed, record w { disk = books; pending = o.op_id ∷ w.pending })
