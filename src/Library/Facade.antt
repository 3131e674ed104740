-- ===== src/Library/Facade.antt =====
-- pkg/library/library.go and pkg/library/internal/index/op.go: `Edit` and `Delete`. Each runs under the
-- book's lock, so it is one step; hooks are called where a book has changed and do not touch this state.
use ebookfs.Common.{
  ℕ, Bool, not, ◌&&◌, List, ◌∷◌, Option, none, some, if◌then◌else◌, Text, ℤ, Dict, get, put, delete,
  contains, without, nat_comparable, int_comparable,
}
use ebookfs.Float.{Float64}
use ebookfs.Book.{Time, Bib, Meta, Book, Location, new_book}
use ebookfs.Book.Edits.{Edits, normalized}
use ebookfs.Book.Validation.{FieldError, validate}
use ebookfs.Store.Paths.{layout}

-- `disk` is the book that a scan makes of each directory it can read, by its id; `strays` are the epubs
-- of directories that it cannot read. `rows` is the index, `pending` its pending operations, and
-- `sequence` the last id that it gave out.
pub record World : Type 0 where
  pub rows : Dict ℤ Book
  pub pending : List ℕ
  pub sequence : ℕ
  pub disk : Dict ℤ Book
  pub strays : List Location

-- how a write of a book's files ends: with the size of its epub, or with an error that leaves in the
-- book's place whatever a scan then makes of it
pub data Written : Type 0 where
  written : ℤ → Written
  torn : Option Book → Written

-- what the database and the file system answer during one operation: the operation's random id, whether
-- its pending row is inserted, how the files are written, whether they are removed, and whether the
-- index write and the clearing of a cancelled operation commit
pub record Outcome : Type 0 where
  pub op_id : ℕ
  pub marks : Bool
  pub files : Written
  pub removes : Option (Option Book)
  pub commits : Bool
  pub cancels : Bool

pub data Failure : Type 0 where
  book_not_found : ℤ → Failure
  invalid : List FieldError → Failure
  index_failed : Failure
  rewrite_failed : Failure
  store_failed : Failure
  unparsable : Failure
  duplicate : Text → Failure
  duplicate_on_disk : Text → Failure

pub data Reply {ℓ} (A : Type ℓ) : Type ℓ where
  done : A → Reply A
  failed : Failure → Reply A

-- what the epub code does: it parses an epub, and rewrites a book's into one with other metadata
pub record EpubCode : Type 0 where
  pub parse : Text → Option Bib
  pub rewrite : Book → Edits → Option Bib
  pub language_parses : Text → Bool
  pub round : Float64 → Float64

-- `MarkPending`: the row is inserted, under an id that no other row has; none for an error
abbrev pub mark_pending : Outcome → World → Option World
mark_pending o w =
    if o.marks && not (contains w.pending o.op_id)
    then some (record w { pending = o.op_id ∷ w.pending })
    else none

abbrev pub clear_pending : Outcome → World → World
clear_pending o w = record w { pending = without w.pending o.op_id }

-- `Cancel`
abbrev pub cancel : Outcome → World → World
cancel o w = if o.cancels then clear_pending o w else w

-- `Op.Put` and `Op.Delete` clear the pending row in the transaction that they write in.
abbrev pub op_put : Outcome → ℤ → Book → World → Reply Book × World
op_put o id b w =
    if o.commits
    then (done b, clear_pending o (record w { rows = put w.rows id b }))
    else (failed index_failed, w)

abbrev pub op_delete : Outcome → ℤ → World → Reply (Unit {0}) × World
op_delete o id w =
    if o.commits
    then (done tt, clear_pending o (record w { rows = delete w.rows id }))
    else (failed index_failed, w)

-- the files of one book become something else, or nothing
abbrev pub put_files : World → ℤ → Option Book → World
put_files w id none = record w { disk = delete w.disk id }
put_files w id (some b) = record w { disk = put w.disk id b }

abbrev given {ℓ} : {A : Type ℓ} → Option A → A → A
given none a = a
given (some b) a = b

abbrev pub apply_meta : Time → Meta → Edits → Meta
apply_meta now m e = record m {
  status = given e.status m.status;
  rating = given e.rating m.rating;
  tags = given e.tags m.tags;
  date_modified = now;
}

abbrev pub book_from_bib : Time → Bib → Meta → Location → ℤ → Book
book_from_bib now bib meta loc size = record (new_book now bib meta loc) { epub_size = size }

module _ (epub : EpubCode) where
  -- from the return of `store.Update` on; `meta` is the edited one and `bib` that of the new epub
  abbrev pub update_index :
      Outcome → Time → World → ℤ → Bib → Meta → Location → Written → Reply Book × World
  update_index o now w id bib meta loc (torn left) = (failed store_failed, put_files w id left)
  update_index o now w id bib meta loc (written size) =
      let updated = book_from_bib now bib meta loc size in
      op_put o id updated (put_files w id (some updated))

  -- from the return of `epub.Rewrite` on; a failed rewrite leaves the epub as it was
  abbrev pub update_files :
      Outcome → Time → World → ℤ → Book → Edits → Option Bib → Reply Book × World
  update_files o now w id b e none = (failed rewrite_failed, cancel o w)
  update_files o now w id b e (some bib) =
      let meta = apply_meta now b.meta e in
      update_index o now w id bib meta (layout bib.authors bib.title meta.id) o.files

  abbrev pub edit_marked :
      Outcome → Time → World → ℤ → Book → Edits → Option World → Reply Book × World
  edit_marked o now w id b e none = (failed index_failed, w)
  edit_marked o now w id b e (some marked) = update_files o now marked id b e (epub.rewrite b e)

  abbrev pub edit_valid :
      Outcome → Time → World → ℤ → Book → Edits → Option (List FieldError) → Reply Book × World
  edit_valid o now w id b e (some errors) = (failed (invalid errors), w)
  edit_valid o now w id b e none = edit_marked o now w id b e (mark_pending o w)

  abbrev pub edit_found : Outcome → Time → World → ℤ → Edits → Option Book → Reply Book × World
  edit_found o now w id e none = (failed (book_not_found id), w)
  edit_found o now w id e (some b) =
      let e' = normalized epub.round e in
      edit_valid o now w id b e' (validate epub.language_parses e' b)

  unfoldable pub edit : Outcome → Time → World → ℤ → Edits → Reply Book × World
  edit o now w id e = edit_found o now w id e (get w.rows id)

-- from the return of `store.Delete` on, which on an error leaves what it leaves
abbrev pub delete_row : Outcome → World → ℤ → Option (Option Book) → Reply (Unit {0}) × World
delete_row o w id (some left) = (failed store_failed, put_files w id left)
delete_row o w id none = op_delete o id (put_files w id none)

abbrev pub delete_marked : Outcome → World → ℤ → Option World → Reply (Unit {0}) × World
delete_marked o w id none = (failed index_failed, w)
delete_marked o w id (some marked) = delete_row o marked id o.removes

abbrev pub delete_found : Outcome → World → ℤ → Option Book → Reply (Unit {0}) × World
delete_found o w id none = (failed (book_not_found id), w)
delete_found o w id (some b) = delete_marked o w id (mark_pending o w)

unfoldable pub delete_book : Outcome → World → ℤ → Reply (Unit {0}) × World
delete_book o w id = delete_found o w id (get w.rows id)
