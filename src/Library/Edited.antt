-- ===== src/Library/Edited.antt =====
-- What an edit of pkg/library leaves behind, whether it succeeds or fails.
use ebookfs.Common.{
  ◌≡◌, refl, ap, ◌∙◌, subst, false, List, Option, none, some, ℤ, int_eq, Dict, get, put, get-put,
  contains, nat_comparable, int_comparable, Bool-cases, inl, inr,
}
use ebookfs.Book.{Time, Bib, Meta, Book, Location}
use ebookfs.Book.Edits.{Edits, normalized}
use ebookfs.Book.Validation.{FieldError, validate}
use ebookfs.Store.Paths.{layout}
use ebookfs.Library.Facade.{
  World, Written, written, torn, Outcome, Reply, invalid, EpubCode, mark_pending, cancel, op_put,
  put_files, apply_meta, book_from_bib, update_index, update_files, edit_marked, edit_valid,
  edit_found, edit, done, failed,
}
use ebookfs.Library.Agreement.{marked, mark_some, without_marked}

-- what holds of the book that an edit returns
pub record IsStored (w w' : World) (id other : ℤ) (b : Book) : Type 0 where
  pub row : get w'.rows id ≡ some b
  pub files : get w'.disk id ≡ some b
  pub other_row : get w'.rows other ≡ get w.rows other
  pub other_files : get w'.disk other ≡ get w.disk other
  pub pending : w'.pending ≡ w.pending
  pub canonical : b.location ≡ layout b.bib.authors b.bib.title b.meta.id

-- an edit stores the book that it returns, or it fails and no row changes
abbrev pub IsEdited : World → ℤ → ℤ → Reply Book × World → Type 0
IsEdited w id other (done b, w') = IsStored w w' id other b
IsEdited w id other (failed f, w') = w'.rows ≡ w.rows

put_files_rows : (w : World) (id : ℤ) (left : Option Book) → (put_files w id left).rows ≡ w.rows
put_files_rows w id none = refl
put_files_rows w id (some b) = refl

cancel_rows : (o : Outcome) (w : World) → (cancel o w).rows ≡ w.rows
cancel_rows o w = elim (Bool-cases o.cancels) [ inl t ↦ rw t refl | inr f ↦ rw f refl ]

module _ (epub : EpubCode) (o : Outcome) (now : Time) (w : World) (id other : ℤ)
    (apart : int_eq id other ≡ false) where
  put_at :
      (d : Dict ℤ Book) (b : Book)
      → (get (put d id b) id ≡ some b) × (get (put d id b) other ≡ get d other)
  put_at d b = (
    get-put d id b id ∙ rw ((int_comparable.beq_iff id id).1 refl) refl,
    get-put d id b other ∙ rw apart refl,
  )

  op_put-IsEdited :
      (b : Book)
      → contains w.pending o.op_id ≡ false
      → b.location ≡ layout b.bib.authors b.bib.title b.meta.id
      → IsEdited w id other (op_put o id b (put_files (marked o w) id (some b)))
  op_put-IsEdited b fresh c = elim (Bool-cases o.commits) [
    | inl t ↦ rw t (record {
      row = (put_at w.rows b).0;
      files = (put_at w.disk b).0;
      other_row = (put_at w.rows b).1;
      other_files = (put_at w.disk b).1;
      pending = without_marked w.pending o.op_id fresh;
      canonical = c;
    })
    | inr f ↦ rw f refl
  ]

  update_files-IsEdited :
      (b : Book) (e : Edits) (bib : Option Bib)
      → contains w.pending o.op_id ≡ false
      → IsEdited w id other (update_files epub o now (marked o w) id b e bib)
  update_files-IsEdited b e none fresh = cancel_rows o (marked o w)
  update_files-IsEdited b e (some bib) fresh = stored o.files
    where
      stored :
          (f : Written)
          → IsEdited w id other (
              update_index epub o now
                (marked o w)
                id
                bib
                (apply_meta now b.meta e)
                (layout bib.authors bib.title b.meta.id)
                f)
      stored (torn left) = put_files_rows (marked o w) id left
      stored (written size) =
          op_put-IsEdited
            (book_from_bib now bib (apply_meta now b.meta e)
              (layout bib.authors bib.title b.meta.id) size)
            fresh (unfold ebookfs.Book.new_book in refl)

  edit_marked-IsEdited :
      (b : Book) (e : Edits) (m : Option World)
      → mark_pending o w ≡ m
      → IsEdited w id other (edit_marked epub o now w id b e m)
  edit_marked-IsEdited b e none h = refl
  edit_marked-IsEdited b e (some m) h =
      let (same_world, fresh) = mark_some o w m h in
      subst (λ x. IsEdited w id other (edit_marked epub o now w id b e (some x))) same_world
        (update_files-IsEdited b e (epub.rewrite b e) fresh)

  edit_found-IsEdited :
      (e : Edits) (b : Option Book) → IsEdited w id other (edit_found epub o now w id e b)
  edit_found-IsEdited e none = refl
  edit_found-IsEdited e (some b) =
      checked (validate epub.language_parses (normalized epub.round e) b)
    where
      checked :
          (v : Option (List FieldError))
          → IsEdited w id other (edit_valid epub o now w id b (normalized epub.round e) v)
      checked none = edit_marked-IsEdited b (normalized epub.round e) (mark_pending o w) refl
      checked (some errors) = refl

  pub edit-IsEdited : (e : Edits) → IsEdited w id other (edit epub o now w id e)
  unfolding edit
  edit-IsEdited e = edit_found-IsEdited e (get w.rows id)

pub edit_invalid :
    (epub : EpubCode) (o : Outcome) (now : Time) (w : World) (id : ℤ) (e : Edits) (b : Book)
    (errors : List FieldError)
    → get w.rows id ≡ some b
    → validate epub.language_parses (normalized epub.round e) b ≡ some errors
    → edit epub o now w id e ≡ (failed (invalid errors), w)
unfolding edit
edit_invalid epub o now w id e b errors found refused =
    ap (edit_found epub o now w id e) found
    ∙ ap (edit_valid epub o now w id b (normalized epub.round e)) refused
