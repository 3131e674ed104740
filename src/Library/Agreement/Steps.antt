-- ===== src/Library/Agreement/Steps.antt =====
-- Every operation of pkg/library keeps the index in agreement with the files, or leaves an operation
-- pending.
use ebookfs.Common.{
  ◌≡◌, refl, sym, ap, ◌∙◌, subst, ◌⊎◌, true, false, List, Option, none, some, arith, if◌then◌else◌,
  ℤ, int_eq, Dict, get, put, delete, get-put, get-delete, contains, nat_comparable, int_comparable,
  Bool-cases, inl, inr,
}
use ebookfs.Book.{Time, Bib, Book}
use ebookfs.Book.Edits.{Edits, normalized}
use ebookfs.Book.Validation.{FieldError, validate}
use ebookfs.Store.Paths.{layout}
use ebookfs.Library.Facade.{
  World, Written, written, torn, Outcome, EpubCode, mark_pending, clear_pending, op_put, put_files,
  apply_meta, book_from_bib, update_index, update_files, edit_marked, edit_valid, edit_found, edit,
  delete_row, delete_marked, delete_found, delete_book,
}
use ebookfs.Library.Ingest.{new_meta, clean_up, finish_ingest, place}
use ebookfs.Library.Agreement.{
  IsKept, marked, mark_some, torn-IsKept, cancelled-IsKept, IsIssued, issued, op_put-IsKept,
  op_delete-IsKept,
}

module _ (epub : EpubCode) (o : Outcome) (now : Time) (w : World) (k : IsKept w) where
  update_files-IsKept :
      (id : ℤ) (b : Book) (e : Edits) (bib : Option Bib)
      → get w.rows id ≡ some b
      → contains w.pending o.op_id ≡ false
      → IsKept (update_files epub o now (marked o w) id b e bib).1
  update_files-IsKept id b e none found fresh = cancelled-IsKept o w fresh k
  update_files-IsKept id b e (some bib) found fresh = stored o.files
    where
      stored :
          (f : Written)
          → IsKept
              (update_index epub o now
                (marked o w)
                id
                bib
                (apply_meta now b.meta e)
                (layout bib.authors bib.title b.meta.id)
                f).1
      stored (torn left) = torn-IsKept o w id left k
      stored (written size) =
          op_put-IsKept o w id
            (book_from_bib now bib (apply_meta now b.meta e)
              (layout bib.authors bib.title b.meta.id) size)
            fresh (issued o w id b found k) k

  edit_marked-IsKept :
      (id : ℤ) (b : Book) (e : Edits) (m : Option World)
      → mark_pending o w ≡ m
      → get w.rows id ≡ some b
      → IsKept (edit_marked epub o now w id b e m).1
  edit_marked-IsKept id b e none h found = k
  edit_marked-IsKept id b e (some m) h found =
      let (same_world, fresh) = mark_some o w m h in
      subst (λ x. IsKept (edit_marked epub o now w id b e (some x)).1) same_world
        (update_files-IsKept id b e (epub.rewrite b e) found fresh)

  edit_found-IsKept :
      (id : ℤ) (e : Edits) (b : Option Book)
      → get w.rows id ≡ b
      → IsKept (edit_found epub o now w id e b).1
  edit_found-IsKept id e none h = k
  edit_found-IsKept id e (some b) h =
      checked (validate epub.language_parses (normalized epub.round e) b)
    where
      checked :
          (v : Option (List FieldError))
          → IsKept (edit_valid epub o now w id b (normalized epub.round e) v).1
      checked none = edit_marked-IsKept id b (normalized epub.round e) (mark_pending o w) refl h
      checked (some errors) = k

  pub edit-IsKept : (id : ℤ) (e : Edits) → IsKept (edit epub o now w id e).1
  unfolding edit
  edit-IsKept id e = edit_found-IsKept id e (get w.rows id) refl

module _ (o : Outcome) (w : World) (k : IsKept w) where
  delete_row-IsKept :
      (id : ℤ) (r : Option (Option Book))
      → contains w.pending o.op_id ≡ false
      → IsKept (delete_row o (marked o w) id r).1
  delete_row-IsKept id none fresh = op_delete-IsKept o w id fresh k
  delete_row-IsKept id (some left) fresh = torn-IsKept o w id left k

  delete_marked-IsKept :
      (id : ℤ) (m : Option World) → mark_pending o w ≡ m → IsKept (delete_marked o w id m).1
  delete_marked-IsKept id none h = k
  delete_marked-IsKept id (some m) h =
      let (same_world, fresh) = mark_some o w m h in
      subst (λ x. IsKept (delete_marked o w id (some x)).1) same_world
        (delete_row-IsKept id o.removes fresh)

  delete_found-IsKept : (id : ℤ) (b : Option Book) → IsKept (delete_found o w id b).1
  delete_found-IsKept id none = k
  delete_found-IsKept id (some b) = delete_marked-IsKept id (mark_pending o w) refl

  pub delete_book-IsKept : (id : ℤ) → IsKept (delete_book o w id).1
  unfolding delete_book
  delete_book-IsKept id = delete_found-IsKept id (get w.rows id)

-- an id that nothing has: neither rows nor, while nothing is pending, files
module _ (o : Outcome) (now : Time) (w : World) (id : ℤ) (free : get w.rows id ≡ none)
    (next : IsIssued o w id) (k : IsKept w) where
  -- the files of the new book are deleted, and what the index says of it is nothing
  clean-IsKept :
      (disk : Dict ℤ Book) (r : Option (Option Book))
      → contains w.pending o.op_id ≡ false
      → ((j : ℤ) → get (delete disk id) j ≡ get (delete w.disk id) j)
      → IsKept (clean_up o (record (marked o w) { disk = disk }) id r)
  clean-IsKept disk none fresh same_rest =
      cancelled-IsKept o (record w { disk = delete disk id }) fresh
        (record {
          agrees = λ h j.
              rest j (Bool-cases (int_eq id j)) (k.agrees h j)
              ∙ sym (same_rest j ∙ get-delete w.disk id j);
          unused = k.unused;
        })
    where
      rest :
          (j : ℤ)
          → (int_eq id j ≡ true) ⊎ (int_eq id j ≡ false)
          → get w.rows j ≡ get w.disk j
          → get w.rows j ≡ (if int_eq id j then none else get w.disk j)
      rest j (inl t) h = rw t (sym (ap (get w.rows) ((int_comparable.beq_iff id j).0 t)) ∙ free)
      rest j (inr f) h = rw f h
  clean-IsKept disk (some none) fresh same_rest = record {
    agrees = λ h. absurd (cc);
    unused = k.unused;
  }
  clean-IsKept disk (some (some b)) fresh same_rest = record {
    agrees = λ h. absurd (cc);
    unused = k.unused;
  }

  over : (b : Book) (j : ℤ) → get (delete (put w.disk id b) id) j ≡ get (delete w.disk id) j
  over b j =
      get-delete (put w.disk id b) id j
      ∙ ap (λ x. if int_eq id j then none else x) (get-put w.disk id b j)
      ∙ ground (arith, get-delete w.disk id j)

  unfold_commit :
      (b : Book)
      → o.commits ≡ true
      → IsKept (op_put o id b (put_files (marked o w) id (some b))).1
      → IsKept
          (clear_pending o (record (put_files (marked o w) id (some b)) { rows = put w.rows id b }))
  unfold_commit b t = rw t (λ x. x)

  pub placed-IsKept :
      (bib : Bib) (f : Written)
      → contains w.pending o.op_id ≡ false
      → IsKept (finish_ingest o (marked o w) id (place o now (marked o w) id bib f)).1
  placed-IsKept bib (torn none) fresh = clean-IsKept (delete w.disk id) o.removes fresh (λ j.
      get-delete (delete w.disk id) id j
      ∙ ap (λ x. if int_eq id j then none else x) (get-delete w.disk id j)
      ∙ twice j (get w.disk j)
      ∙ sym (get-delete w.disk id j))
    where
      twice :
          (j : ℤ) (x : Option Book)
          → (if int_eq id j then none else if int_eq id j then none else x)
            ≡ (if int_eq id j then none else x)
      twice j x = ground arith
  placed-IsKept bib (torn (some b)) fresh = clean-IsKept (put w.disk id b) o.removes fresh (over b)
  placed-IsKept bib (written size) fresh =
      let b = book_from_bib now bib (new_meta id now) (layout bib.authors bib.title id) size in
      elim (Bool-cases o.commits) [
        | inl t ↦ let ok = op_put-IsKept o w id b fresh next k in rw t (unfold_commit b t ok)
        | inr f ↦ rw f (clean-IsKept (put w.disk id b) o.removes fresh (over b))
      ]
