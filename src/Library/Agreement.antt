-- ===== src/Library/Agreement.antt =====
-- The index of pkg/library agrees with the files whenever no operation is pending.
pub mod Steps
pub mod Runs
use ebookfs.Common.{
  ℕ, suc, ◌+◌, ◌<◌, ◌≤◌, ◌≡◌, ◌≢◌, refl, sym, ap, ◌∙◌, subst, Bool, true, false, not, ◌&&◌, List,
  [], ◌∷◌, Option, none, some, arith, if◌then◌else◌, ◌==◌, ==_iff, Text, ℤ, pos, negsuc, int_eq,
  Dict, get, put, delete, get-put, get-delete, contains, without, keep, nat_comparable,
  int_comparable, Bool-cases, Option-cases, inl, inr,
}
use ebookfs.Book.{Time, Bib, Meta, Book, Location}
use ebookfs.Book.Edits.{Edits, normalized}
use ebookfs.Book.Validation.{FieldError, validate}
use ebookfs.Store.Paths.{layout}
use ebookfs.Library.Facade.{
  World, Written, written, torn, Outcome, Reply, EpubCode, mark_pending, clear_pending, cancel,
  op_put, op_delete, put_files, apply_meta, book_from_bib,
}

-- With no operation pending, the rows are what a scan of the files would make of them; and no id above the
-- sequence is in use.
pub record IsKept (w : World) : Type 0 where
  pub agrees : w.pending ≡ [] → (id : ℤ) → get w.rows id ≡ get w.disk id
  pub unused : (n : ℕ) → w.sequence < n → get w.rows (pos n) ≡ none

keep_absent : (l : List ℕ) (x : ℕ) → contains l x ≡ false → without l x ≡ l
keep_absent [] x h = refl
keep_absent (y ∷ l) x h = ground (arith, keep_absent l x, ==_iff y x)

-- the row of an operation that was marked is cleared, and those of earlier ones stay
pub without_marked : (l : List ℕ) (x : ℕ) → contains l x ≡ false → without (x ∷ l) x ≡ l
without_marked l x h = ground (arith, keep_absent l x, ==_iff x x)

module _ (o : Outcome) (w : World) where
  -- the world in which the operation is marked
  abbrev pub marked : World
  marked = record w { pending = o.op_id ∷ w.pending }

  pub mark_some :
      (m : World) → mark_pending o w ≡ some m → (marked ≡ m) × (contains w.pending o.op_id ≡ false)
  mark_some m h = elim (Bool-cases (o.marks && not (contains w.pending o.op_id))) [
    | inl t ↦ (ground arith, ground arith)
    | inr f ↦ absurd (ground arith)
  ]

  -- whatever is left of the files while an operation is pending
  torn-IsKept : (id : ℤ) (left : Option Book) → IsKept w → IsKept (put_files marked id left)
  torn-IsKept id none k = record { agrees = λ h. absurd (cc); unused = k.unused }
  torn-IsKept id (some b) k = record { agrees = λ h. absurd (cc); unused = k.unused }

  marked-IsKept : IsKept w → IsKept marked
  marked-IsKept k = record { agrees = λ h. absurd (cc); unused = k.unused }

  cancelled-IsKept : contains w.pending o.op_id ≡ false → IsKept w → IsKept (cancel o marked)
  cancelled-IsKept fresh k = elim (Bool-cases o.cancels) [
    | inl t ↦ rw t (record {
      agrees = λ h. k.agrees (sym (without_marked w.pending o.op_id fresh) ∙ h);
      unused = k.unused;
    })
    | inr f ↦ rw f (marked-IsKept k)
  ]

  -- an id that an index row or the sequence accounts for
  abbrev IsIssued : ℤ → Type 0
  IsIssued id = (n : ℕ) → w.sequence < n → int_eq id (pos n) ≡ false

  issued : (id : ℤ) (b : Book) → get w.rows id ≡ some b → IsKept w → IsIssued id
  issued id b h k n m = elim (Bool-cases (int_eq id (pos n))) [
    | inl t ↦
        let same_id : id ≡ pos n = (int_comparable.beq_iff id (pos n)).0 t in
        let e : true ≡ false = absent (sym (ap (get w.rows) same_id) ∙ h) (k.unused n m) in
        absurd (cc)
    | inr f ↦ f
  ]
    where
      absent : {x : Option Book} → x ≡ some b → x ≡ none → true ≡ false
      absent p q = cc

  op_put-IsKept :
      (id : ℤ) (b : Book)
      → contains w.pending o.op_id ≡ false
      → IsIssued id
      → IsKept w
      → IsKept (op_put o id b (put_files marked id (some b))).1
  op_put-IsKept id b fresh i k = elim (Bool-cases o.commits) [
    | inl t ↦ rw t (record {
      agrees = λ h j.
          let old = k.agrees (sym (without_marked w.pending o.op_id fresh) ∙ h) j in
          get-put w.rows id b j
          ∙ ap (λ x. if int_eq id j then some b else x) old
          ∙ sym (get-put w.disk id b j);
      unused = λ n m. get-put w.rows id b (pos n) ∙ rw (i n m) (k.unused n m);
    })
    | inr f ↦ rw f (torn-IsKept id (some b) k)
  ]

  op_delete-IsKept :
      (id : ℤ)
      → contains w.pending o.op_id ≡ false
      → IsKept w
      → IsKept (op_delete o id (put_files marked id none)).1
  op_delete-IsKept id fresh k = elim (Bool-cases o.commits) [
    | inl t ↦ rw t (record {
      agrees = λ h j.
          let old = k.agrees (sym (without_marked w.pending o.op_id fresh) ∙ h) j in
          get-delete w.rows id j
          ∙ ap (λ x. if int_eq id j then none else x) old
          ∙ sym (get-delete w.disk id j);
      unused = λ n m. get-delete w.rows id (pos n) ∙ ground (arith, k.unused n m);
    })
    | inr f ↦ rw f (torn-IsKept id none k)
  ]
