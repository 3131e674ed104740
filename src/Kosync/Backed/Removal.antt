-- ===== src/Kosync/Backed/Removal.antt =====
-- What the removal of a book leaves of the mapping: OnDeleting of internal/kosync/hook.go.
use ebookfs.Common.{
  ◌≡◌, ◌≢◌, refl, sym, ap, ◌∙◌, Bool, true, false, List, [], ◌∷◌, Option, none, some, arith,
  if◌then◌else◌, Text, ℤ, int_eq, get, delete, get-delete, contains, text_comparable,
  int_comparable, Bool-cases, inl, inr,
}
use ebookfs.Kosync.Mapping.{MappingFile, delete_document}
use ebookfs.Kosync.Hook.{
  SidecarData, Sidecar, unreadable, holding, State, Outcome, sidecar_of, read_sidecar,
  delete_documents, drop_documents, on_deleting,
}
use ebookfs.Kosync.Backed.{lists, IsBacked, read_lists}

delete_entries :
    (saves : Bool) (m : MappingFile) (d : Text)
    → (delete_document saves m d).entries ≡ delete m.entries d
unfolding delete_document
delete_entries true m d = refl
delete_entries false m d = refl

-- a mapping with fewer entries
delete_listed :
    (saves : Bool) (m : MappingFile) (ds : List Text) (d : Text)
    → get (delete_documents saves m ds).entries d
      ≡ (if contains ds d then none else get m.entries d)
delete_listed saves m [] d = refl
delete_listed saves m (e ∷ ds) d =
    delete_listed saves (delete_document saves m e) ds d
    ∙ ap (λ entries. if contains ds d then none else get entries d) (delete_entries saves m e)
    ∙ ground (arith, get-delete m.entries e d)

drop_documents-IsBacked :
    (o : Outcome) (s : State) (r : Option SidecarData)
    → IsBacked s
    → IsBacked (drop_documents o s r)
drop_documents-IsBacked o s none b = b
drop_documents-IsBacked o s (some data') b = record {
  listed =
      λ d j k. b.listed d j (ground (arith, delete_listed o.saves s.mapping data'.document_ids d));
}

pub on_deleting-IsBacked :
    (o : Outcome) (s : State) (book_id : ℤ) → IsBacked s → IsBacked (on_deleting o s book_id)
unfolding on_deleting
on_deleting-IsBacked o s book_id b =
    drop_documents-IsBacked o s (read_sidecar (sidecar_of s book_id)) b

-- the book's directory goes, once its documents have left the mapping
abbrev pub remove_book : Outcome → State → ℤ → State
remove_book o s book_id =
    let s' = on_deleting o s book_id in record s' { sidecars = delete s'.sidecars book_id }

-- the documents that are left are not the removed book's
left_over :
    (o : Outcome) (s : State) (book_id : ℤ) (d : Text) (r : Option SidecarData)
    → read_sidecar (sidecar_of s book_id) ≡ r
    → IsBacked s
    → get (drop_documents o s r).mapping.entries d ≢ some book_id
left_over o s book_id d none e b k =
    absurd (ground (arith, unread (sidecar_of s book_id), b.listed d book_id k))
  where
    unread : (x : Option Sidecar) → read_sidecar x ≡ none → lists x d ≡ false
    unread none e = refl
    unread (some unreadable) e = refl
    unread (some (holding y)) e = absurd (cc)
left_over o s book_id d (some data') e b k = absurd (
    ground (
      arith,
      delete_listed o.saves s.mapping data'.document_ids d,
      b.listed d book_id,
      read_lists (sidecar_of s book_id) data' d e,
    ))

-- the hook leaves the sidecars alone
drop_sidecars :
    (o : Outcome) (s : State) (r : Option SidecarData)
    → (drop_documents o s r).sidecars ≡ s.sidecars
drop_sidecars o s none = refl
drop_sidecars o s (some data') = refl

pub remove_book-IsBacked :
    (o : Outcome) (s : State) (book_id : ℤ) → IsBacked s → IsBacked (remove_book o s book_id)
unfolding on_deleting
remove_book-IsBacked o s book_id b = record {
  listed = λ d j k.
      let r = read_sidecar (sidecar_of s book_id) in
      let kept = (drop_documents-IsBacked o s r b).listed d j k in
      elim (Bool-cases (int_eq book_id j)) [
        | inl t ↦ absurd (
            left_over o s book_id d r refl b
              (k ∙ ap some (sym ((int_comparable.beq_iff book_id j).0 t))))
        | inr f ↦ rw (get-delete (drop_documents o s r).sidecars book_id j, f) kept
      ];
}
