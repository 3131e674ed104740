-- ===== src/Kosync/Backed.antt =====
-- The mapping never leads to a book that does not have the document, whatever happens to the books.
pub mod Events
pub mod Removal
use ebookfs.Common.{
  ℕ, ◌≡◌, ◌≢◌, refl, sym, ap, ◌∙◌, Bool, true, false, not, ◌||◌, List, [], ◌∷◌, Option, none, some,
  arith, if◌then◌else◌, Text, text_eq, text_eq_iff, ℤ, int_eq, Dict, get, put, delete, get-nil,
  get-put, get-delete, contains, text_comparable, int_comparable, Bool-cases, Option-cases, inl,
  inr,
}
use ebookfs.Kosync.Mapping.{MappingFile, book_of, set_document, delete_document, replace}
use ebookfs.Kosync.Hook.{
  Progress, SidecarData, Sidecar, unreadable, holding, State, Outcome, sidecar_of, empty_sidecar,
  read_sidecar, first_sidecar, record_document, on_ingested, is_newest, add_document, on_edited,
  delete_documents, drop_documents, on_deleting, map_documents, Scan, create_sidecar, scan_sidecar,
  scan_books, rebuild,
}
use ebookfs.Kosync.Handlers.{write_progress, store_progress}

-- whether a sidecar lists a document id
abbrev pub lists : Option Sidecar → Text → Bool
lists none d = false
lists (some unreadable) d = false
lists (some (holding data')) d = contains data'.document_ids d

-- every entry leads to a book whose sidecar lists the document
pub record IsBackedBy (sidecars : Dict ℤ Sidecar) (entries : Dict Text ℤ) : Type 0 where
  pub listed :
      (d : Text) (book_id : ℤ)
      → get entries d ≡ some book_id
      → lists (get sidecars book_id) d ≡ true

abbrev pub IsBacked : State → Type 0
IsBacked s = IsBackedBy s.sidecars s.mapping.entries

put_listed :
    (sidecars : Dict ℤ Sidecar) (m : Dict Text ℤ) (d : Text) (book_id : ℤ)
    → lists (get sidecars book_id) d ≡ true
    → IsBackedBy sidecars m
    → IsBackedBy sidecars (put m d book_id)
put_listed sidecars m d book_id h b = record {
  listed = λ e j k. elim (Bool-cases (text_eq d e)) [
    | inl t ↦
        let same_book : some book_id ≡ some j = sym (get-put m d book_id e ∙ rw t refl) ∙ k in
        let same_text : d ≡ e = (text_eq_iff d e).0 t in rw (sym same_text) (subst_book same_book)
    | inr f ↦ b.listed e j (sym (get-put m d book_id e ∙ rw f refl) ∙ k)
  ];
}
  where
    subst_book : {j : ℤ} → some book_id ≡ some j → lists (get sidecars j) d ≡ true
    subst_book e = cc

-- the sidecar of one book is written, and lists what it did
write_sidecar :
    (sidecars : Dict ℤ Sidecar) (m : Dict Text ℤ) (book_id : ℤ) (data' : SidecarData)
    → ((d : Text) → lists (get sidecars book_id) d ≡ true → contains data'.document_ids d ≡ true)
    → IsBackedBy sidecars m
    → IsBackedBy (put sidecars book_id (holding data')) m
write_sidecar sidecars m book_id data' grows b = record {
  listed = λ d j k. elim (Bool-cases (int_eq book_id j)) [
    | inl t ↦
        rw (get-put sidecars book_id (holding data') j, t)
          (grows d (rw ((int_comparable.beq_iff book_id j).0 t) (b.listed d j k)))
    | inr f ↦ rw (get-put sidecars book_id (holding data') j, f) (b.listed d j k)
  ];
}

set_entries :
    (saves : Bool) (m : MappingFile) (d : Text) (book_id : ℤ)
    → (set_document saves m d book_id).entries ≡ put m.entries d book_id
unfolding set_document
set_entries true m d book_id = refl
set_entries false m d book_id = refl

replace_entries :
    (saves : Bool) (m : MappingFile) (entries : Dict Text ℤ)
    → (replace saves m entries).entries ≡ entries
unfolding replace
replace_entries true m entries = refl
replace_entries false m entries = refl

holding_listed :
    (sidecars : Dict ℤ Sidecar) (book_id : ℤ) (data' : SidecarData) (d : Text)
    → contains data'.document_ids d ≡ true
    → lists (get (put sidecars book_id (holding data')) book_id) d ≡ true
holding_listed sidecars book_id data' d h =
    rw
      (
        get-put sidecars book_id (holding data') book_id,
        (int_comparable.beq_iff book_id book_id).1 refl,
      )
      h

record_document-IsBacked :
    (o : Outcome) (s : State) (book_id : ℤ) (d : Text) (data' : SidecarData)
    → ((e : Text) → lists (sidecar_of s book_id) e ≡ true → contains data'.document_ids e ≡ true)
    → contains data'.document_ids d ≡ true
    → IsBacked s
    → IsBacked (record_document o s book_id d data')
record_document-IsBacked o s book_id d data' grows new b = elim (Bool-cases (o.writes book_id)) [
  | inl w ↦
      rw (w, set_entries o.saves s.mapping d book_id)
        (put_listed (put s.sidecars book_id (holding data')) s.mapping.entries d book_id
          (holding_listed s.sidecars book_id data' d new)
          (write_sidecar s.sidecars s.mapping.entries book_id data' grows b))
  | inr w ↦ rw w b
]

-- the only document of a new sidecar
first_listed : (d : Text) → contains (first_sidecar d).document_ids d ≡ true
first_listed d = ground (arith, text_eq_iff d d)

absent_lists : (o : Option Sidecar) (d : Text) (b : Bool) → o ≡ none → lists o d ≡ true → b ≡ true
absent_lists none d b e h = absurd (cc)
absent_lists (some x) d b e h = absurd (cc)

on_ingested-IsBacked :
    (o : Outcome) (s : State) (book_id : ℤ)
    → sidecar_of s book_id ≡ none
    → IsBacked s
    → IsBacked (on_ingested o s book_id)
unfolding on_ingested
on_ingested-IsBacked o s book_id fresh b = elim (Option-cases (o.document_id book_id)) [
  | inl e ↦ rw (e, on_ingested) b
  | inr (d, e) ↦
      rw (e, on_ingested)
        (record_document-IsBacked o s book_id d (first_sidecar d)
          (λ x.
            absent_lists (sidecar_of s book_id) x (contains (first_sidecar d).document_ids x) fresh)
          (first_listed d) b)
]

-- what is read from a sidecar lists what the sidecar does
pub read_lists :
    (o : Option Sidecar) (data' : SidecarData) (d : Text)
    → read_sidecar o ≡ some data'
    → lists o d ≡ contains data'.document_ids d
read_lists none data' d e =
    let k : empty_sidecar ≡ data' = ground arith in ap (λ x. contains x.document_ids d) k
read_lists (some unreadable) data' d e = absurd (cc)
read_lists (some (holding x)) data' d e =
    let k : x ≡ data' = ground arith in ap (λ y. contains y.document_ids d) k

add_document-IsBacked :
    (o : Outcome) (s : State) (book_id : ℤ) (d : Text) (r : Option SidecarData)
    → read_sidecar (sidecar_of s book_id) ≡ r
    → IsBacked s
    → IsBacked (add_document o s book_id d r)
add_document-IsBacked o s book_id d none e b = b
add_document-IsBacked o s book_id d (some data') e b =
    elim (Bool-cases (is_newest data'.document_ids d)) [
      | inl t ↦ rw t b
      | inr f ↦ rw f (
          record_document-IsBacked o s book_id d
            (record data' { document_ids = d ∷ data'.document_ids })
            (λ x h. ground (arith, read_lists (sidecar_of s book_id) data' x e))
            (ground (arith, text_eq_iff d d)) b)
    ]

on_edited-IsBacked :
    (o : Outcome) (s : State) (book_id : ℤ) → IsBacked s → IsBacked (on_edited o s book_id)
unfolding on_edited
on_edited-IsBacked o s book_id b = elim (Option-cases (o.document_id book_id)) [
  | inl e ↦ rw (e, on_edited) b
  | inr (d, e) ↦
      rw (e, on_edited)
        (add_document-IsBacked o s book_id d (read_sidecar (sidecar_of s book_id)) refl b)
]
