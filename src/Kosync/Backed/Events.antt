-- ===== src/Kosync/Backed/Events.antt =====
-- Every sequence of events keeps the mapping of internal/kosync backed by the sidecars.
use ebookfs.Common.{
  ◌≡◌, refl, sym, ◌∙◌, subst, ◌⊎◌, true, false, List, [], ◌∷◌, Option, none, some, arith,
  if◌then◌else◌, Text, text_eq, text_eq_iff, ℤ, Dict, get, put, contains, text_comparable,
  int_comparable, Bool-cases, inl, inr,
}
use ebookfs.Kosync.Mapping.{book_of}
use ebookfs.Kosync.Hook.{
  Progress, SidecarData, Sidecar, unreadable, holding, State, Outcome, sidecar_of, read_sidecar,
  first_sidecar, on_ingested, on_edited, on_deleting, map_documents, create_sidecar, scan_sidecar,
  scan_books, rebuild,
}
use ebookfs.Kosync.Handlers.{
  write_progress, store_progress, Credentials, position, respond, get_progress, progress_of,
  progress_in, authenticate, is_document_id,
}
use ebookfs.Kosync.Status.{Config}
use ebookfs.Kosync.Backed.{
  lists, IsBackedBy, IsBacked, put_listed, write_sidecar, holding_listed, first_listed,
  absent_lists, read_lists, replace_entries, on_ingested-IsBacked, on_edited-IsBacked,
}
use ebookfs.Kosync.Backed.Removal.{remove_book, on_deleting-IsBacked, remove_book-IsBacked}

write_progress-IsBacked :
    (o : Outcome) (s s' : State) (book_id : ℤ) (p : Progress) (r : Option SidecarData)
    → read_sidecar (sidecar_of s book_id) ≡ r
    → write_progress o s book_id p r ≡ some s'
    → IsBacked s
    → IsBacked s'
write_progress-IsBacked o s s' book_id p none e w b = absurd (cc)
write_progress-IsBacked o s s' book_id p (some data') e w b = elim (Bool-cases (o.writes book_id)) [
  | inl t ↦
      let k : record s {
        sidecars = put s.sidecars book_id (holding (record data' { progress = p }));
      }
          ≡ s' =
        ground arith in
      subst IsBacked k (
        write_sidecar s.sidecars s.mapping.entries book_id (record data' { progress = p })
          (λ x h. sym (read_lists (sidecar_of s book_id) data' x e) ∙ h) b)
  | inr f ↦ absurd (ground arith)
]

store_progress-IsBacked :
    (o : Outcome) (s s' : State) (book_id : ℤ) (p : Progress)
    → store_progress o s book_id p ≡ some s'
    → IsBacked s
    → IsBacked s'
unfolding store_progress
store_progress-IsBacked o s s' book_id p w b =
    write_progress-IsBacked o s s' book_id p (read_sidecar (sidecar_of s book_id)) refl w b

map_documents-IsBacked :
    (sidecars : Dict ℤ Sidecar) (m : Dict Text ℤ) (ds : List Text) (book_id : ℤ)
    → ((d : Text) → contains ds d ≡ true → lists (get sidecars book_id) d ≡ true)
    → IsBackedBy sidecars m
    → IsBackedBy sidecars (map_documents m ds book_id)
map_documents-IsBacked sidecars m [] book_id h b = b
map_documents-IsBacked sidecars m (d ∷ ds) book_id h b =
    map_documents-IsBacked sidecars (if text_eq d [] then m else put m d book_id) ds book_id
      (λ x k. h x (ground arith)) (step (Bool-cases (text_eq d [])))
  where
    step :
        (text_eq d [] ≡ true) ⊎ (text_eq d [] ≡ false)
        → IsBackedBy sidecars (if text_eq d [] then m else put m d book_id)
    step (inl t) = rw t b
    step (inr f) = rw f (put_listed sidecars m d book_id (h d (ground (arith, text_eq_iff d d))) b)

scan_sidecar-IsBacked :
    (o : Outcome) (m : Dict Text ℤ) (sidecars : Dict ℤ Sidecar) (book_id : ℤ) (x : Option Sidecar)
    → get sidecars book_id ≡ x
    → IsBackedBy sidecars m
    → (let (m', sidecars') = scan_sidecar o (m, sidecars) book_id x in IsBackedBy sidecars' m')
scan_sidecar-IsBacked o m sidecars book_id none e b = created (o.document_id book_id)
  where
    created :
        (i : Option Text)
        → (let (m', sidecars') = create_sidecar o (m, sidecars) book_id i in
            IsBackedBy sidecars' m')
    created none = b
    created (some d) = elim (Bool-cases (o.writes book_id)) [
      | inl w ↦ rw w (
          put_listed (put sidecars book_id (holding (first_sidecar d))) m d book_id
            (holding_listed sidecars book_id (first_sidecar d) d (first_listed d))
            (write_sidecar sidecars m book_id (first_sidecar d)
              (λ y.
                absent_lists (get sidecars book_id) y (contains (first_sidecar d).document_ids y) e)
              b))
      | inr w ↦ rw w b
    ]
scan_sidecar-IsBacked o m sidecars book_id (some unreadable) e b = b
scan_sidecar-IsBacked o m sidecars book_id (some (holding data')) e b =
    map_documents-IsBacked sidecars m data'.document_ids book_id (λ d h. rw e h) b

scan_books-IsBacked :
    (o : Outcome) (m : Dict Text ℤ) (sidecars : Dict ℤ Sidecar) (books : List ℤ)
    → IsBackedBy sidecars m
    → (let (m', sidecars') = scan_books o (m, sidecars) books in IsBackedBy sidecars' m')
scan_books-IsBacked o m sidecars [] b = b
scan_books-IsBacked o m sidecars (i ∷ is) b =
    let (m', sidecars') = scan_sidecar o (m, sidecars) i (get sidecars i) in
    scan_books-IsBacked o m' sidecars' is
      (scan_sidecar-IsBacked o m sidecars i (get sidecars i) refl b)

none_mapped : (sidecars : Dict ℤ Sidecar) → IsBackedBy sidecars []
unfolding get
none_mapped sidecars = record { listed = λ d j k. absurd (cc) }

-- A rebuilt mapping is backed, whatever the old one held and whether or not it reaches the disk.
rebuild-IsBacked :
    (o : Outcome) (s : State) (books : Option (List ℤ))
    → IsBacked s
    → IsBacked (rebuild o s books).1
unfolding rebuild
rebuild-IsBacked o s none b = b
rebuild-IsBacked o s (some books) old =
    let b = scan_books-IsBacked o [] s.sidecars books (none_mapped s.sidecars) in
    rw (replace_entries o.saves s.mapping (scan_books o ([], s.sidecars) books).0) b

-- What happens to the books, with the outcome of the file system each time: a book arrives, under an id
-- that has no sidecar yet; a book is edited; the hook runs before a deletion, which then fails or
-- removes the book; a device sends its progress; the mapping is rebuilt.
pub data Event : State → State → Type 0 where
  ingested :
      (o : Outcome) (s : State) (book_id : ℤ)
      → sidecar_of s book_id ≡ none
      → Event s (on_ingested o s book_id)
  edited : (o : Outcome) (s : State) (book_id : ℤ) → Event s (on_edited o s book_id)
  deleting : (o : Outcome) (s : State) (book_id : ℤ) → Event s (on_deleting o s book_id)
  removed : (o : Outcome) (s : State) (book_id : ℤ) → Event s (remove_book o s book_id)
  progressed :
      (o : Outcome) (s s' : State) (book_id : ℤ) (p : Progress)
      → store_progress o s book_id p ≡ some s'
      → Event s s'
  rebuilt : (o : Outcome) (s : State) (books : Option (List ℤ)) → Event s (rebuild o s books).1

pub data Events : State → State → Type 0 where
  done : (s : State) → Events s s
  after : (s t u : State) → Events s t → Event t u → Events s u

Event-IsBacked : (s t : State) → Event s t → IsBacked s → IsBacked t
Event-IsBacked _ _ (ingested o s book_id fresh) b = on_ingested-IsBacked o s book_id fresh b
Event-IsBacked _ _ (edited o s book_id) b = on_edited-IsBacked o s book_id b
Event-IsBacked _ _ (deleting o s book_id) b = on_deleting-IsBacked o s book_id b
Event-IsBacked _ _ (removed o s book_id) b = remove_book-IsBacked o s book_id b
Event-IsBacked _ _ (progressed o s s' book_id p w) b = store_progress-IsBacked o s s' book_id p w b
Event-IsBacked _ _ (rebuilt o s books) b = rebuild-IsBacked o s books b

pub Events-IsBacked : (s t : State) → Events s t → IsBacked s → IsBacked t
Events-IsBacked _ _ (done s) b = b
Events-IsBacked _ _ (after s t u es e) b = Event-IsBacked t u e (Events-IsBacked s t es b)

position_listed :
    (s : State) (d : Text) (o : Option ℤ) (p : Progress)
    → book_of s.mapping d ≡ o
    → IsBacked s
    → progress_in s d o ≡ respond 200 (position d p)
    → (book_id : ℤ) × (data' : SidecarData) × (sidecar_of s book_id ≡ some (holding data'))
      × (contains data'.document_ids d ≡ true)
      × (data'.progress ≡ p)
position_listed s d none p e b h = absurd (cc)
position_listed s d (some book_id) p e b h = go (sidecar_of s book_id) refl (b.listed d book_id e) h
  where
    go :
        (x : Option Sidecar)
        → sidecar_of s book_id ≡ x
        → lists x d ≡ true
        → progress_of d x ≡ respond 200 (position d p)
        → (book_id : ℤ) × (data' : SidecarData) × (sidecar_of s book_id ≡ some (holding data'))
          × (contains data'.document_ids d ≡ true)
          × (data'.progress ≡ p)
    go none at l k = absurd (cc)
    go (some unreadable) at l k = absurd (cc)
    go (some (holding data')) at l k = (book_id, data', at, l, ground arith)

-- A position that a GET returns for a document is never another document's: after any events from a
-- backed state it is the progress in the sidecar of a book that lists the document.
pub get_progress-Events :
    (cfg : Config) (c : Credentials) (s t : State) (d : Text) (p : Progress)
    → Events s t
    → IsBacked s
    → get_progress cfg c t d ≡ respond 200 (position d p)
    → (book_id : ℤ) × (data' : SidecarData) × (sidecar_of t book_id ≡ some (holding data'))
      × (contains data'.document_ids d ≡ true)
      × (data'.progress ≡ p)
unfolding get_progress
get_progress-Events cfg c s t d p es b h = elim (Bool-cases (authenticate cfg c)) [
  | inl a ↦ elim (Bool-cases (is_document_id d)) [
    | inl i ↦
        let allowed : progress_in t d (book_of t.mapping d) ≡ respond 200 (position d p) =
          ground arith in
        position_listed t d (book_of t.mapping d) p refl (Events-IsBacked s t es b) allowed
    | inr i ↦ absurd (ground arith)
  ]
  | inr a ↦ absurd (ground arith)
]
