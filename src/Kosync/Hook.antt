-- ===== src/Kosync/Hook.antt =====
-- internal/kosync/hook.go and the rebuild of internal/kosync/mapping.go: the sidecars and the mapping
-- follow what happens to the books.
use ebookfs.Common.{
  ℕ, Bool, true, false, List, [], ◌∷◌, Option, none, some, if◌then◌else◌, Text, text_eq, ℤ, Dict,
  get, put, text_comparable, int_comparable,
}
use ebookfs.Float.{Float64, of_nat}
use ebookfs.Kosync.Mapping.{
  MappingFile, set_document, delete_document, replace, is_empty, load_mapping, new_empty_mapping,
  MappingDisk,
}

-- progress.go
pub record Progress : Type 0 where
  pub percentage : Float64
  pub progress : Text
  pub device : Text
  pub device_id : Text
  pub timestamp : ℕ

abbrev pub no_progress : Progress
no_progress = record {
  percentage = of_nat 0;
  progress = [];
  device = [];
  device_id = [];
  timestamp = 0;
}

pub record SidecarData : Type 0 where
  pub document_ids : List Text
  pub progress : Progress

-- a kosync.json that is there: one that does not decode or cannot be read, or the data it holds
pub data Sidecar : Type 0 where
  unreadable : Sidecar
  holding : SidecarData → Sidecar

pub record State : Type 0 where
  pub mapping : MappingFile
  pub sidecars : Dict ℤ Sidecar

-- what the file system and the epub answer while one operation runs: the hash of each book's epub,
-- whether its sidecar can be written, and whether the mapping can be saved
pub record Outcome : Type 0 where
  pub document_id : ℤ → Option Text
  pub writes : ℤ → Bool
  pub saves : Bool

abbrev pub sidecar_of : State → ℤ → Option Sidecar
sidecar_of s book_id = get s.sidecars book_id

abbrev pub empty_sidecar : SidecarData
empty_sidecar = record { document_ids = []; progress = no_progress }

-- `none` is an error; a missing sidecar reads as an empty one.
abbrev pub read_sidecar : Option Sidecar → Option SidecarData
read_sidecar none = some empty_sidecar
read_sidecar (some unreadable) = none
read_sidecar (some (holding data')) = some data'

abbrev pub first_sidecar : Text → SidecarData
first_sidecar document_id = record { document_ids = document_id ∷ []; progress = no_progress }

-- the sidecar is written, and then the mapping
abbrev pub record_document : Outcome → State → ℤ → Text → SidecarData → State
record_document o s book_id document_id data' =
    if o.writes book_id
    then record {
      mapping = set_document o.saves s.mapping document_id book_id;
      sidecars = put s.sidecars book_id (holding data');
    }
    else s

unfoldable pub on_ingested : Outcome → State → ℤ → State
on_ingested o s book_id = elim (o.document_id book_id) [
  | none ↦ s
  | some document_id ↦ record_document o s book_id document_id (first_sidecar document_id)
]

-- whether the newest document id is this one
abbrev pub is_newest : List Text → Text → Bool
is_newest [] document_id = false
is_newest (d ∷ ds) document_id = text_eq d document_id

-- a changed id goes to the front, before those that the book had
abbrev pub add_document : Outcome → State → ℤ → Text → Option SidecarData → State
add_document o s book_id document_id none = s
add_document o s book_id document_id (some data') =
    if is_newest data'.document_ids document_id
    then s
    else record_document o s book_id document_id
        (record data' { document_ids = document_id ∷ data'.document_ids })

unfoldable pub on_edited : Outcome → State → ℤ → State
on_edited o s book_id = elim (o.document_id book_id) [
  | none ↦ s
  | some document_id ↦ add_document o s book_id document_id (read_sidecar (sidecar_of s book_id))
]

abbrev pub delete_documents : Bool → MappingFile → List Text → MappingFile
delete_documents saves m [] = m
delete_documents saves m (d ∷ ds) = delete_documents saves (delete_document saves m d) ds

abbrev pub drop_documents : Outcome → State → Option SidecarData → State
drop_documents o s none = s
drop_documents o s (some data') = record s {
  mapping = delete_documents o.saves s.mapping data'.document_ids;
}

unfoldable pub on_deleting : Outcome → State → ℤ → State
on_deleting o s book_id = drop_documents o s (read_sidecar (sidecar_of s book_id))

-- the loop over a sidecar's document ids
abbrev pub map_documents : Dict Text ℤ → List Text → ℤ → Dict Text ℤ
map_documents m [] book_id = m
map_documents m (d ∷ ds) book_id =
    map_documents (if text_eq d [] then m else put m d book_id) ds book_id

-- the mapping so far, and the sidecars, of which some are made on the way
abbrev pub Scan : Type 0
Scan = Dict Text ℤ × Dict ℤ Sidecar

abbrev pub create_sidecar : Outcome → Scan → ℤ → Option Text → Scan
create_sidecar o (m, sidecars) book_id none = (m, sidecars)
create_sidecar o (m, sidecars) book_id (some document_id) =
    if o.writes book_id
    then (put m document_id book_id, put sidecars book_id (holding (first_sidecar document_id)))
    else (m, sidecars)

abbrev pub scan_sidecar : Outcome → Scan → ℤ → Option Sidecar → Scan
scan_sidecar o (m, sidecars) book_id none =
    create_sidecar o (m, sidecars) book_id (o.document_id book_id)
scan_sidecar o (m, sidecars) book_id (some unreadable) = (m, sidecars)
scan_sidecar o (m, sidecars) book_id (some (holding data')) =
    (map_documents m data'.document_ids book_id, sidecars)

abbrev pub scan_books : Outcome → Scan → List ℤ → Scan
scan_books o scan [] = scan
scan_books o scan (b ∷ bs) = scan_books o (scan_sidecar o scan b (get scan.1 b)) bs

-- The ids are those that the search of the whole library returns, unless it fails. A failed save is
-- reported, but the mapping in memory is the new one.
unfoldable pub rebuild : Outcome → State → Option (List ℤ) → Bool × State
rebuild o s none = (false, s)
rebuild o s (some books) =
    let (entries, sidecars) = scan_books o ([], s.sidecars) books in
    (o.saves, record { mapping = replace o.saves s.mapping entries; sidecars = sidecars })

-- the mapping that a server starts from
abbrev pub loaded : MappingDisk → MappingFile
loaded disk = elim (load_mapping disk) [ none ↦ new_empty_mapping disk | some m ↦ m ]

-- `New`: a mapping that is empty or does not decode is rebuilt, and a failed save is an error.
unfoldable pub start : Outcome → MappingDisk → Dict ℤ Sidecar → Option (List ℤ) → Bool × State
unfolding rebuild
start o disk sidecars books =
    let s : State = record { mapping = loaded disk; sidecars = sidecars } in
    if is_empty (loaded disk) then rebuild o s books else (true, s)
