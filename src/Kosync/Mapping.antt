-- ===== src/Kosync/Mapping.antt =====
-- internal/kosync/mapping.go: the mapping from document ids to books. Whether a save reaches the disk
-- is a parameter of the operations that save; `Rebuild` is in Kosync/Hook, with the sidecars it reads.
use ebookfs.Common.{
  Bool, true, false, [], ◌∷◌, Option, none, some, Text, ℤ, Dict, get, put, delete, text_comparable,
}

-- the mapping.json file
pub data MappingDisk : Type 0 where
  missing : MappingDisk
  undecodable : MappingDisk
  encoded : Dict Text ℤ → MappingDisk

pub record MappingFile : Type 0 where
  pub entries : Dict Text ℤ
  pub disk : MappingDisk

abbrev pub new_empty_mapping : MappingDisk → MappingFile
new_empty_mapping disk = record { entries = []; disk = disk }

-- The file is renamed into place, so a save that fails leaves the old one.
save : Bool → MappingFile → MappingFile
save true m = record m { disk = encoded m.entries }
save false m = m

-- `none` is a mapping that does not decode.
unfoldable pub load_mapping : MappingDisk → Option MappingFile
load_mapping missing = some (record { entries = []; disk = missing })
load_mapping undecodable = none
load_mapping (encoded entries) = some (record { entries = entries; disk = encoded entries })

unfoldable pub is_empty : MappingFile → Bool
is_empty m = elim m.entries [ [] ↦ true | e ∷ es ↦ false ]

abbrev pub book_of : MappingFile → Text → Option ℤ
book_of m document_id = get m.entries document_id

unfoldable pub set_document : Bool → MappingFile → Text → ℤ → MappingFile
unfolding save
set_document saves m document_id book_id =
    save saves (record m { entries = put m.entries document_id book_id })

unfoldable pub delete_document : Bool → MappingFile → Text → MappingFile
unfolding save
delete_document saves m document_id =
    save saves (record m { entries = delete m.entries document_id })

-- the swap at the end of `Rebuild`
unfoldable pub replace : Bool → MappingFile → Dict Text ℤ → MappingFile
unfolding save
replace saves m entries = save saves (record m { entries = entries })
