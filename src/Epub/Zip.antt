-- ===== src/Epub/Zip.antt =====
-- pkg/epub/zip.go: the entries of an epub, found by name and written with some of them replaced. The zip
-- library's reader is a list of entries, in the archive's order, and its writer a list that grows; where
-- reading or writing fails is a parameter of what uses it.
pub mod Rewritten
pub mod Written
use ebookfs.Common.{
  ℕ, ◌==◌, Bool, true, false, not, ◌&&◌, ◌||◌, List, [], ◌∷◌, ◌++◌, map, Option, none, some,
  if◌then◌else◌, length, Text, text_eq, text_comparable, codes, contains, all, trim_space, Dict,
  get, put,
}
use ebookfs.VFile.{Bytes}

-- a *zip.File: its name, its bytes, and the header's method and time
pub record Entry : Type 0 where
  pub name : Text
  pub content : Bytes
  pub method : ℕ
  pub modified : ℕ

pub data ZipError : Type 0 where
  no_container : ZipError
  bad_container : ZipError
  no_rootfile : ZipError
  rootfile_missing : ZipError
  no_mimetype : ZipError
  wrong_mimetype : Text → ZipError
  no_entry : Text → ZipError

pub data ZipResult {ℓ} (A : Type ℓ) : Type ℓ where
  ok : A → ZipResult A
  err : ZipError → ZipResult A

abbrev pub mimetype_path : Text
mimetype_path = codes "mimetype"

abbrev pub mimetype_value : Text
mimetype_value = codes "application/epub+zip"

abbrev pub container_path : Text
container_path = codes "META-INF/container.xml"

-- `files`: the first entry of each name
unfoldable pub file : List Entry → Text → Option Entry
file [] name = none
file (f ∷ fs) name = if text_eq f.name name then some f else file fs name

abbrev pub is_there : Option Entry → Bool
is_there none = false
is_there (some f) = true

abbrev pub has_entry : List Entry → Text → Bool
has_entry zr name = is_there (file zr name)

abbrev pub size_of : Option Entry → ℕ
size_of none = 0
size_of (some f) = length f.content

unfoldable pub size : List Entry → Text → ℕ
unfolding file
size zr name = size_of (file zr name)

abbrev pub content_of : Option Entry → Option Bytes
content_of none = none
content_of (some f) = some f.content

-- `none` is the error of a name that is not there.
unfoldable pub read : List Entry → Text → Option Bytes
read zr name = content_of (file zr name)

abbrev pub check_mimetype : Option Bytes → Option ZipError
check_mimetype none = some no_mimetype
check_mimetype (some data') =
    if text_eq (trim_space data') mimetype_value
    then none
    else some (wrong_mimetype (trim_space data'))

-- `none` is no error.
unfoldable pub validate_archive : List Entry → Option ZipError
unfolding read
validate_archive zr = check_mimetype (read zr mimetype_path)

abbrev pub first_present : List Entry → List Text → ZipResult Text
first_present zr [] = err rootfile_missing
first_present zr (p ∷ ps) = if has_entry zr p then ok p else first_present zr ps

abbrev pub listed_path : List Entry → Option (List Text) → ZipResult Text
listed_path zr none = err bad_container
listed_path zr (some []) = err no_rootfile
listed_path zr (some (p ∷ ps)) = first_present zr (p ∷ ps)

-- `package_paths` is the container document's decoder, of package ocf.
unfoldable pub metadata_path : (Bytes → Option (List Text)) → List Entry → ZipResult Text
metadata_path package_paths zr = elim (file zr container_path) [
  | none ↦ err no_container
  | some f ↦ listed_path zr (package_paths f.content)
]

abbrev pub ends_in_slash : Text → Bool
ends_in_slash [] = false
ends_in_slash (c ∷ s) = elim s [ [] ↦ c == b'/' | d ∷ t ↦ ends_in_slash s ]

-- `writeEntry`: an entry that is replaced, a directory, of which the header is written, or a copy
abbrev pub written_as : Option Bytes → Entry → Entry
written_as (some data') f = record f { content = data' }
written_as none f = if ends_in_slash f.name then record f { content = [] } else f

-- Only the first entry of a name is replaced.
abbrev pub write_entry : Dict Text Bytes → List Text → Entry → Entry
write_entry replace seen f =
    written_as (if contains seen f.name then none else get replace f.name) f

abbrev pub write_rest : Dict Text Bytes → List Text → List Entry → List Entry
write_rest replace seen [] = []
write_rest replace seen (f ∷ fs) =
    let rest = write_rest replace (f.name ∷ seen) fs in
    if text_eq f.name mimetype_path then rest else write_entry replace seen f ∷ rest

abbrev pub first_unused : List Entry → Dict Text Bytes → Option Text
first_unused zr [] = none
first_unused zr ((name, data') ∷ replace) =
    if has_entry zr name then first_unused zr replace else some name

abbrev pub all_used : List Entry → Option Text → ZipResult (List Entry)
all_used out none = ok out
all_used out (some name) = err (no_entry name)

abbrev pub write_with : List Entry → Dict Text Bytes → Option Entry → ZipResult (List Entry)
write_with zr replace none = err no_mimetype
write_with zr replace (some mt) =
    all_used (write_entry replace [] mt ∷ write_rest replace [] zr) (first_unused zr replace)

-- the archive that `writeTo` writes, mimetype first; what it wrote before an error is thrown away
unfoldable pub write_to : List Entry → Dict Text Bytes → ZipResult (List Entry)
write_to zr replace = write_with zr replace (file zr mimetype_path)
