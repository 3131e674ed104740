-- ===== src/Epub/Saving.antt =====
-- pkg/epub/save.go: the entries that a save replaces, and the file that it leaves. A file that is open can
-- be read; what the operating system refuses is in `Outcomes`.
pub mod Covers
pub mod Guarded
pub mod Kept
use ebookfs.Common.{
  ℕ, Bool, true, false, not, ◌&&◌, ◌||◌, List, [], ◌∷◌, map, Option, none, some, if◌then◌else◌,
  Text, text_eq, text_comparable, codes, Dict, get, put, ◌==◌, contains, nat_comparable,
}
use ebookfs.VFile.{Bytes}
use ebookfs.Epub.Dom.{Etree, Doc}
use ebookfs.Epub.Opf.{apply}
use ebookfs.Epub.Opf.Manifest.{cover_pages, ncx_path}
use ebookfs.Epub.Opf.Readings.{to_lower}
use ebookfs.Epub.Zip.{
  Entry, ZipError, ZipResult, ok, err, has_entry, file, is_there, read, write_to,
}
use ebookfs.Epub.Ocf.{AttrUrl, Algorithms, new_encryption_info, is_encrypted}
use ebookfs.Epub.Books.{Metadata, EpubBook, Moved, moved_from, changed, write_moved}

pub data SaveError : Type 0 where
  signed : SaveError
  bad_encryption : SaveError
  bad_image : SaveError
  no_cover : SaveError
  not_printed : SaveError
  not_validated : SaveError
  refused_by_system : SaveError
  format_kept encrypted_cover encrypted_package not_read cover_missing : Text → SaveError
  wrong_format : Text → Text → SaveError
  in_archive : ZipError → SaveError

pub data Staged : Type 0 where
  staged : Dict Text Bytes → Staged
  refused : SaveError → Staged

-- a content document or an NCX after an edit: it does not parse, is left as it was, or is printed,
-- which fails as nil
pub data Fitted : Type 0 where
  unparsed unfitted : Fitted
  fitted : Option Bytes → Fitted

-- `decode_rows` is the XML of encryption.xml, `decode_config` image.DecodeConfig with the format and the
-- size; `fit_cover` and `fit_ncx` are packages content and ncx, and `print` the etree library.
pub record Codecs (T : Type 0) : Type 0 where
  pub decode_rows : Bytes → Option (List (Text × AttrUrl))
  pub decode_config : Bytes → Option (Text × ℕ × ℕ)
  pub fit_cover : Bytes → Text → Text → ℕ → ℕ → Fitted
  pub fit_ncx : Bytes → Option Text → Option (List Text) → Fitted
  pub print : T → Option Bytes

abbrev pub encryption_path : Text
encryption_path = codes "META-INF/encryption.xml"

abbrev pub signatures_path : Text
signatures_path = codes "META-INF/signatures.xml"

abbrev pub with_entry : Dict Text Bytes → Text → Option Bytes → Staged
with_entry replace entry none = refused not_printed
with_entry replace entry (some out) = staged (put replace entry out)

module _ {T : Type 0} (c : Codecs T) where
  abbrev pub rows_of : Option (List (Text × AttrUrl)) → Option (Option Algorithms)
  rows_of none = none
  rows_of (some rows) = some (some (new_encryption_info [] rows))

  -- `readEncryption`; the outer nil is its error
  unfoldable pub read_encryption : List Entry → Option (Option Algorithms)
  read_encryption entries = elim (file entries encryption_path) [
    | none ↦ some none
    | some f ↦ rows_of (c.decode_rows f.content)
  ]

  module _ (enc : Option Algorithms) (b : EpubBook T) where
    abbrev pub fit_page : Text → ℕ → ℕ → Dict Text Bytes → Staged → Option Bytes → Staged
    fit_page entry width height replace rest none = refused (not_read entry)
    fit_page entry width height replace rest (some data') =
        elim (c.fit_cover data' entry b.cover_path width height) [
          | unparsed ↦ rest
          | unfitted ↦ rest
          | fitted out ↦ with_entry replace entry out
        ]

    -- `refitCoverPage`, over the pages that may display the cover
    abbrev pub refit_cover_page : List Text → ℕ → ℕ → Dict Text Bytes → Staged
    refit_cover_page [] width height replace = staged replace
    refit_cover_page (entry ∷ entries) width height replace =
        let rest = refit_cover_page entries width height replace in
        if not (has_entry b.entries entry) || is_encrypted enc entry
        then rest
        else fit_page entry width height replace rest (read b.entries entry)

    abbrev pub fit_names : Text → Moved → Dict Text Bytes → Option Bytes → Staged
    fit_names entry m replace none = refused (not_read entry)
    fit_names entry m replace (some data') =
        elim (c.fit_ncx data' (if m.title then some b.meta.title else none)
          (if m.authors then some (map (λ a. a.name) b.meta.authors) else none)) [
            | unparsed ↦ staged replace
            | unfitted ↦ staged replace
            | fitted out ↦ with_entry replace entry out
          ]

    -- `syncNCX`, where `entry` is the NCX's path
    abbrev pub sync_ncx : Text → Moved → Dict Text Bytes → Staged
    sync_ncx entry m replace =
        if not m.title && not m.authors
        then staged replace
        else if text_eq entry [] || not (has_entry b.entries entry) || is_encrypted enc entry
        then staged replace
        else fit_names entry m replace (read b.entries entry)

    abbrev pub stage_config : List Text → Dict Text Bytes → Option (Text × ℕ × ℕ) → Staged
    stage_config pages replace none = refused bad_image
    stage_config pages replace (some (format, width, height)) =
        refit_cover_page pages width height replace

    -- the part of `stage` that is about the cover
    abbrev pub stage_cover : List Text → Option Bytes → Dict Text Bytes → Staged
    stage_cover pages none replace = staged replace
    stage_cover pages (some img) replace =
        if is_encrypted enc b.cover_path
        then refused (encrypted_cover b.cover_path)
        else stage_config pages (put replace b.cover_path img) (c.decode_config img)

    abbrev pub then_sync : Text → Moved → Staged → Staged
    then_sync entry m (refused e) = refused e
    then_sync entry m (staged replace) = sync_ncx entry m replace

    -- the package document, where `edited` is whether it has changed and `printed` what it prints as
    abbrev pub stage_package : Text → Moved → Bool → Option Bytes → Dict Text Bytes → Staged
    stage_package entry m edited printed replace =
        then_sync entry m
          (if edited then with_entry replace b.package_path printed else staged replace)

abbrev pub or_nil : Option Bytes → Text
or_nil none = []
or_nil (some out) = out

module _ {T : Type 0} (x : Etree T) (d : Doc) (c : Codecs T) (lower : ℕ → ℕ)
    (resolve : Text → Text → Text) where
  -- `doc.Apply` with the setters of `write`; `time` is time.Now() as it is printed
  abbrev pub edit_doc : EpubBook T → Moved → Text → Bool × T
  edit_doc b m time = apply x d (λ t. or_nil (c.print t)) time (write_moved x d b.meta m) b.doc

  abbrev pub stage_fields :
      Option Algorithms → EpubBook T → Text → Moved → Staged → Staged × EpubBook T
  stage_fields enc b time m (refused e) = (refused e, b)
  stage_fields enc b time m (staged replace) =
      if not (changed m)
      then (staged replace, b)
      else if is_encrypted enc b.package_path
      then (refused (encrypted_package b.package_path), b)
      else let (edited, t) = edit_doc b m time in
        (
          stage_package c enc b (ncx_path lower (resolve b.package_path) x d t) m edited (c.print t)
              replace,
          record b { doc = t },
        )

  abbrev pub stage_under : EpubBook T → Text → Option (Option Algorithms) → Staged × EpubBook T
  stage_under b time none = (refused bad_encryption, b)
  stage_under b time (some enc) =
      stage_fields enc b time (moved_from b.orig b.meta)
        (stage_cover c enc b (cover_pages lower (resolve b.package_path) x d b.doc) b.cover [])

  -- `stage`: what is to be replaced, and the book, whose package document has been edited
  unfoldable pub stage : EpubBook T → Text → Staged × EpubBook T
  stage b time =
      if has_entry b.entries signatures_path
      then (refused signed, b)
      else stage_under b time (read_encryption c b.entries)

  -- whether the temporary file can be written, synced and closed, and then be renamed, and what Open
  -- makes of it
  pub record Outcomes : Type 0 where
    pub writes : Bool
    pub renames : Bool
    pub opens : List Entry → Option (EpubBook T)

  abbrev pub replaced_by :
      Outcomes
      → EpubBook T
      → List Entry
      → List Entry
      → Option (EpubBook T)
      → Option SaveError × List Entry × EpubBook T
  replaced_by o b old out none = (some not_validated, old, b)
  replaced_by o b old out (some next) =
      if o.renames then (none, out, next) else (some refused_by_system, old, b)

  abbrev pub written_to :
      Outcomes
      → EpubBook T
      → List Entry
      → ZipResult (List Entry)
      → Option SaveError × List Entry × EpubBook T
  written_to o b old (err e) = (some (in_archive e), old, b)
  written_to o b old (ok out) = replaced_by o b old out (o.opens out)

  -- `rewrite`: its error, the archive at the book's path, and the book
  unfoldable pub rewrite :
      Outcomes → EpubBook T → Dict Text Bytes → Option SaveError × List Entry × EpubBook T
  rewrite o b replace =
      if o.writes
      then written_to o b b.entries (write_to b.entries replace)
      else (some refused_by_system, b.entries, b)

  abbrev pub save_staged :
      Outcomes → Staged → EpubBook T → Option SaveError × List Entry × EpubBook T
  save_staged o (refused e) b = (some e, b.entries, b)
  save_staged o (staged []) b = (none, b.entries, b)
  save_staged o (staged (r ∷ replace)) b = rewrite o b (r ∷ replace)

  -- `Save` of a book that was opened
  unfoldable pub save : Outcomes → EpubBook T → Text → Option SaveError × List Entry × EpubBook T
  save o b time = let (s, b') = stage b time in save_staged o s b'
