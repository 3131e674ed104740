-- ===== src/Epub/Books.antt =====
-- pkg/epub/book.go and the fields of save.go: an epub that is open, with its metadata, and which of its
-- fields have changed. `T` is the state of the package document; nodes are numbered so that its elements
-- <package> and <metadata> are those of `d` in every document that is parsed.
pub mod Unmoved
use ebookfs.Common.{
  ℕ, ◌*◌, Bool, true, false, not, ◌&&◌, ◌||◌, List, [], ◌∷◌, Option, none, some, if◌then◌else◌, ltb,
  Text, text_eq, text_comparable, codes, Dict,
}
use ebookfs.VFile.{Bytes}
use ebookfs.Epub.Dom.{Etree, Doc}
use ebookfs.Epub.Opf.{Series, title_get, title_set, field_get, field_set, series_get, series_set}
use ebookfs.Epub.Opf.Persons.{OpfAuthor, OpfContributor, entry_eq, authors_get, authors_set}
use ebookfs.Epub.Opf.Persons.Contributors.{contributors_get, contributors_set}
use ebookfs.Epub.Opf.Subjects.{subjects_get, subjects_set}
use ebookfs.Epub.Opf.Readings.{identifiers, pubdate}
use ebookfs.Epub.Opf.Manifest.{cover}
use ebookfs.Epub.Zip.{Entry, ZipResult, ok, err, metadata_path, validate_archive, size, read}

pub record Metadata : Type 0 where
  pub title : Text
  pub sort_title : Text
  pub authors : List OpfAuthor
  pub series : Option Series
  pub description : Text
  pub language : Text
  pub publisher : Text
  pub rights : Text
  pub subjects : List Text
  pub contributors : List OpfContributor

-- `entries` is the archive, `cover` the image that SetCover left.
pub record EpubBook (T : Type 0) : Type 0 where
  pub entries : List Entry
  pub package_path : Text
  pub meta : Metadata
  pub pubdate : Text
  pub doc : T
  pub identifiers : Dict Text Text
  pub cover_path : Text
  pub orig : Metadata
  pub cover : Option Bytes

-- which fields have changed since Open
pub record Moved : Type 0 where
  pub title : Bool
  pub sort_title : Bool
  pub description : Bool
  pub language : Bool
  pub authors : Bool
  pub series : Bool
  pub publisher : Bool
  pub rights : Bool
  pub subjects : Bool
  pub contributors : Bool

abbrev pub all_same {ℓ} : {A : Type ℓ} → (A → A → Bool) → List A → List A → Bool
all_same eq [] [] = true
all_same eq [] (y ∷ ys) = false
all_same eq (x ∷ xs) [] = false
all_same eq (x ∷ xs) (y ∷ ys) = eq x y && all_same eq xs ys

abbrev pub author_eq : OpfAuthor → OpfAuthor → Bool
author_eq a b = text_eq a.name b.name && text_eq a.sort_name b.sort_name

abbrev pub same_series : Option Series → Option Series → Bool
same_series none none = true
same_series none (some c) = false
same_series (some a) none = false
same_series (some a) (some c) = text_eq a.name c.name && text_eq a.index c.index

-- `moved`, of the metadata and of what it was
unfoldable pub moved_from : Metadata → Metadata → Moved
moved_from o b = record {
  title = not (text_eq b.title o.title);
  sort_title = not (text_eq b.sort_title o.sort_title);
  description = not (text_eq b.description o.description);
  language = not (text_eq b.language o.language);
  authors = not (all_same author_eq b.authors o.authors);
  series = not (same_series b.series o.series);
  publisher = not (text_eq b.publisher o.publisher);
  rights = not (text_eq b.rights o.rights);
  subjects = not (all_same text_eq b.subjects o.subjects);
  contributors = not (all_same entry_eq b.contributors o.contributors);
}

unfoldable pub changed : Moved → Bool
changed m =
    m.title || m.sort_title || m.description || m.language || m.authors || m.series || m.publisher
    || m.rights || m.subjects || m.contributors

module _ {T : Type 0} (x : Etree T) (d : Doc) where
  -- `write`: the setters of the fields that have changed, in the code's order
  unfoldable pub write_moved : Metadata → Moved → T → T
  write_moved b m t0 =
      let t1 =
        if m.title || m.sort_title
        then title_set x d t0 (if m.title then some b.title else none) (some b.sort_title)
        else t0 in
      let t2 = if m.description then field_set x d t1 (codes "description") b.description else t1 in
      let t3 = if m.language then field_set x d t2 (codes "language") b.language else t2 in
      let t4 = if m.authors then authors_set x d t3 b.authors else t3 in
      let t5 = if m.series then series_set x d t4 b.series else t4 in
      let t6 = if m.publisher then field_set x d t5 (codes "publisher") b.publisher else t5 in
      let t7 = if m.rights then field_set x d t6 (codes "rights") b.rights else t6 in
      let t8 = if m.subjects then subjects_set x d t7 b.subjects else t7 in
      if m.contributors then contributors_set x d t8 b.contributors else t8

  unfoldable pub metadata_of : T → Metadata
  metadata_of t = record {
    title = (title_get x d t).0;
    sort_title = (title_get x d t).1;
    authors = authors_get x d t;
    series = series_get x d t;
    description = field_get x d t (codes "description");
    language = field_get x d t (codes "language");
    publisher = field_get x d t (codes "publisher");
    rights = field_get x d t (codes "rights");
    subjects = subjects_get x d t;
    contributors = contributors_get x d t;
  }

  -- `lower` is unicode.ToLower, and `resolve` is ResolveHref on the directory of the package document.
  module _ (lower : ℕ → ℕ) (resolve : Text → Text → Text) where
    unfoldable pub new_book : List Entry → Text → T → EpubBook T
    unfolding metadata_of
    new_book entries package_path t = record {
      entries = entries;
      package_path = package_path;
      meta = metadata_of t;
      pubdate = pubdate lower x d t;
      doc = t;
      identifiers = identifiers lower x d t;
      cover_path = cover lower (resolve package_path) x d t;
      orig = metadata_of t;
      cover = none;
    }

    abbrev pub max_package_size : ℕ
    max_package_size = 16 * 1048576

    abbrev pub parsed_book : List Entry → Text → Option T → Option (EpubBook T)
    parsed_book entries package_path none = none
    parsed_book entries package_path (some t) = some (new_book entries package_path t)

    abbrev pub read_book :
        (Bytes → Option T) → List Entry → Text → Option Bytes → Option (EpubBook T)
    read_book parse entries package_path none = none
    read_book parse entries package_path (some raw) = parsed_book entries package_path (parse raw)

    -- where the package document has been found
    abbrev pub open_found : (Bytes → Option T) → List Entry → ZipResult Text → Option (EpubBook T)
    open_found parse entries (err e) = none
    open_found parse entries (ok package_path) = elim (validate_archive entries) [
      | some e ↦ none
      | none ↦
          if ltb max_package_size (size entries package_path)
          then none
          else read_book parse entries package_path (read entries package_path)
    ]

    -- `Open` on an archive that the zip library reads; every error is nil. `package_paths` decodes
    -- the container document and `parse` the package document.
    unfoldable pub open_book :
        (Bytes → Option (List Text)) → (Bytes → Option T) → List Entry → Option (EpubBook T)
    open_book package_paths parse entries =
        open_found parse entries (metadata_path package_paths entries)
