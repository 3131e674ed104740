-- ===== src/Tests/Elements/Saves.antt =====
-- Saves of pkg/epub/save.go on a small epub, and the theorems at them.
use ebookfs.Common.{
  ℕ, ◌≡◌, refl, true, false, List, [], ◌∷◌, ◌++◌, Option, none, some, Text, codes, text_comparable,
  get, put, delete, nat_comparable,
}
use ebookfs.VFile.{Bytes}
use ebookfs.Epub.Zip.{Entry, mimetype_path, mimetype_value, file, read, write_to}
use ebookfs.Epub.Ocf.{attr_url, is_encrypted}
use ebookfs.Epub.Books.{Metadata, EpubBook, new_book, metadata_of}
use ebookfs.Epub.Saving.{
  wrong_format, SaveError, refused_by_system, signed, Codecs, unfitted, Outcomes, save,
  read_encryption, encryption_path, signatures_path,
}
use ebookfs.Epub.Saving.Covers.{set_cover}
use ebookfs.Epub.Saving.Kept.{save-encrypted, save_failed, save-new_book}
use ebookfs.Tests.Elements.{Table, table_tree}
use ebookfs.Tests.Elements.Packages.{book_doc, root}

abbrev entry_of : Text → Bytes → Entry
entry_of name content = record { name = name; content = content; method = 0; modified = 0 }

-- the chapter is under real encryption
abbrev guarded_zip : List Entry
guarded_zip =
    entry_of mimetype_path mimetype_value
    ∷ entry_of (codes "a.opf") (1 ∷ [])
    ∷ entry_of (codes "cover.jpg") (9 ∷ [])
    ∷ entry_of (codes "1.xhtml") (8 ∷ [])
    ∷ entry_of encryption_path (7 ∷ [])
    ∷ []

-- a document is printed as its texts
printed : Table → Bytes
printed [] = []
printed ((k, e) ∷ t) = e.text ++ (10 ∷ printed t)

abbrev small_codecs : Codecs Table
unfolding printed
small_codecs = record {
  decode_rows = λ data'. some ((codes "aes", attr_url (λ s. none) (codes "1.xhtml")) ∷ []);
  decode_config = λ img. some (codes "jpeg", 1, 1);
  fit_cover = λ data' entry cover_path width height. unfitted;
  fit_ncx = λ data' title names. unfitted;
  print = λ t. some (printed t);
}

abbrev below : Text → Text → Text
below package_path href = href

abbrev as_it_is : ℕ → ℕ
as_it_is c = c

abbrev opened : EpubBook Table
opened = new_book table_tree root as_it_is below guarded_zip (codes "a.opf") book_doc

abbrev tehanu : Metadata
tehanu = record {
  title = codes "T";
  sort_title = [];
  authors = [];
  series = none;
  description = [];
  language = [];
  publisher = [];
  rights = [];
  subjects = [];
  contributors = [];
}

-- a new cover
abbrev covered : EpubBook Table
covered = record {
  entries = guarded_zip;
  package_path = codes "a.opf";
  meta = tehanu;
  pubdate = [];
  doc = book_doc;
  identifiers = [];
  cover_path = codes "cover.jpg";
  orig = tehanu;
  cover = some (5 ∷ []);
}

abbrev no_room : Outcomes table_tree root small_codecs as_it_is below
no_room = record { writes = false; renames = true; opens = λ out. none }

abbrev all_well : Outcomes table_tree root small_codecs as_it_is below
all_well = record {
  writes = true;
  renames = true;
  opens = λ out. some (new_book table_tree root as_it_is below out (codes "a.opf") book_doc);
}

abbrev save_small :
    Outcomes table_tree root small_codecs as_it_is below
    → EpubBook Table
    → Option SaveError × List Entry × EpubBook Table
save_small o b = save table_tree root small_codecs as_it_is below o b (codes "2026")

save-new_book_example : save_small all_well opened ≡ (none, guarded_zip, opened)
unfolding file read_encryption small_codecs ebookfs.Epub.Ocf.new_encryption_info
    ebookfs.Epub.Vocab.collapse put delete
save-new_book_example =
    save-new_book table_tree root small_codecs as_it_is below all_well guarded_zip (codes "a.opf")
      book_doc (codes "2026") (some ((codes "1.xhtml", codes "aes") ∷ [])) refl refl

save-encrypted_example :
    read (save_small all_well covered).1 (codes "1.xhtml") ≡ read guarded_zip (codes "1.xhtml")
unfolding read_encryption file new_book small_codecs ebookfs.Epub.Ocf.new_encryption_info
    ebookfs.Epub.Vocab.collapse put delete is_encrypted get
save-encrypted_example =
    save-encrypted table_tree root small_codecs as_it_is below all_well covered (codes "2026")
      (some ((codes "1.xhtml", codes "aes") ∷ [])) (codes "1.xhtml") refl refl refl

no_room_refused : (save_small no_room covered).0 ≡ some refused_by_system
unfolding save ebookfs.Epub.Saving.stage file read_encryption small_codecs is_encrypted get
    ebookfs.Epub.Ocf.new_encryption_info ebookfs.Epub.Vocab.collapse put delete
    ebookfs.Epub.Opf.Manifest.cover_pages table_tree ebookfs.Epub.Books.changed
    ebookfs.Epub.Books.moved_from ebookfs.Epub.Saving.rewrite
no_room_refused = refl

save_failed_example : (save_small no_room covered).1 ≡ guarded_zip
unfolding new_book
save_failed_example =
    save_failed table_tree root small_codecs as_it_is below no_room covered (codes "2026")
      refused_by_system no_room_refused

cover_saved : read (save_small all_well covered).1 (codes "cover.jpg") ≡ some (5 ∷ [])
unfolding read file save ebookfs.Epub.Saving.stage read_encryption small_codecs is_encrypted get
    ebookfs.Epub.Ocf.new_encryption_info ebookfs.Epub.Vocab.collapse put delete
    ebookfs.Epub.Opf.Manifest.cover_pages table_tree ebookfs.Epub.Books.changed
    ebookfs.Epub.Books.moved_from ebookfs.Epub.Saving.rewrite write_to new_book
cover_saved = refl

wrong_extension :
    (set_cover small_codecs as_it_is (record covered { cover_path = codes "cover.png" }) (5 ∷ [])).0
    ≡ some (wrong_format (codes "jpeg") (codes "png"))
unfolding set_cover small_codecs
wrong_extension = refl
