-- ===== src/Epub/Saving/Covers.antt =====
-- SetCover of pkg/epub/save.go.
use ebookfs.Common.{
  ℕ, not, ◌&&◌, ◌||◌, [], ◌∷◌, Option, none, some, if◌then◌else◌, Text, text_eq, text_comparable,
  codes, ◌==◌, contains, nat_comparable,
}
use ebookfs.VFile.{Bytes}
use ebookfs.Epub.Opf.Readings.{to_lower}
use ebookfs.Epub.Zip.{has_entry}
use ebookfs.Epub.Books.{EpubBook}
use ebookfs.Epub.Saving.{
  SaveError, no_cover, bad_image, format_kept, wrong_format, cover_missing, Codecs,
}

-- path.Ext
unfoldable pub path_ext : Text → Text
path_ext [] = []
path_ext (c ∷ s) =
    let rest = path_ext s in
    if c == b'.' && not (contains s b'.') && not (contains s b'/') then c ∷ s else rest

unfoldable pub cover_format : (ℕ → ℕ) → Text → Text
unfolding path_ext
cover_format lower cover_path =
    let ext = to_lower lower (path_ext cover_path) in
    if text_eq ext (codes ".jpg") || text_eq ext (codes ".jpeg")
    then codes "jpeg"
    else if text_eq ext (codes ".png")
    then codes "png"
    else []

module _ {T : Type 0} (c : Codecs T) where
  abbrev pub set_decoded :
      EpubBook T → Bytes → Text → Option (Text × ℕ × ℕ) → Option SaveError × EpubBook T
  set_decoded b img want none = (some bad_image, b)
  set_decoded b img want (some (got, width, height)) =
      if not (text_eq got want)
      then (some (wrong_format got want), b)
      else if not (has_entry b.entries b.cover_path)
      then (some (cover_missing b.cover_path), b)
      else (none, record b { cover = some img })

  -- `SetCover`
  unfoldable pub set_cover : (ℕ → ℕ) → EpubBook T → Bytes → Option SaveError × EpubBook T
  unfolding cover_format
  set_cover lower b img =
      if text_eq b.cover_path []
      then (some no_cover, b)
      else if text_eq (cover_format lower b.cover_path) []
      then (some (format_kept b.cover_path), b)
      else set_decoded b img (cover_format lower b.cover_path) (c.decode_config img)
