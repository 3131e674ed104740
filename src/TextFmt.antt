-- ===== src/TextFmt.antt =====
-- internal/fs/textfmt: the text formats of the 9P surface.
pub mod Query
use ebookfs.Common.{ℕ, Bool, true, false, List, [], ◌∷◌, Text, codes, trim_space, cut_at, ℤ, pos}
use ebookfs.Book.{Author}

-- textfmt.go
unfoldable pub parse_author : Text → Author
parse_author spec =
    let (name, sort_name, found) = cut_at b'|' spec in
    record { id = pos 0; name = trim_space name; sort_name = trim_space sort_name }
