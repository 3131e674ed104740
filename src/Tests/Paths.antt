-- ===== src/Tests/Paths.antt =====
-- internal/util/naming/naming.go and pkg/library/internal/store/path.go at concrete names.
use ebookfs.Common.{
  ℕ, ◌≡◌, refl, Bool, true, false, List, [], ◌∷◌, Option, none, some, all, arith, Text, codes, ℤ,
  pos, int64_bound,
}
use ebookfs.Naming.{path_safe, for_fat}
use ebookfs.Naming.Safety.{IsComponent, IsFatName, path_safe-IsComponent, for_fat-IsFatName}
use ebookfs.Book.{Author}
use ebookfs.Store.Paths.{canonical_dir, id_from_path, epub_filename}
use ebookfs.Store.Paths.IdRoundTrip.{id_from_path-canonical_dir}

abbrev slashed : Text
slashed = codes "../AC/DC: \"Live\"?. "

slashed_path : path_safe slashed ≡ codes "-AC-DC: \"Live\"?"
unfolding path_safe
slashed_path = refl

slashed_fat : for_fat slashed ≡ codes "-AC-DC- -Live--"
unfolding for_fat
slashed_fat = refl

path_safe-IsComponent_example : IsComponent (path_safe slashed)
path_safe-IsComponent_example = path_safe-IsComponent slashed

for_fat-IsFatName_example : IsFatName (for_fat slashed)
for_fat-IsFatName_example = for_fat-IsFatName slashed

abbrev writers : List Author
writers =
    record { id = pos 1; name = codes "Terry Pratchett"; sort_name = [] }
    ∷ record { id = pos 2; name = codes "Neil Gaiman"; sort_name = [] }
    ∷ []

omens_dir :
    canonical_dir writers (codes "Good Omens (2)") (pos 42)
    ≡ codes "Terry Pratchett & Neil Gaiman/Good Omens (2) (42)"
unfolding canonical_dir ebookfs.FilePath.join_path path_safe ebookfs.Book.join_authors
    ebookfs.Common.format_int
omens_dir = refl

omens_file :
    epub_filename writers (codes "Good Omens")
    ≡ codes "Good Omens - Terry Pratchett & Neil Gaiman.epub"
unfolding epub_filename for_fat ebookfs.Book.join_authors ebookfs.Common.join
omens_file = refl

no_id : id_from_path (codes "Someone/A Book (0)") ≡ none
unfolding id_from_path ebookfs.FilePath.base ebookfs.Common.parse_int
no_id = refl

id_from_path-canonical_dir_example :
    id_from_path (canonical_dir writers (codes "Good Omens (2)") (pos 42)) ≡ some (pos 42)
id_from_path-canonical_dir_example =
    id_from_path-canonical_dir writers (codes "Good Omens (2)") 42 (omega arith) (omega arith)
