-- ===== src/FieldFiles/Lists.antt =====
-- The files `tags` and `subjects` of internal/fs/book/fields.go.
use ebookfs.Common.{
  ◌≡◌, ◌≢◌, refl, ap, ◌∙◌, false, List, [], ◌∷◌, some, All, Text, join, fields_by, fields_one,
  fields_more,
}
use ebookfs.Book.{Book}
use ebookfs.Book.Edits.{no_edits}
use ebookfs.FieldFiles.{FloatText, Field, newline, is_newline, get_field, edits_of}

-- a line with a rune in it
abbrev pub IsLine : Text → Type 0
IsLine t = (t ≢ []) × All (λ c. is_newline c ≡ false) t

fields_join :
    (t : Text) (ts : List Text)
    → All IsLine (t ∷ ts)
    → fields_by is_newline (join (t ∷ ts) newline) ≡ t ∷ ts
unfolding join
fields_join t [] h = fields_one is_newline t h.0.0 h.0.1
fields_join t (u ∷ ts) h =
    fields_more is_newline t 10 (join (u ∷ ts) newline) h.0.0 h.0.1 refl
    ∙ ap (λ l. t ∷ l) (fields_join u ts h.1)

fields_lines : (ts : List Text) → All IsLine ts → fields_by is_newline (join ts newline) ≡ ts
unfolding join fields_by
fields_lines [] h = refl
fields_lines (t ∷ ts) h = fields_join t ts h

-- What is read from a book's tags file, or its subjects file, and written back sets exactly the tags, or
-- subjects, that the book has, if each of them is a line that is not empty.
pub edits_of-get_field :
    (f : FloatText) (b : Book)
    → All IsLine b.meta.tags
    → All IsLine b.bib.subjects
    → (edits_of f Field.tags (get_field f Field.tags b)
        ≡ some (record no_edits { tags = some b.meta.tags }))
      × (edits_of f Field.subjects (get_field f Field.subjects b)
          ≡ some (record no_edits { subjects = some b.bib.subjects }))
unfolding edits_of get_field
edits_of-get_field f b h k = (
  ap (λ l. some (record no_edits { tags = some l })) (fields_lines b.meta.tags h),
  ap (λ l. some (record no_edits { subjects = some l })) (fields_lines b.bib.subjects k),
)
