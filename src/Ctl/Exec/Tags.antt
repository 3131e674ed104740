-- ===== src/Ctl/Exec/Tags.antt =====
-- The tags of a book after the tag commands of internal/fs/ctl/exec.go.
use ebookfs.Common.{
  ◌≡◌, ◌∙◌, not, ◌&&◌, ◌||◌, List, [], ◌∷◌, Option, none, some, arith, contains, contains-append,
  contains-keep, Text, text_eq, text_eq_iff, text_comparable, Bool-cases, inl, inr,
}
use ebookfs.Book.{Book}
use ebookfs.Book.Edits.{Edits}
use ebookfs.Ctl.Exec.{add_tag, remove_tag, replace_tag, rename_tag}

contains-replace :
    (old new : Text) (tags : List Text) (t : Text)
    → contains (replace_tag old new tags) t
      ≡ ((text_eq new t && contains tags old) || (not (text_eq old t) && contains tags t))
contains-replace old new [] t = ground arith
contains-replace old new (u ∷ tags) t = ground (
  arith,
  contains-replace old new tags t,
  text_eq_iff u old,
  text_eq_iff u t,
  text_eq_iff old t,
  text_eq_iff new t,
)

-- the tags that an edit leaves on a book
abbrev pub tags_after : Book → Option Edits → List Text
tags_after b none = b.meta.tags
tags_after b (some e) = elim e.tags [ none ↦ b.meta.tags | some tags ↦ tags ]

-- After rename-tag a book has the tags that it had but the old one, and the new one if it had the old one:
-- renaming onto a tag that the book has merges the two. Where the new tag is the old one, the book
-- loses it.
pub rename_tag-contains :
    (old new : Text) (b : Book) (t : Text)
    → contains (tags_after b (rename_tag old new b)) t ≡ (
        not (text_eq old t)
        && (contains b.meta.tags t || (text_eq new t && contains b.meta.tags old)))
unfolding rename_tag
rename_tag-contains old new b t = elim (Bool-cases (contains b.meta.tags new)) [
  | inl h ↦ rw h (
      contains-keep (λ u. not (text_eq u old)) b.meta.tags t
      ∙ ground (arith, text_eq_iff new t, text_eq_iff old t, text_eq_iff t old))
  | inr h ↦ rw h (
      contains-replace old new b.meta.tags t
      ∙ ground (arith, text_eq_iff new t, text_eq_iff old t, text_eq_iff old new))
]

-- add-tag and remove-tag leave the other tags alone, set or clear the one they name, and skip a book that
-- is as asked.
pub add_tag-remove_tag :
    (tag : Text) (b : Book) (t : Text)
    → (contains (tags_after b (add_tag tag b)) t ≡ (text_eq tag t || contains b.meta.tags t))
      × (contains (tags_after b (remove_tag tag b)) t
          ≡ (not (text_eq tag t) && contains b.meta.tags t))
unfolding add_tag remove_tag
add_tag-remove_tag tag b t = elim (Bool-cases (contains b.meta.tags tag)) [
  | inl h ↦ rw h (
    ground (arith, text_eq_iff tag t),
    contains-keep (λ u. not (text_eq u tag)) b.meta.tags t
        ∙ ground (arith, text_eq_iff tag t, text_eq_iff t tag),
  )
  | inr h ↦
      rw h
        (contains-append b.meta.tags (tag ∷ []) t ∙ ground arith, ground (arith, text_eq_iff tag t))
]
