-- ===== src/Epub/Books/Unmoved.antt =====
-- A book whose fields are those that were read has no field that has moved (`moved` of pkg/epub/save.go).
use ebookfs.Common.{
  ◌≡◌, refl, Bool, true, false, List, [], ◌∷◌, Option, none, some, arith, Text, text_eq,
  text_eq_iff,
}
use ebookfs.Epub.Opf.{Series}
use ebookfs.Epub.Opf.Persons.{OpfAuthor, OpfContributor, entry_eq}
use ebookfs.Epub.Books.{Metadata, all_same, author_eq, same_series, moved_from, changed}

text_self : (s : Text) → text_eq s s ≡ true
text_self s = (text_eq_iff s s).1 refl

all_same_self {ℓ} :
    {A : Type ℓ} (eq : A → A → Bool)
    → ((a : A) → eq a a ≡ true)
    → (xs : List A) → all_same eq xs xs ≡ true
all_same_self eq h [] = refl
all_same_self eq h (x ∷ xs) = rw (h x) (all_same_self eq h xs)

author_self : (a : OpfAuthor) → author_eq a a ≡ true
author_self a = rw (text_self a.name, text_self a.sort_name) refl

entry_self : (a : OpfContributor) → entry_eq a a ≡ true
entry_self a = rw (text_self a.name, text_self a.role) refl

series_self : (s : Option Series) → same_series s s ≡ true
series_self none = refl
series_self (some s) = rw (text_self s.name, text_self s.index) refl

pub changed-moved_from : (m : Metadata) → changed (moved_from m m) ≡ false
unfolding changed moved_from
changed-moved_from m = ground (
  arith,
  text_self m.title,
  text_self m.sort_title,
  all_same_self author_eq author_self m.authors,
  series_self m.series,
  text_self m.description,
  text_self m.language,
  text_self m.publisher,
  text_self m.rights,
  all_same_self text_eq text_self m.subjects,
  all_same_self entry_eq entry_self m.contributors,
)
