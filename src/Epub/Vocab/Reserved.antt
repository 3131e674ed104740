-- ===== src/Epub/Vocab/Reserved.antt =====
-- The reserved prefixes of pkg/epub/internal/opf/pkgdoc/vocab.go, whose names and URLs are words.
use ebookfs.Common.{
  ◌≡◌, ◌≢◌, refl, subst, Bool, true, false, not, ◌&&◌, [], ◌∷◌, some, arith, ◌==◌, ==_iff, Text,
  text_eq, text_eq_iff, text_comparable, is_space, all, Dict, get, All, Bool-cases, inl, inr,
}
use ebookfs.Epub.Vocab.{reserved_prefixes, names_of}
use ebookfs.Epub.Vocab.Words.{IsWord}

-- no colon is in it
abbrev pub IsColonless : Text → Type 0
IsColonless s = All (λ c. c ≢ b':') s

-- a test that holds of a whole table holds of what is looked up
get_checked :
    (test : Text → Text → Bool) (m : Dict Text Text) (k v : Text)
    → all (λ e. test e.0 e.1) m ≡ true
    → get m k ≡ some v
    → test k v ≡ true
unfolding get
get_checked test [] k v h e = absurd (cc)
get_checked test ((j, w) ∷ m) k v h e = elim (Bool-cases (text_eq j k)) [
  | inl t ↦
      let same_key : j ≡ k = (text_eq_iff j k).0 t in
      let same_value : w ≡ v = ground arith in
      subst (λ v. test k v ≡ true) same_value (subst (λ k. test k w ≡ true) same_key (ground arith))
  | inr f ↦ get_checked test m k v (ground arith) (ground arith)
]

colonless : Text → Bool
colonless s = all (λ c. not (c == b':')) s

spaceless : Text → Bool
spaceless s = all (λ c. not (is_space c)) s

colonless_lem : (s : Text) → colonless s ≡ true → IsColonless s
unfolding colonless
colonless_lem [] h = tt
colonless_lem (c ∷ s) h =
    ((λ e. absurd (ground (arith, ==_iff c b':'))), colonless_lem s (ground arith))

spaceless_lem : (s : Text) → spaceless s ≡ true → All (λ c. is_space c ≡ false) s
unfolding spaceless
spaceless_lem [] h = tt
spaceless_lem (c ∷ s) h = (ground arith, spaceless_lem s (ground arith))

abbrev filled : Text → Bool
filled [] = false
filled (c ∷ s) = true

filled_lem : (s : Text) → filled s ≡ true → s ≢ []
filled_lem [] h = absurd (cc)
filled_lem (c ∷ s) h = λ e. absurd (cc)

entry_ok : Text → Text → Bool
entry_ok name url = colonless name && spaceless name && spaceless url && filled url && filled name

reserved_ok : all (λ e. entry_ok e.0 e.1) reserved_prefixes ≡ true
unfolding entry_ok colonless spaceless is_space
reserved_ok = refl

pub record IsEntry (name url : Text) : Type 0 where
  pub name_colons : IsColonless name
  pub name_spaces : All (λ c. is_space c ≡ false) name
  pub name_filled : name ≢ []
  pub url_word : IsWord url

pub reserved-IsEntry : (name url : Text) → get reserved_prefixes name ≡ some url → IsEntry name url
unfolding entry_ok
reserved-IsEntry name url e =
    let ok = get_checked entry_ok reserved_prefixes name url reserved_ok e in
    record {
      name_colons = colonless_lem name (ground arith);
      name_spaces = spaceless_lem name (ground arith);
      name_filled = filled_lem name (ground arith);
      url_word = (filled_lem url (ground arith), spaceless_lem url (ground arith));
    }

names_checked :
    (m : Dict Text Text) → all (λ e. entry_ok e.0 e.1) m ≡ true → All IsColonless (names_of m)
unfolding entry_ok
names_checked [] h = tt
names_checked ((name, url) ∷ m) h =
    (colonless_lem name (ground arith), names_checked m (ground arith))

pub reserved-IsColonless : All IsColonless (names_of reserved_prefixes)
reserved-IsColonless = names_checked reserved_prefixes reserved_ok
