-- ===== src/Epub/Vocab/Bindings.antt =====
-- The names that a `prefix` attribute binds: those of the document, the reserved ones, and the one that
-- a declaration adds (pkg/epub/internal/opf/pkgdoc/vocab.go).
use ebookfs.Common.{
  ℕ, zero, suc, ◌+◌, ◌≡◌, ◌≢◌, refl, ap, ◌∙◌, true, false, List, [], ◌∷◌, ◌++◌, Option, none, some,
  arith, ◌==◌, ==_iff, length, Text, text_eq, text_eq_iff, text_comparable, is_space, cut_at, keep,
  contains, Dict, get, put, delete, All, All-append, Bool-cases, Option-cases, inl, inr,
  format_nat-IsDigit, IsDigit, format_nat,
}
use ebookfs.Common.Numbered.{numbered, numbered-injective, first_free-ends}
use ebookfs.Epub.Vocab.{
  reserved_prefixes, cut_suffix, bind, bind_pairs, prefix_fields, bindings, expand, text_ltb,
  min_text, names_of, binds_to, candidates, unbound_name, declared,
}
use ebookfs.Epub.Vocab.Words.{prefix_fields-declared}
use ebookfs.Epub.Vocab.Reserved.{IsColonless, IsEntry, reserved-IsColonless}

cut_at-join :
    (name local : Text)
    → IsColonless name
    → cut_at b':' (name ++ b':' ∷ local) ≡ (name, local, true)
unfolding cut_at
cut_at-join [] local h = refl
cut_at-join (c ∷ name) local h = ground (arith, cut_at-join name local h.1)

pub cut_at-IsColonless : (s : Text) → IsColonless (cut_at b':' s).0
unfolding cut_at
cut_at-IsColonless [] = tt
cut_at-IsColonless (c ∷ s) = elim (Bool-cases (c == b':')) [
  | inl e ↦ rw e tt
  | inr e ↦ rw e ((λ k. absurd (ground arith)), cut_at-IsColonless s)
]

pub expand-bound :
    (name local url : Text) (m : Dict Text Text)
    → IsColonless name
    → get m name ≡ some url
    → expand (name ++ b':' ∷ local) m ≡ url ++ local
unfolding expand
expand-bound name local url m h k = rw (cut_at-join name local h, k) refl

pub expand-cut :
    (name url : Text) (m : Dict Text Text)
    → (cut_at b':' name).2 ≡ true
    → get m (cut_at b':' name).0 ≡ some url
    → expand name m ≡ url ++ (cut_at b':' name).1
unfolding expand
expand-cut name url m h k = rw (h, k) refl

pub expand-uncut :
    (name : Text) (m : Dict Text Text) → (cut_at b':' name).2 ≡ false → expand name m ≡ name
unfolding expand
expand-uncut name m h = rw h refl

cut_suffix-append : (c : ℕ) (s : Text) → cut_suffix c (s ++ c ∷ []) ≡ some s
cut_suffix-append c [] = ground (arith, ==_iff c c)
cut_suffix-append c (x ∷ []) = ground (arith, ==_iff c c)
cut_suffix-append c (x ∷ y ∷ s) = rw (cut_suffix-append c (y ∷ s)) refl

-- every field with a place for its URL, and no colon in a name
abbrev pub IsName : Option Text → Type 0
IsName none = Unit
IsName (some name) = IsColonless name

-- the fields of a `prefix` attribute that is a list of pairs
abbrev pub ArePairs : List Text → Type 0
ArePairs [] = Unit
ArePairs (field ∷ []) = ⊥
ArePairs (field ∷ url ∷ fields) = IsName (cut_suffix b':' field) × ArePairs fields

bind_pairs-append :
    (m : Dict Text Text) (fs : List Text) (field url : Text)
    → ArePairs fs
    → bind_pairs m (fs ++ field ∷ url ∷ []) ≡ bind (bind_pairs m fs) (cut_suffix b':' field) url
bind_pairs-append m [] field url h = refl
bind_pairs-append m (f ∷ []) field url h = absurd h
bind_pairs-append m (f ∷ u ∷ fs) field url h =
    bind_pairs-append (bind m (cut_suffix b':' f) u) fs field url h.1

names_of-delete :
    (m : Dict Text Text) (k : Text)
    → All IsColonless (names_of m)
    → All IsColonless (names_of (delete m k))
unfolding delete
names_of-delete [] k h = tt
names_of-delete ((j, v) ∷ m) k h = elim (Bool-cases (text_eq j k)) [
  | inl e ↦ rw e (names_of-delete m k h.1)
  | inr e ↦ rw e (h.0, names_of-delete m k h.1)
]

names_of-bind :
    (m : Dict Text Text) (name : Option Text) (url : Text)
    → IsName name
    → All IsColonless (names_of m)
    → All IsColonless (names_of (bind m name url))
unfolding put
names_of-bind m none url k h = h
names_of-bind m (some []) url k h = h
names_of-bind m (some (c ∷ name)) url k h = (k, names_of-delete m (c ∷ name) h)

names_of-bind_pairs :
    (m : Dict Text Text) (fs : List Text)
    → ArePairs fs
    → All IsColonless (names_of m)
    → All IsColonless (names_of (bind_pairs m fs))
names_of-bind_pairs m [] k h = h
names_of-bind_pairs m (f ∷ []) k h = h
names_of-bind_pairs m (f ∷ u ∷ fs) k h =
    names_of-bind_pairs (bind m (cut_suffix b':' f) u) fs k.1
      (names_of-bind m (cut_suffix b':' f) u k.0 h)

pub bindings-IsColonless :
    (raw : Text) → ArePairs (prefix_fields raw) → All IsColonless (names_of (bindings raw))
unfolding bindings
bindings-IsColonless raw h =
    names_of-bind_pairs reserved_prefixes (prefix_fields raw) h reserved-IsColonless

contains-names_of :
    (m : Dict Text Text) (k v : Text) → get m k ≡ some v → contains (names_of m) k ≡ true
unfolding get
contains-names_of [] k v e = absurd (cc)
contains-names_of ((j, w) ∷ m) k v e = ground (arith, contains-names_of m k v)

digits-IsColonless : (s : Text) → All IsDigit s → IsColonless s
digits-IsColonless [] h = tt
digits-IsColonless (c ∷ s) h = ((λ e. absurd (ground arith)), digits-IsColonless s h.1)

digits_spaceless : (s : Text) → All IsDigit s → All (λ c. is_space c ≡ false) s
unfolding is_space
digits_spaceless [] h = tt
digits_spaceless (c ∷ s) h = (ground arith, digits_spaceless s h.1)

append-ne-nil : (s t : Text) → s ≢ [] → s ++ t ≢ []
append-ne-nil [] t h = absurd (h refl)
append-ne-nil (c ∷ s) t h = λ e. absurd (cc)

pub numbered-IsEntry :
    (name url : Text) (k : ℕ) → IsEntry name url → IsEntry (numbered name [] k) url
unfolding numbered
numbered-IsEntry name url zero h = h
numbered-IsEntry name url (suc k) h =
    let d = format_nat-IsDigit (k + 2) in
    record {
      name_colons =
          All-append _ name (format_nat (k + 2)) h.name_colons
            (digits-IsColonless (format_nat (k + 2)) d);
      name_spaces =
          All-append _ name (format_nat (k + 2)) h.name_spaces
            (digits_spaceless (format_nat (k + 2)) d);
      name_filled = append-ne-nil name (format_nat (k + 2)) h.name_filled;
      url_word = h.url_word;
    }

-- a name that is not among a dictionary's names is not bound
pub unbound_lem :
    (m : Dict Text Text) (name : Text) → contains (names_of m) name ≡ false → get m name ≡ none
unbound_lem m name free = elim (Option-cases (get m name)) [
  | inl e ↦ e
  | inr (v, e) ↦ absurd (cc (contains-names_of m name v e))
]

-- The loop of `declare` ends with a name that the document does not bind.
pub unbound_name-ends :
    (raw preferred : Text)
    → (k : ℕ) × (unbound_name raw preferred ≡ some (numbered preferred [] k))
      × (get (bindings raw) (numbered preferred [] k) ≡ none)
unfolding unbound_name
unbound_name-ends raw preferred =
    let taken = names_of (bindings raw) in
    let (k, _, found, free) =
      first_free-ends (numbered preferred []) (numbered-injective preferred []) taken
        (suc (length taken)) 0 (omega arith) in
    (k, found, unbound_lem (bindings raw) (numbered preferred [] k) free)

bind_filled :
    (m : Dict Text Text) (name url : Text) → name ≢ [] → bind m (some name) url ≡ put m name url
bind_filled m [] url h = absurd (h refl)
bind_filled m (c ∷ name) url h = refl

-- A declaration binds its name, and leaves the others as they were.
pub bindings-declared :
    (raw name url : Text)
    → ArePairs (prefix_fields raw)
    → IsEntry name url
    → bindings (declared raw name url) ≡ put (bindings raw) name url
unfolding bindings
bindings-declared raw name url h k =
    ap (bind_pairs reserved_prefixes) (prefix_fields-declared raw name url k.name_spaces k.url_word)
    ∙ bind_pairs-append reserved_prefixes (prefix_fields raw) (name ++ b':' ∷ []) url h
    ∙ ap (λ o. bind (bind_pairs reserved_prefixes (prefix_fields raw)) o url)
        (cut_suffix-append b':' name)
    ∙ bind_filled (bind_pairs reserved_prefixes (prefix_fields raw)) name url k.name_filled

pub min_text-All {ℓ} :
    (P : Text → Type ℓ) (a : Text) (names : List Text) → P a → All P names → P (min_text a names)
min_text-All P a [] h k = h
min_text-All P a (b ∷ names) h k = elim (Bool-cases (text_ltb b a)) [
  | inl e ↦ rw e (min_text-All P b names k.0 k.1)
  | inr e ↦ rw e (min_text-All P a names h k.1)
]

pub binds_to_lem :
    (m : Dict Text Text) (url name : Text) → binds_to m url name ≡ true → get m name ≡ some url
binds_to_lem m url name h = elim (Option-cases (get m name)) [
  | inl e ↦ absurd (ground arith)
  | inr (v, e) ↦ ground (arith, text_eq_iff v url)
]

pub candidates-bound :
    (raw url : Text)
    → ArePairs (prefix_fields raw)
    → All (λ n. IsColonless n × (get (bindings raw) n ≡ some url)) (candidates raw url)
unfolding candidates
candidates-bound raw url h = go (names_of (bindings raw)) (bindings-IsColonless raw h)
  where
    go :
        (names : List Text)
        → All IsColonless names
        → All
            (λ n. IsColonless n × (get (bindings raw) n ≡ some url))
            (keep (binds_to (bindings raw) url) names)
    go [] k = tt
    go (n ∷ names) k = elim (Bool-cases (binds_to (bindings raw) url n)) [
      | inl e ↦ rw e ((k.0, binds_to_lem (bindings raw) url n e), go names k.1)
      | inr e ↦ rw e (go names k.1)
    ]
