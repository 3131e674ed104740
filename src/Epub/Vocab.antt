-- ===== src/Epub/Vocab.antt =====
-- pkg/epub/internal/opf/pkgdoc/vocab.go: property names, and the prefixes that <package> binds. `raw` is
-- the value of the `prefix` attribute, empty where the attribute is missing.
pub mod Words
pub mod Reserved
pub mod Bindings
pub mod Spelling
use ebookfs.Common.{
  ℕ, suc, ◌<◌, ◌≡◌, Bool, true, false, ◌&&◌, not, List, [], ◌∷◌, ◌++◌, map, Option, none, some,
  if◌then◌else◌, ◌==◌, ltb, length, Text, text_eq, text_comparable, codes, is_space, fields_by,
  join, cut_at, keep, any, Dict, get, put,
}
use ebookfs.Common.Numbered.{numbered, first_free}

-- `Collapse` of pkg/epub/internal/xml
unfoldable pub collapse : Text → Text
unfolding is_space fields_by join
collapse s = join (fields_by is_space s) (32 ∷ [])

abbrev pub reserved_prefixes : Dict Text Text
reserved_prefixes =
    (codes "a11y", codes "http://www.idpf.org/epub/vocab/package/a11y/#")
    ∷ (codes "dcterms", codes "http://purl.org/dc/terms/")
    ∷ (codes "marc", codes "http://id.loc.gov/vocabulary/")
    ∷ (codes "media", codes "http://www.idpf.org/epub/vocab/overlays/#")
    ∷ (codes "onix", codes "http://www.editeur.org/ONIX/book/codelists/current.html#")
    ∷ (codes "rendition", codes "http://www.idpf.org/vocab/rendition/#")
    ∷ (codes "schema", codes "http://schema.org/")
    ∷ (codes "xsd", codes "http://www.w3.org/2001/XMLSchema#")
    ∷ []

-- `strings.CutSuffix` at one character
abbrev pub cut_suffix : ℕ → Text → Option Text
cut_suffix c [] = none
cut_suffix c (x ∷ s) = elim s [
  | [] ↦ if x == c then some [] else none
  | y ∷ t ↦ elim (cut_suffix c s) [ none ↦ none | some r ↦ some (x ∷ r) ]
]

-- one round of the loop over the pairs: a field that is no name with a colon binds nothing
abbrev pub bind : Dict Text Text → Option Text → Text → Dict Text Text
bind m none url = m
bind m (some []) url = m
bind m (some (c ∷ name)) url = put m (c ∷ name) url

abbrev pub bind_pairs : Dict Text Text → List Text → Dict Text Text
bind_pairs m [] = m
bind_pairs m (field ∷ []) = m
bind_pairs m (field ∷ url ∷ fields) = bind_pairs (bind m (cut_suffix b':' field) url) fields

abbrev pub prefix_fields : Text → List Text
prefix_fields raw = fields_by is_space (collapse raw)

unfoldable pub bindings : Text → Dict Text Text
bindings raw = bind_pairs reserved_prefixes (prefix_fields raw)

abbrev pub bound_local : Text → Text → Option Text → Text
bound_local name local none = name
bound_local name local (some url) = url ++ local

unfoldable pub expand : Text → Dict Text Text → Text
expand name m =
    let (prefix, local, found) = cut_at b':' name in
    if found then bound_local name local (get m prefix) else name

-- `vocab.Same`
unfoldable pub same_property : Text → Text → Text → Bool
same_property raw in_doc ours =
    text_eq (expand in_doc (bindings raw)) (expand ours reserved_prefixes)

-- `vocab.has`
unfoldable pub has : Text → Text → Text → Bool
has raw list want = any (λ token. same_property raw token want) (fields_by is_space list)

-- Go's `<` on strings
abbrev pub text_ltb : Text → Text → Bool
text_ltb [] [] = false
text_ltb [] (d ∷ t) = true
text_ltb (c ∷ s) [] = false
text_ltb (c ∷ s) (d ∷ t) = if c == d then text_ltb s t else ltb c d

-- `slices.Min` of a first name and more
abbrev pub min_text : Text → List Text → Text
min_text a [] = a
min_text a (b ∷ names) = min_text (if text_ltb b a then b else a) names

abbrev pub names_of : Dict Text Text → List Text
names_of [] = []
names_of ((name, url) ∷ m) = name ∷ names_of m

abbrev pub binds_to : Dict Text Text → Text → Text → Bool
binds_to m url name = elim (get m name) [ none ↦ false | some bound ↦ text_eq bound url ]

-- the names that are bound to the vocabulary
unfoldable pub candidates : Text → Text → List Text
candidates raw url = keep (binds_to (bindings raw) url) (names_of (bindings raw))

-- the loop of `declare`, with one round more than there are names
unfoldable pub unbound_name : Text → Text → Option Text
unbound_name raw preferred =
    let taken = names_of (bindings raw) in
    first_free taken (numbered preferred []) (suc (length taken)) 0

abbrev pub with_declaration : Text → Text → Text
with_declaration [] decl = decl
with_declaration (c ∷ s) decl = (c ∷ s) ++ (32 ∷ decl)

abbrev pub declared : Text → Text → Text → Text
declared raw name url = with_declaration (collapse raw) (name ++ (b':' ∷ 32 ∷ url))

-- the prefix attribute after the declaration; `none` where the loop has not ended
abbrev pub declare_as : Text → Text → Option Text → Option (Text × Text)
declare_as raw url none = none
declare_as raw url (some name) = some (name, declared raw name url)

unfoldable pub declare : Text → Text → Text → Option (Text × Text)
unfolding unbound_name
declare raw preferred url = declare_as raw url (unbound_name raw preferred)

abbrev pub with_local : Text → Option (Text × Text) → Option (Text × Text)
with_local local none = none
with_local local (some (name, raw')) = some (name ++ (b':' ∷ local), raw')

abbrev pub spell_bound : Text → Text → Text → Text → List Text → Option (Text × Text)
spell_bound raw prefix local url [] = with_local local (declare raw prefix url)
spell_bound raw prefix local url (name ∷ names) = some (min_text name names ++ (b':' ∷ local), raw)

-- a vocabulary that is known, and that the document may have given another name
abbrev pub spell_known : Text → Text → Text → Text → Option Text → Option (Text × Text)
spell_known raw ours prefix local none = some (ours, raw)
spell_known raw ours prefix local (some url) =
    if binds_to (bindings raw) url prefix
    then some (ours, raw)
    else spell_bound raw prefix local url (candidates raw url)

-- the name to write, and the prefix attribute
unfoldable pub spell : Text → Text → Option (Text × Text)
spell raw ours =
    let (prefix, local, found) = cut_at b':' ours in
    if found
    then spell_known raw ours prefix local (get reserved_prefixes prefix)
    else some (ours, raw)
