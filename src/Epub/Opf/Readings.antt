-- ===== src/Epub/Opf/Readings.antt =====
-- field_identifiers.go, field_cover.go, manifest.go, structure.go and `pubdate` of fields.go: what is only
-- read. `lower` is unicode.ToLower, and `resolve` is ResolveHref of pkg/epub/internal/xml, over net/url.
pub mod Schemes
use ebookfs.Common.{
  ℕ, suc, Bool, true, false, not, ◌&&◌, ◌||◌, List, [], ◌∷◌, ◌++◌, map, Option, none, some, ◌==◌,
  if◌then◌else◌, length, Text, text_eq, text_comparable, codes, keep, Dict, get, put, contains,
  cut_at, trim_space, trim_left,
}
use ebookfs.Common.Numbered.{numbered, first_free}
use ebookfs.Epub.Vocab.{has, names_of}
use ebookfs.Epub.Dom.{Etree, Doc, attr_of, select_element, raw_prefix, or_else, tagged}
use ebookfs.Epub.Slots.{
  Slot, Refinement, refine, schemed, unschemed, dc_all, slot_get, slot_id, refine_get,
}
use ebookfs.Epub.Slots.Attrs.{opf_get, named_get}

-- `strings.HasPrefix` and `strings.Contains`
abbrev pub has_prefix : Text → Text → Bool
has_prefix s [] = true
has_prefix [] (c ∷ p) = false
has_prefix (d ∷ s) (c ∷ p) = (d == c) && has_prefix s p

abbrev pub contains_text : Text → Text → Bool
contains_text [] p = text_eq p []
contains_text (c ∷ s) p = has_prefix (c ∷ s) p || contains_text s p

-- the value under the first scheme that finds it
abbrev pub unknown : Text
unknown = codes "unknown"

-- `unusedUnknownScheme`; the loop has one round more than there are schemes.
unfoldable pub unused_unknown_scheme : Dict Text Text → Option Text
unused_unknown_scheme out =
    first_free (names_of out) (numbered unknown (b'-' ∷ [])) (suc (length (names_of out))) 0

abbrev pub onix_identifier_types : Dict Text Text
onix_identifier_types =
    (codes "2", codes "isbn")
    ∷ (codes "3", codes "gtin-13")
    ∷ (codes "4", codes "upc")
    ∷ (codes "5", codes "ismn")
    ∷ (codes "6", codes "doi")
    ∷ (codes "13", codes "lccn")
    ∷ (codes "14", codes "gtin-14")
    ∷ (codes "15", codes "isbn")
    ∷ (codes "17", codes "legal-deposit")
    ∷ (codes "25", codes "ismn")
    ∷ (codes "26", codes "isbn-a")
    ∷ (codes "35", codes "ark")
    ∷ []

-- one identifier: its scheme attribute, the ONIX code and the plain name of its type, value and id
pub record Identifier : Type 0 where
  pub scheme : Text
  pub code : Text
  pub type_name : Text
  pub value : Text
  pub id : Text

module _ (lower : ℕ → ℕ) where
  abbrev pub to_lower : Text → Text
  to_lower s = map lower s

  abbrev pub normalize_scheme : Text → Text
  normalize_scheme s = to_lower (trim_space s)

  -- the text behind `urn:`, in any case
  abbrev pub after_urn : Text → Option Text
  after_urn (u ∷ r ∷ n ∷ colon ∷ rest) =
      if text_eq (to_lower (u ∷ r ∷ n ∷ colon ∷ [])) (codes "urn:") then some rest else none
  after_urn s = none

  abbrev pub nid_in : Text → Option (Text × Text)
  nid_in s =
      let (nid, rest, ok) = cut_at b':' s in
      if ok && not (text_eq nid []) && not (text_eq rest [])
      then some (to_lower nid, rest)
      else none

  unfoldable pub urn_nid : Text → Option (Text × Text)
  urn_nid value = elim (after_urn value) [ none ↦ none | some s ↦ nid_in s ]

  -- the value to keep: a `urn:` prefix that repeats the scheme is dropped
  abbrev pub without_urn : Text → Text → Option (Text × Text) → Text
  without_urn scheme value none = value
  without_urn scheme value (some (nid, rest)) = if text_eq nid scheme then rest else value

  -- the first that is not empty
  abbrev pub first_text : Text → Text → Text
  first_text [] b = b
  first_text (c ∷ a) b = c ∷ a

  abbrev pub nid_or : Option (Text × Text) → Text → Text
  nid_or none id = normalize_scheme id
  nid_or (some (nid, rest)) id = nid

  -- An unschemed name is taken even where it is blank once it is trimmed.
  abbrev pub unschemed_or : Text → Text → Text → Text
  unschemed_or [] value id = nid_or (urn_nid value) id
  unschemed_or (c ∷ s) value id = normalize_scheme (c ∷ s)

  abbrev pub onix_name : Text → Text
  onix_name [] = []
  onix_name (c ∷ code) =
      or_else (get onix_identifier_types (trim_left (λ c. c == b'0') (c ∷ code))) []

  -- `identifierScheme`
  unfoldable pub identifier_scheme : Identifier → Text
  identifier_scheme i =
      let s = normalize_scheme i.scheme in
      if not (text_eq s []) && not (text_eq s (codes "urn"))
      then s
      else first_text (onix_name i.code) (unschemed_or i.type_name i.value i.id)

  abbrev pub scheme_or_unknown : Dict Text Text → Text → Option Text
  scheme_or_unknown out [] = unused_unknown_scheme out
  scheme_or_unknown out (c ∷ s) = some (c ∷ s)

  abbrev pub add_under : Dict Text Text → Text → Option Text → Option Text → Dict Text Text
  add_under out value none taken = out
  add_under out value (some scheme) (some old) = out
  add_under out value (some scheme) none = put out scheme (without_urn scheme value (urn_nid value))

  abbrev pub taken_by : Dict Text Text → Option Text → Option Text
  taken_by out none = none
  taken_by out (some scheme) = get out scheme

  -- one round of the loop of `identifiers`
  unfoldable pub add_identifier : Dict Text Text → Identifier → Dict Text Text
  unfolding unused_unknown_scheme
  add_identifier out i =
      if text_eq i.value []
      then out
      else let scheme = scheme_or_unknown out (identifier_scheme i) in
        add_under out i.value scheme (taken_by out scheme)

  abbrev pub add_identifiers : Dict Text Text → List Identifier → Dict Text Text
  add_identifiers out [] = out
  add_identifiers out (i ∷ is') = add_identifiers (add_identifier out i) is'

  module _ {T : Type 0} (x : Etree T) (d : Doc) where
    abbrev pub identifier_at : T → Slot → Identifier
    identifier_at t el =
        let kind = refine el (codes "identifier-type") in
        record {
          scheme = opf_get x d t el (codes "scheme");
          code = refine_get x d t (schemed kind (codes "onix:codelist5"));
          type_name = refine_get x d t (unschemed kind);
          value = slot_get x d t el;
          id = slot_id x d t el;
        }

    unfoldable pub identifiers : T → Dict Text Text
    unfolding add_identifier
    identifiers t = add_identifiers [] (map (identifier_at t) (dc_all x d t (codes "identifier")))

    -- the loop of `pubdate`, over the dates and their events, with the last untagged date and how many
    abbrev pub pubdate_from : List (Text × Text) → Text → ℕ → Text
    pubdate_from [] untagged count = if count == 1 then untagged else []
    pubdate_from ((value, event) ∷ dates) untagged count =
        let tagged_rest = pubdate_from dates untagged count in
        let untagged_rest = pubdate_from dates value (suc count) in
        if text_eq value []
        then tagged_rest
        else if text_eq (to_lower event) (codes "publication")
        then value
        else if text_eq event []
        then untagged_rest
        else tagged_rest

    unfoldable pub pubdate : T → Text
    pubdate t =
        pubdate_from
          (map (λ s. (slot_get x d t s, opf_get x d t s (codes "event")))
            (dc_all x d t (codes "date")))
          [] 0
