-- ===== src/Epub/Vocab/Spelling.antt =====
-- What the document calls a property: `spell` of pkg/epub/internal/opf/pkgdoc/vocab.go against `Same`.
use ebookfs.Common.{
  ◌≡◌, ◌⊎◌, refl, sym, ap, ◌∙◌, true, false, List, [], ◌∷◌, ◌++◌, Option, some, arith, Text,
  text_eq_iff, text_comparable, cut_at, get, get-put, All, Bool-cases, inl, inr,
}
use ebookfs.Common.Numbered.{numbered}
use ebookfs.Epub.Vocab.{
  reserved_prefixes, prefix_fields, bindings, expand, same_property, min_text, binds_to, candidates,
  declared, declare, spell_bound, spell_known, spell,
}
use ebookfs.Epub.Vocab.Reserved.{IsColonless, reserved-IsEntry}
use ebookfs.Epub.Vocab.Bindings.{
  expand-bound, expand-cut, expand-uncut, ArePairs, numbered-IsEntry, unbound_name-ends,
  bindings-declared, min_text-All, binds_to_lem, candidates-bound,
}

-- a name without a prefix, or with a reserved one
abbrev pub IsKnown : Text → Type 0
IsKnown ours =
    ((cut_at b':' ours).2 ≡ false)
    ⊎ (((cut_at b':' ours).2 ≡ true)
        × (url : Text) × (get reserved_prefixes (cut_at b':' ours).0 ≡ some url))

-- the name, and the prefix attribute that goes with it
pub record IsSpelled (raw ours name raw' : Text) : Type 0 where
  pub same : same_property raw' name ours ≡ true
  pub kept : (p u : Text) → get (bindings raw) p ≡ some u → get (bindings raw') p ≡ some u

abbrev Spells : Text → Text → Option (Text × Text) → Type 0
Spells raw ours o =
    (name : Text) × (raw' : Text) × (o ≡ some (name, raw')) × IsSpelled raw ours name raw'

same_of :
    (raw in_doc ours : Text)
    → expand in_doc (bindings raw) ≡ expand ours reserved_prefixes
    → same_property raw in_doc ours ≡ true
unfolding same_property
same_of raw in_doc ours e = (text_eq_iff _ _).1 e

-- it is bound as it is bound in this package
same-own :
    (raw ours url : Text)
    → (cut_at b':' ours).2 ≡ true
    → get reserved_prefixes (cut_at b':' ours).0 ≡ some url
    → get (bindings raw) (cut_at b':' ours).0 ≡ some url
    → same_property raw ours ours ≡ true
same-own raw ours url cut ours_bound bound = same_of raw ours ours (
    expand-cut ours url (bindings raw) cut bound
    ∙ sym (expand-cut ours url reserved_prefixes cut ours_bound))

same-other :
    (raw ours name url : Text)
    → (cut_at b':' ours).2 ≡ true
    → get reserved_prefixes (cut_at b':' ours).0 ≡ some url
    → IsColonless name
    → get (bindings raw) name ≡ some url
    → same_property raw (name ++ b':' ∷ (cut_at b':' ours).1) ours ≡ true
same-other raw ours name url cut ours_bound free bound =
    same_of raw (name ++ b':' ∷ (cut_at b':' ours).1) ours (
      expand-bound name (cut_at b':' ours).1 url (bindings raw) free bound
      ∙ sym (expand-cut ours url reserved_prefixes cut ours_bound))

module _ (raw ours url : Text) (cut : (cut_at b':' ours).2 ≡ true)
    (reserved : get reserved_prefixes (cut_at b':' ours).0 ≡ some url)
    (pairs : ArePairs (prefix_fields raw)) where
  abbrev own_prefix : Text
  own_prefix = (cut_at b':' ours).0

  abbrev own_local : Text
  own_local = (cut_at b':' ours).1

  Spells-declared : Spells raw ours (spell_bound raw own_prefix own_local url [])
  unfolding declare
  Spells-declared =
      let (k, found, free) = unbound_name-ends raw own_prefix in
      let name = numbered own_prefix [] k in
      let entry = numbered-IsEntry own_prefix url k (reserved-IsEntry own_prefix url reserved) in
      let after = bindings-declared raw name url pairs entry in
      (
        name ++ b':' ∷ own_local,
        declared raw name url,
        rw found refl,
        record {
          same = same-other (declared raw name url) ours name url cut reserved entry.name_colons (
              ap (λ m. get m name) after
              ∙ get-put (bindings raw) name url name
              ∙ rw ((text_eq_iff name name).1 refl) refl);
          kept = λ p u h.
              ap (λ m. get m p) after
              ∙ get-put (bindings raw) name url p
              ∙ ground (arith, text_eq_iff name p);
        },
      )

  Spells-candidate :
      (names : List Text)
      → All (λ n. IsColonless n × (get (bindings raw) n ≡ some url)) names
      → Spells raw ours (spell_bound raw own_prefix own_local url names)
  Spells-candidate [] h = Spells-declared
  Spells-candidate (n ∷ names) h =
      let (free, bound) =
        min_text-All (λ n. IsColonless n × (get (bindings raw) n ≡ some url)) n names h.0 h.1 in
      (
        min_text n names ++ b':' ∷ own_local,
        raw,
        refl,
        record {
          same = same-other raw ours (min_text n names) url cut reserved free bound;
          kept = λ p u h. h;
        },
      )

  Spells-known : Spells raw ours (spell_known raw ours own_prefix own_local (some url))
  Spells-known = elim (Bool-cases (binds_to (bindings raw) url own_prefix)) [
    | inl e ↦ rw e (
      ours,
      raw,
      refl,
      record {
        same = same-own raw ours url cut reserved (binds_to_lem (bindings raw) url own_prefix e);
        kept = λ p u h. h;
      },
    )
    | inr e ↦ rw e (Spells-candidate (candidates raw url) (candidates-bound raw url pairs))
  ]

-- A name that `spell` returns is read back as the property that was meant, where the document's prefix
-- attribute is a list of pairs with no colon inside a name; it always returns one, and a declaration
-- that it adds leaves every prefix of the document bound as it was.
pub spell-IsSpelled :
    (raw ours : Text)
    → ArePairs (prefix_fields raw)
    → IsKnown ours
    → (name : Text) × (raw' : Text) × (spell raw ours ≡ some (name, raw'))
      × IsSpelled raw ours name raw'
unfolding spell
spell-IsSpelled raw ours pairs (inl uncut) = (
  ours,
  raw,
  rw uncut refl,
  record {
    same =
        same_of raw ours ours (
          expand-uncut ours (bindings raw) uncut ∙ sym (expand-uncut ours reserved_prefixes uncut));
    kept = λ p u h. h;
  },
)
spell-IsSpelled raw ours pairs (inr (cut, url, reserved)) =
    rw (cut, reserved) (Spells-known raw ours url cut reserved pairs)
