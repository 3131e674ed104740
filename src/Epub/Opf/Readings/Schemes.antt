-- ===== src/Epub/Opf/Readings/Schemes.antt =====
-- No identifier is lost for want of a scheme: the loop of `identifiers` in field_identifiers.go.
use ebookfs.Common.{
  ℕ, suc, ◌≡◌, ◌≢◌, ◌⊎◌, refl, sym, ap, ◌∙◌, true, false, List, [], ◌∷◌, Option, none, some, arith,
  if◌then◌else◌, length, Text, text_eq, text_eq_iff, text_comparable, Dict, get, get-put,
  Bool-cases, inl, inr,
}
use ebookfs.Common.Numbered.{numbered, numbered-injective, first_free-ends}
use ebookfs.Epub.Vocab.{names_of}
use ebookfs.Epub.Vocab.Bindings.{unbound_lem}
use ebookfs.Epub.Opf.Readings.{
  unknown, unused_unknown_scheme, Identifier, urn_nid, without_urn, identifier_scheme,
  scheme_or_unknown, taken_by, add_under, add_identifier, add_identifiers,
}

-- The loop ends with a scheme that has no identifier yet.
pub unused_unknown_scheme-ends :
    (out : Dict Text Text)
    → (scheme : Text) × (unused_unknown_scheme out ≡ some scheme) × (get out scheme ≡ none)
unfolding unused_unknown_scheme
unused_unknown_scheme-ends out =
    let (k, _, found, free) =
      first_free-ends (numbered unknown (b'-' ∷ [])) (numbered-injective unknown (b'-' ∷ []))
        (names_of out) (suc (length (names_of out))) 0 (omega arith) in
    (numbered unknown (b'-' ∷ []) k, found, unbound_lem out (numbered unknown (b'-' ∷ []) k) free)

module _ (lower : ℕ → ℕ) where
  -- what one identifier adds: nothing, where its scheme is taken, and else its value
  add_under-keeps :
      (out : Dict Text Text) (value : Text) (scheme o : Option Text) (k v : Text)
      → taken_by lower out scheme ≡ o
      → get out k ≡ some v
      → get (add_under lower out value scheme o) k ≡ some v
  add_under-keeps out value none o k v e h = h
  add_under-keeps out value (some scheme) (some old) k v e h = h
  add_under-keeps out value (some scheme) none k v e h =
      get-put out scheme (without_urn lower scheme value (urn_nid lower value)) k
      ∙ go (Bool-cases (text_eq scheme k))
    where
      go :
          (text_eq scheme k ≡ true) ⊎ (text_eq scheme k ≡ false)
          → (if text_eq scheme k
              then some (without_urn lower scheme value (urn_nid lower value))
              else get out k)
            ≡ some v
      go (inl q) = absurd (cc (sym e ∙ ap (get out) ((text_eq_iff scheme k).0 q) ∙ h))
      go (inr q) =
          ap
            (λ b.
              if b then some (without_urn lower scheme value (urn_nid lower value)) else get out k)
            q
          ∙ h

  add_identifier-keeps :
      (out : Dict Text Text) (i : Identifier) (k v : Text)
      → get out k ≡ some v
      → get (add_identifier lower out i) k ≡ some v
  unfolding add_identifier
  add_identifier-keeps out i k v h = elim (Bool-cases (text_eq i.value [])) [
    | inl e ↦ rw e h
    | inr e ↦
        let scheme = scheme_or_unknown lower out (identifier_scheme lower i) in
        rw e (add_under-keeps out i.value scheme (taken_by lower out scheme) k v refl h)
  ]

  -- the scheme that an identifier stands under, and whether it is its own
  abbrev pub StandsUnder : Dict Text Text → Text → Dict Text Text → Type 0
  StandsUnder out own after =
      (scheme : Text) × (value : Text) × (get after scheme ≡ some value)
      × ((own ≡ scheme) ⊎ ((own ≡ []) × (get out scheme ≡ none)))

  add_under-stands :
      (out : Dict Text Text) (value scheme : Text) (o : Option Text)
      → get out scheme ≡ o
      → (v : Text) × (get (add_under lower out value (some scheme) o) scheme ≡ some v)
  add_under-stands out value scheme (some old) e = (old, e)
  add_under-stands out value scheme none e = (
    without_urn lower scheme value (urn_nid lower value),
    get-put out scheme (without_urn lower scheme value (urn_nid lower value)) scheme
        ∙ rw ((text_eq_iff scheme scheme).1 refl) refl,
  )

  stands :
      (out : Dict Text Text) (value own : Text)
      → StandsUnder out own (
          add_under lower out value
            (scheme_or_unknown lower out own)
            (taken_by lower out (scheme_or_unknown lower out own)))
  stands out value (c ∷ own) =
      let (v, e) = add_under-stands out value (c ∷ own) (get out (c ∷ own)) refl in
      (c ∷ own, v, e, inl refl)
  stands out value [] =
      let (scheme, found, free) = unused_unknown_scheme-ends out in
      let (v, e) = add_under-stands out value scheme (get out scheme) refl in
      (scheme, v, rw found e, inr (refl, free))

  add_identifier-stands :
      (out : Dict Text Text) (i : Identifier)
      → i.value ≢ []
      → StandsUnder out (identifier_scheme lower i) (add_identifier lower out i)
  unfolding add_identifier
  add_identifier-stands out i h =
      let filled : text_eq i.value [] ≡ false = ground (arith, text_eq_iff i.value []) in
      rw filled (stands out i.value (identifier_scheme lower i))

  pub add_identifiers-keeps :
      (out : Dict Text Text) (ids : List Identifier) (k v : Text)
      → get out k ≡ some v
      → get (add_identifiers lower out ids) k ≡ some v
  add_identifiers-keeps out [] k v h = h
  add_identifiers-keeps out (i ∷ ids) k v h =
      add_identifiers-keeps (add_identifier lower out i) ids k v (add_identifier-keeps out i k v h)

  pub add_identifiers-StandsUnder :
      (out : Dict Text Text) (i : Identifier) (ids : List Identifier)
      → i.value ≢ []
      → StandsUnder out (identifier_scheme lower i) (add_identifiers lower out (i ∷ ids))
        × ((k v : Text) → get out k ≡ some v → get (add_identifiers lower out (i ∷ ids)) k ≡ some v)
  add_identifiers-StandsUnder out i ids h =
      let (scheme, v, there, whose) = add_identifier-stands out i h in
      (
        (scheme, v, add_identifiers-keeps (add_identifier lower out i) ids scheme v there, whose),
        add_identifiers-keeps out (i ∷ ids),
      )
