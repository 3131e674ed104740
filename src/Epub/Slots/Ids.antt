-- ===== src/Epub/Slots/Ids.antt =====
-- `ensureID` of etree.go gives an element an id that no other has.
use ebookfs.Common.{
  ℕ, suc, ◌≡◌, refl, false, [], ◌∷◌, some, arith, length, Text, codes, contains, text_comparable,
}
use ebookfs.Common.Numbered.{numbered, numbered-injective, first_free-ends}
use ebookfs.Epub.Dom.{Etree, Doc, attr_of, ids_of, ensure_id}

module _ {T : Type 0} (x : Etree T) (d : Doc) where
  -- An element without an id gets one, the stem or the stem with a number, that no element of the
  -- document has; the id is written to the element's attribute.
  pub ensure_id-fresh :
      (t : T) (e : ℕ) (stem : Text)
      → attr_of x t e (codes "id") ≡ []
      → (k : ℕ) × (contains (ids_of x d t) (numbered stem (b'-' ∷ []) k) ≡ false)
        × (ensure_id x d t e stem ≡ (
          some (numbered stem (b'-' ∷ []) k),
          x.create_attr t e [] (codes "id") (numbered stem (b'-' ∷ []) k),
        ))
  unfolding ensure_id
  ensure_id-fresh t e stem none_yet =
      let (k, _, found, free) =
        first_free-ends (numbered stem (b'-' ∷ [])) (numbered-injective stem (b'-' ∷ []))
          (ids_of x d t) (suc (length (ids_of x d t))) 0 (omega arith) in
      (k, free, rw (none_yet, found) refl)
