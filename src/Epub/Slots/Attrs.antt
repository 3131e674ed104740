-- ===== src/Epub/Slots/Attrs.antt =====
-- The values that are attributes (pkg/epub/internal/opf/pkgdoc/slot.go): `OPFAttr`, of an element, and `Named`,
-- of a meta that is found by its name.
use ebookfs.Common.{ℕ, Bool, [], ◌∷◌, Option, none, some, Text, codes}
use ebookfs.Epub.Dom.{
  Etree, Doc, attr_of, create_element, meta_parent, named, opf_prefix, detach_all,
}
use ebookfs.Epub.Slots.{Slot, is_some, first_of, ensure, bound}

module _ {T : Type 0} (x : Etree T) (d : Doc) where
  -- OPFAttr, by the owner and the attribute's name
  abbrev pub opf_get : T → Slot → Text → Text
  opf_get t s name = elim s.el [ none ↦ [] | some e ↦ attr_of x t e name ]

  unfoldable pub opf_set : T → Slot → Text → Text → Slot × T
  unfolding ensure
  opf_set t s name value =
      let (e, t1) = ensure x d t s in
      elim (x.attr t1 e name) [
        | some old ↦ (bound x d s e, x.set_value t1 e name value)
        | none ↦
            let (space, t2) = opf_prefix x d t1 in
            (bound x d s e, x.create_attr t2 e space name value)
      ]

  abbrev pub opf_clear_at : T → ℕ → Text → Option Text → T
  opf_clear_at t e name none = t
  opf_clear_at t e name (some old) = x.remove_attr t e name

  unfoldable pub opf_clear : T → Slot → Text → T
  opf_clear t s name = elim s.el [ none ↦ t | some e ↦ opf_clear_at t e name (x.attr t e name) ]

  abbrev pub opf_put : T → Slot → Text → Text → Slot × T
  opf_put t s name [] = (s, opf_clear t s name)
  opf_put t s name (c ∷ value) = opf_set t s name (c ∷ value)

  -- Named
  unfoldable pub named_get : T → Text → Text
  named_get t name = elim (named x d t name) [ [] ↦ [] | m ∷ ms ↦ attr_of x t m (codes "content") ]

  abbrev pub named_exists : T → Text → Bool
  named_exists t name = is_some (first_of x d (named x d t name))

  unfoldable pub named_set : T → Text → Text → T
  named_set t name value = elim (named x d t name) [
    | m ∷ ms ↦ x.create_attr t m [] (codes "content") value
    | [] ↦
        let (p, t1) = meta_parent x d t in
        let (m, t2) = create_element x d t1 p (codes "meta") in
        x.create_attr (x.create_attr t2 m [] (codes "name") name) m [] (codes "content") value
  ]

  unfoldable pub named_clear : T → Text → T
  named_clear t name = detach_all x d t (named x d t name)

  abbrev pub named_put : T → Text → Text → T
  named_put t name [] = named_clear t name
  named_put t name (c ∷ value) = named_set t name (c ∷ value)
