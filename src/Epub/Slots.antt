-- ===== src/Epub/Slots.antt =====
-- pkg/epub/internal/opf/pkgdoc/slot.go and docslots.go: the places where the document keeps a value. A slot
-- whose element is made by a write is returned with it.
pub mod Attrs
pub mod Dc
pub mod Holds
pub mod Ids
use ebookfs.Common.{
  ℕ, zero, suc, Bool, true, false, not, ◌&&◌, ◌||◌, List, [], ◌∷◌, ◌++◌, map, Option, none, some,
  ◌==◌, if◌then◌else◌, Text, text_eq, codes, keep,
}
use ebookfs.Epub.Dom.{
  Etree, Doc, text_of, attr_of, children, dc_parent, create_element, meta_parent, primary, named,
  opf_prefix, dc_prefix, same_as, spell_in, refine_elements, add_refine, detach_all,
  remove_refinements, ensure_id,
}

-- what `newEl` and `parent` of an `Element` do
pub data Kind : Type 0 where
  dc : Text → Kind
  property_meta : Text → Kind

-- `Element`; `el` is none for an element that the first write makes.
pub record Slot : Type 0 where
  pub kind : Kind
  pub el : Option ℕ
  pub id_prefix : Text

abbrev pub is_some {ℓ} : {A : Type ℓ} → Option A → Bool
is_some none = false
is_some (some a) = true

abbrev pub node_eq : Option ℕ → Option ℕ → Bool
node_eq none o = false
node_eq (some a) none = false
node_eq (some a) (some b) = a == b

-- `Same`
abbrev pub same_slot : Slot → Slot → Bool
same_slot s other = node_eq s.el other.el

abbrev pub dc_slot : Text → Option ℕ → Slot
dc_slot tag el = record { kind = dc tag; el = el; id_prefix = codes "ebookfs-" ++ tag }

abbrev pub meta_slot : Text → Text → Option ℕ → Slot
meta_slot property id_prefix el = record {
  kind = property_meta property;
  el = el;
  id_prefix = id_prefix;
}

-- `Refine`, with what narrows it
pub record Refinement : Type 0 where
  pub owner : Slot
  pub property : Text
  pub unschemed_only : Bool
  pub schemed_as : Text

abbrev pub refine : Slot → Text → Refinement
refine s property = record {
  owner = s;
  property = property;
  unschemed_only = false;
  schemed_as = [];
}

abbrev pub unschemed : Refinement → Refinement
unschemed r = record r { unschemed_only = true; schemed_as = [] }

abbrev pub schemed : Refinement → Text → Refinement
schemed r scheme = record r { unschemed_only = false; schemed_as = scheme }

module _ {T : Type 0} (x : Etree T) (d : Doc) where
  -- docslots.go
  abbrev pub dc_of : T → Text → Slot
  dc_of t tag = dc_slot tag (primary x d t tag)

  abbrev pub dc_all : T → Text → List Slot
  dc_all t tag = map (λ e. dc_slot tag (some e)) (children x d t tag)

  abbrev pub of_property : T → Text → List ℕ
  of_property t property =
      keep (λ m. same_as x d t (attr_of x t m (codes "property")) property)
        (children x d t (codes "meta"))

  abbrev pub first_of : List ℕ → Option ℕ
  first_of [] = none
  first_of (m ∷ ms) = some m

  abbrev pub unrefined_meta : T → Text → Slot
  unrefined_meta t property =
      meta_slot property [] (
        first_of
          (keep (λ m. text_eq (attr_of x t m (codes "refines")) []) (of_property t property)))

  abbrev pub property_metas : T → Text → Text → List Slot
  property_metas t property id_prefix =
      map (λ m. meta_slot property id_prefix (some m)) (of_property t property)

  -- Element
  abbrev pub slot_get : T → Slot → Text
  slot_get t s = elim s.el [ none ↦ [] | some e ↦ text_of x t e ]

  abbrev pub slot_id : T → Slot → Text
  slot_id t s = elim s.el [ none ↦ [] | some e ↦ attr_of x t e (codes "id") ]

  abbrev pub new_el : T → Kind → ℕ × T
  new_el t (dc tag) = let (space, t') = dc_prefix x d t in x.new_element t' space tag
  new_el t (property_meta property) =
      let (m, t1) = x.new_element t [] (codes "meta") in
      let (name, t2) = spell_in x d t1 property in
      (m, x.create_attr t2 m [] (codes "property") name)

  abbrev pub parent : T → Kind → ℕ × T
  parent t (dc tag) = (dc_parent x d t, t)
  parent t (property_meta property) = meta_parent x d t

  abbrev pub ensure_el : T → Kind → Option ℕ → ℕ × T
  ensure_el t kind (some e) = (e, t)
  ensure_el t kind none =
      let (e, t1) = new_el t kind in let (p, t2) = parent t1 kind in (e, x.add_child t2 p e)

  unfoldable pub ensure : T → Slot → ℕ × T
  ensure t s = ensure_el t s.kind s.el

  abbrev pub bound : Slot → ℕ → Slot
  bound s e = record s { el = some e }

  unfoldable pub place : T → Slot → Slot × T
  unfolding ensure
  place t s =
      let (p, t1) = parent t s.kind in let (e, t2) = ensure t1 s in (bound s e, x.add_child t2 p e)

  unfoldable pub slot_remove : T → Slot → T
  slot_remove t s = elim s.el [
    | none ↦ t
    | some e ↦ x.remove (remove_refinements x d t (attr_of x t e (codes "id"))) e
  ]

  unfoldable pub slot_set : T → Slot → Text → Slot × T
  unfolding ensure
  slot_set t s value = let (e, t') = ensure t s in (bound s e, x.set_text t' e value)

  -- Refine
  abbrev pub scheme_fits : T → Refinement → ℕ → Bool
  scheme_fits t r m =
      let scheme = attr_of x t m (codes "scheme") in
      not (r.unschemed_only && not (text_eq scheme []))
      && (text_eq r.schemed_as [] || same_as x d t scheme r.schemed_as)

  unfoldable pub elements : T → Refinement → List ℕ
  elements t r = keep (scheme_fits t r) (refine_elements x d t (slot_id t r.owner) r.property)

  abbrev pub text_first : T → List ℕ → Text
  text_first t [] = []
  text_first t (m ∷ ms) = text_of x t m

  unfoldable pub refine_get : T → Refinement → Text
  unfolding elements
  refine_get t r = text_first t (elements t r)

  abbrev pub refine_exists : T → Refinement → Bool
  refine_exists t r = is_some (first_of (elements t r))

  -- `Add`; an id is always found, so the case without one is never taken.
  abbrev pub refine_as : T → Text → Text → Text → Option Text → T
  refine_as t property value scheme none = t
  refine_as t property value scheme (some id) = add_refine x d t id property value scheme

  unfoldable pub refine_add : T → Refinement → Text → Text → Slot × T
  unfolding ensure
  refine_add t r value scheme =
      let (e, t1) = ensure t r.owner in
      let (id, t2) = ensure_id x d t1 e r.owner.id_prefix in
      (bound r.owner e, refine_as t2 r.property value scheme id)

  unfoldable pub refine_set : T → Refinement → Text → Slot × T
  unfolding elements refine_add
  refine_set t r value = elim (elements t r) [
    | [] ↦ refine_add t r value []
    | m ∷ ms ↦ (r.owner, x.set_text t m value)
  ]

  -- the loop of `SetValues`, over the refinements that are there
  abbrev pub write_values : T → Refinement → List ℕ → List Text → Text → Slot × T
  write_values t r ms [] scheme = (r.owner, detach_all x d t ms)
  write_values t r (m ∷ ms) (v ∷ vs) scheme = write_values (x.set_text t m v) r ms vs scheme
  write_values t r [] (v ∷ vs) scheme =
      let (owner, t') = refine_add t r v scheme in
      write_values t' (record r { owner = owner }) [] vs scheme

  unfoldable pub set_values : T → Refinement → List Text → Text → Slot × T
  unfolding elements
  set_values t r values scheme = write_values t r (elements t r) values scheme

  unfoldable pub refine_clear : T → Refinement → T
  unfolding elements
  refine_clear t r = detach_all x d t (elements t r)

  unfoldable pub refine_values : T → Refinement → List Text
  unfolding elements
  refine_values t r = keep (λ v. not (text_eq v [])) (map (text_of x t) (elements t r))

  -- `Put`
  abbrev pub refine_put : T → Refinement → Text → Slot × T
  refine_put t r [] = (r.owner, refine_clear t r)
  refine_put t r (c ∷ value) = refine_set t r (c ∷ value)
