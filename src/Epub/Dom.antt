-- ===== src/Epub/Dom.antt =====
-- The element tree that pkg/epub/internal/opf/pkgdoc works on, and what pkgdoc finds and makes in it
-- (metadata.go, etree.go, ns.go, refine.go). The tree is the etree library's: `Etree` has the operations
-- that the code calls. A node is a pointer to an element, and `T` is the state of the whole document.
pub mod Shows
use ebookfs.Common.{
  ℕ, zero, suc, ◌+◌, ◌==◌, Bool, true, false, not, ◌&&◌, ◌||◌, List, [], ◌∷◌, ◌++◌, map, Option,
  none, some, if◌then◌else◌, length, Text, text_eq, text_comparable, codes, keep, any, contains,
  cut_at,
}
use ebookfs.Common.Numbered.{numbered, first_free}
use ebookfs.Epub.Vocab.{collapse, same_property, spell}

-- an attribute, with the prefix of its namespace
pub record Attr : Type 0 where
  pub space : Text
  pub key : Text
  pub value : Text

-- `attributes` is the `Attr` slice and `attr` the value that `SelectAttr` finds by a key; `set_value`
-- writes through its result, `create_attr` is `CreateAttr` with a prefix and a key, and `remove_attr`
-- removes what `SelectAttr` finds. `remove` takes a node from its parent, if it has one; `add_child` moves
-- a node that has one. `with_attr` is `FindElements("//*[@key]")`.
pub record Etree (T : Type 0) : Type 0 where
  pub child_elements : T → ℕ → List ℕ
  pub tag : T → ℕ → Text
  pub space : T → ℕ → Text
  pub attributes : T → ℕ → List Attr
  pub attr : T → ℕ → Text → Option Text
  pub text : T → ℕ → Text
  pub with_attr : T → Text → List ℕ
  pub set_text : T → ℕ → Text → T
  pub set_value : T → ℕ → Text → Text → T
  pub create_attr : T → ℕ → Text → Text → Text → T
  pub remove_attr : T → ℕ → Text → T
  pub add_child : T → ℕ → ℕ → T
  pub remove : T → ℕ → T
  pub new_element : T → Text → Text → ℕ × T

-- `Doc`: its elements <package> and <metadata>
pub record Doc : Type 0 where
  pub pkg : ℕ
  pub md : ℕ

abbrev pub or_else : Option Text → Text → Text
or_else none t = t
or_else (some s) t = s

abbrev pub head_or_none : List ℕ → Option ℕ
head_or_none [] = none
head_or_none (e ∷ es) = some e

module _ {T : Type 0} (x : Etree T) where
  -- `text` and `attr` of etree.go
  abbrev pub text_of : T → ℕ → Text
  text_of t e = collapse (x.text t e)

  abbrev pub attr_of : T → ℕ → Text → Text
  attr_of t e key = collapse (or_else (x.attr t e key) [])

  -- `SelectElement`: the first child of that name
  abbrev pub tagged : T → Text → ℕ → Bool
  tagged t tag e = text_eq (x.tag t e) tag

  abbrev pub select_element : T → ℕ → Text → Option ℕ
  select_element t parent tag = head_or_none (keep (tagged t tag) (x.child_elements t parent))

  -- what one child of <metadata> adds to `children`
  abbrev pub is_wrapper : T → ℕ → Bool
  is_wrapper t c = tagged t (codes "dc-metadata") c || tagged t (codes "x-metadata") c

  abbrev pub children_in : T → Text → List ℕ → List ℕ
  children_in t tag [] = []
  children_in t tag (c ∷ cs) =
      (if is_wrapper t c
        then keep (tagged t tag) (x.child_elements t c)
        else if tagged t tag c
        then c ∷ []
        else [])
      ++ children_in t tag cs

  module _ (d : Doc) where
    unfoldable pub children : T → Text → List ℕ
    children t tag = children_in t tag (x.child_elements t d.md)

    abbrev pub dc_parent : T → ℕ
    dc_parent t = elim (select_element t d.md (codes "dc-metadata")) [ none ↦ d.md | some w ↦ w ]

    -- `CreateElement` makes an element and adds it.
    abbrev pub create_element : T → ℕ → Text → ℕ × T
    create_element t parent tag =
        let (e, t') = x.new_element t [] tag in (e, x.add_child t' parent e)

    abbrev pub meta_parent : T → ℕ × T
    meta_parent t = elim (select_element t d.md (codes "x-metadata")) [
      | some w ↦ (w, t)
      | none ↦ elim (select_element t d.md (codes "dc-metadata")) [
        | none ↦ (d.md, t)
        | some w ↦ create_element t d.md (codes "x-metadata")
      ]
    ]

    abbrev pub first_valued : T → List ℕ → Option ℕ
    first_valued t [] = none
    first_valued t (e ∷ es) = if text_eq (text_of t e) [] then first_valued t es else some e

    -- the first with a value, or the first
    abbrev pub chosen : Option ℕ → List ℕ → Option ℕ
    chosen (some e) els = some e
    chosen none els = head_or_none els

    unfoldable pub primary : T → Text → Option ℕ
    primary t tag = chosen (first_valued t (children t tag)) (children t tag)

    unfoldable pub named : T → Text → List ℕ
    unfolding children
    named t name = keep (λ e. text_eq (attr_of t e (codes "name")) name) (children t (codes "meta"))

    -- `ns.prefix`
    abbrev pub declared_prefix : List Attr → Text → Option Text
    declared_prefix [] uri = none
    declared_prefix (a ∷ as') uri =
        if text_eq a.space (codes "xmlns") && text_eq a.value uri
        then some a.key
        else declared_prefix as' uri

    abbrev pub ns_prefix : T → Text → Text → Text × T
    ns_prefix t uri preferred = elim (declared_prefix (x.attributes t d.pkg) uri) [
      | some key ↦ (key, t)
      | none ↦ (preferred, x.create_attr t d.pkg (codes "xmlns") preferred uri)
    ]

    abbrev pub opf_prefix : T → Text × T
    opf_prefix t = ns_prefix t (codes "http://www.idpf.org/2007/opf") (codes "opf")

    unfoldable pub dc_prefix : T → Text × T
    unfolding children
    dc_prefix t = elim (children t (codes "title")) [
      | [] ↦ ns_prefix t (codes "http://purl.org/dc/elements/1.1/") (codes "dc")
      | e ∷ es ↦ (x.space t e, t)
    ]

    -- the <package> attribute that the vocabulary reads, and `vocab.Same` and `vocab.spell` on it
    abbrev pub raw_prefix : T → Text
    raw_prefix t = or_else (x.attr t d.pkg (codes "prefix")) []

    abbrev pub same_as : T → Text → Text → Bool
    same_as t in_doc ours = same_property (raw_prefix t) in_doc ours

    abbrev pub spelled : T → Text → Option (Text × Text) → Text × T
    spelled t ours none = (ours, t)
    spelled t ours (some (name, raw)) =
        if text_eq raw (raw_prefix t)
        then (name, t)
        else (name, x.create_attr t d.pkg [] (codes "prefix") raw)

    unfoldable pub spell_in : T → Text → Text × T
    spell_in t ours = spelled t ours (spell (raw_prefix t) ours)

    -- `refinesID`: the fragment is the id
    unfoldable pub refines_id : T → ℕ → Text → Bool
    refines_id t m id =
        let (path, frag, ok) = cut_at b'#' (attr_of t m (codes "refines")) in
        not (text_eq id []) && ok && text_eq frag id

    unfoldable pub refine_elements : T → Text → Text → List ℕ
    unfolding children refines_id
    refine_elements t id property =
        keep (λ m. same_as t (attr_of t m (codes "property")) property && refines_id t m id)
          (children t (codes "meta"))

    abbrev pub with_scheme : T → ℕ → Text → T
    with_scheme t m [] = t
    with_scheme t m (c ∷ scheme) =
        let (s, t') = spell_in t (c ∷ scheme) in x.create_attr t' m [] (codes "scheme") s

    unfoldable pub add_refine : T → Text → Text → Text → Text → T
    unfolding spell_in
    add_refine t id property value scheme =
        let (p, t1) = meta_parent t in
        let (m, t2) = create_element t1 p (codes "meta") in
        let t3 = x.create_attr t2 m [] (codes "refines") (b'#' ∷ id) in
        let (name, t4) = spell_in t3 property in
        let t5 = x.create_attr t4 m [] (codes "property") name in
        x.set_text (with_scheme t5 m scheme) m value

    abbrev pub detach_all : T → List ℕ → T
    detach_all t [] = t
    detach_all t (m ∷ ms) = detach_all (x.remove t m) ms

    unfoldable pub remove_refinements : T → Text → T
    unfolding children refines_id
    remove_refinements t id =
        detach_all t (keep (λ m. refines_id t m id) (children t (codes "meta")))

    -- `ensureID`; the loop has one round more than there are ids.
    abbrev pub ids_of : T → List Text
    ids_of t = map (λ e. attr_of t e (codes "id")) (x.with_attr t (codes "id"))

    abbrev pub minted : T → Text → Option Text
    minted t stem = first_free (ids_of t) (numbered stem (b'-' ∷ [])) (suc (length (ids_of t))) 0

    abbrev pub write_id : T → ℕ → Option Text → Option Text × T
    write_id t e none = (none, t)
    write_id t e (some id) = (some id, x.create_attr t e [] (codes "id") id)

    abbrev pub id_or_minted : T → ℕ → Text → Text → Option Text × T
    id_or_minted t e stem [] = write_id t e (minted t stem)
    id_or_minted t e stem (c ∷ id) = (some (c ∷ id), t)

    unfoldable pub ensure_id : T → ℕ → Text → Option Text × T
    ensure_id t e stem = id_or_minted t e stem (attr_of t e (codes "id"))
