-- ===== src/Epub/Opf/Manifest.antt =====
-- structure.go, field_cover.go and manifest.go: the manifest, the guide and the spine, and the cover. `lower`
-- is unicode.ToLower, and `resolve` is ResolveHref of pkg/epub/internal/xml, over net/url.
use ebookfs.Common.{
  ℕ, Bool, not, ◌&&◌, List, [], ◌∷◌, ◌++◌, map, Option, none, some, if◌then◌else◌, Text, text_eq,
  text_comparable, codes, keep, contains, trim_space,
}
use ebookfs.Epub.Vocab.{has}
use ebookfs.Epub.Dom.{Etree, Doc, attr_of, select_element, raw_prefix, or_else, tagged}
use ebookfs.Epub.Slots.Attrs.{named_get}
use ebookfs.Epub.Opf.Readings.{has_prefix, contains_text, to_lower}

pub record Item : Type 0 where
  pub id : Text
  pub href : Text
  pub media_type : Text
  pub properties : Text

pub record Ref : Type 0 where
  pub type' : Text
  pub href : Text

module _ (lower : ℕ → ℕ) (resolve : Text → Text) where
  -- The base directory is in `resolve`.
  unfoldable pub is_raster_cover_type : Text → Bool
  is_raster_cover_type media_type =
      let mt = to_lower lower media_type in
      not (text_eq mt [])
      && not (contains_text mt (codes "xml"))
      && not (contains_text mt (codes "html"))

  -- the three loops of `cover`, over the manifest
  abbrev pub property_cover : (Text → Bool) → List Item → Option Text
  property_cover is_cover [] = none
  property_cover is_cover (i ∷ items) =
      if is_cover i.properties && is_raster_cover_type i.media_type
      then some (resolve i.href)
      else property_cover is_cover items

  abbrev pub named_cover : Text → List Item → Option Text
  named_cover id [] = none
  named_cover id (i ∷ items) =
      if text_eq i.id id && is_raster_cover_type i.media_type
      then some (resolve i.href)
      else named_cover id items

  abbrev pub guessed_cover : Text → List Item → Text
  guessed_cover found [] = found
  guessed_cover found (i ∷ items) =
      guessed_cover
        (if has_prefix i.media_type (codes "image")
            && contains_text (to_lower lower i.id) (codes "cover")
          then resolve i.href
          else found)
        items

  unfoldable pub cover_in : (Text → Bool) → Text → List Item → Text
  cover_in is_cover cover_id items = elim (property_cover is_cover items) [
    | some path ↦ path
    | none ↦ elim (if text_eq cover_id [] then none else named_cover cover_id items) [
      | some path ↦ path
      | none ↦ guessed_cover [] items
    ]
  ]

  abbrev pub ncx_in : List Item → Text
  ncx_in [] = []
  ncx_in (i ∷ items) =
      if text_eq i.media_type (codes "application/x-dtbncx+xml")
      then resolve i.href
      else ncx_in items

  abbrev pub href_of : Text → List Item → Text
  href_of id [] = []
  href_of id (i ∷ items) = if text_eq i.id id then i.href else href_of id items

  -- `add` of CoverPages
  abbrev pub add_page : List Text → Text → List Text
  add_page out href =
      if text_eq href []
      then out
      else let p = resolve href in
        if not (text_eq p []) && not (contains out p) then out ++ p ∷ [] else out

  abbrev pub guide_pages : List Text → List Ref → List Text
  guide_pages out [] = out
  guide_pages out (r ∷ refs) =
      guide_pages
        (if text_eq (to_lower lower r.type') (codes "cover") then add_page out r.href else out) refs

  module _ {T : Type 0} (x : Etree T) (d : Doc) where
    abbrev pub href_at : T → ℕ → Text
    href_at t e = trim_space (or_else (x.attr t e (codes "href")) [])

    -- the children of that name under the first element of that name
    abbrev pub children_of : T → Text → Text → List ℕ
    children_of t parent tag = elim (select_element x t d.pkg parent) [
      | none ↦ []
      | some e ↦ keep (tagged x t tag) (x.child_elements t e)
    ]

    unfoldable pub manifest : T → List Item
    manifest t =
        map
          (λ it. record {
            id = attr_of x t it (codes "id");
            href = href_at t it;
            media_type = attr_of x t it (codes "media-type");
            properties = attr_of x t it (codes "properties");
          })
          (children_of t (codes "manifest") (codes "item"))

    unfoldable pub guide : T → List Ref
    guide t =
        map (λ r. record { type' = attr_of x t r (codes "type"); href = href_at t r })
          (children_of t (codes "guide") (codes "reference"))

    unfoldable pub spine_first : T → Text
    spine_first t = elim (children_of t (codes "spine") (codes "itemref")) [
      | [] ↦ []
      | r ∷ rs ↦ attr_of x t r (codes "idref")
    ]

    unfoldable pub cover : T → Text
    unfolding cover_in manifest
    cover t =
        cover_in (λ properties. has (raw_prefix x d t) properties (codes "cover-image"))
          (named_get x d t (codes "cover")) (manifest t)

    unfoldable pub ncx_path : T → Text
    unfolding manifest
    ncx_path t = ncx_in (manifest t)

    abbrev pub first_spine_href : T → Text
    first_spine_href t =
        if text_eq (spine_first t) [] then [] else href_of (spine_first t) (manifest t)

    unfoldable pub cover_pages : T → List Text
    unfolding guide spine_first manifest
    cover_pages t = add_page (guide_pages [] (guide t)) (first_spine_href t)
