-- ===== src/Epub/Opf.antt =====
-- pkg/epub/internal/opf: the fields of a package document (doc.go, fields.go, field_series.go,
-- field_subjects.go), each as the slots that it reads and writes. The other fields are in the children.
pub mod Persons
pub mod Readings
pub mod Subjects
pub mod Manifest
pub mod Plain
use ebookfs.Common.{
  ℕ, zero, suc, Bool, true, false, not, ◌&&◌, ◌||◌, List, [], ◌∷◌, ◌++◌, map, Option, none, some,
  ◌==◌, if◌then◌else◌, Text, text_eq, codes, keep, Dict, get, put, delete, contains,
  text_comparable, nat_comparable, cut_at,
}
use ebookfs.Epub.Vocab.{collapse}
use ebookfs.Epub.Dom.{Etree, Doc, attr_of}
use ebookfs.Epub.Slots.{
  Slot, is_some, same_slot, dc_slot, meta_slot, Refinement, refine, unschemed, dc_of, dc_all,
  property_metas, unrefined_meta, slot_get, bound, place, slot_remove, slot_set, refine_get,
  refine_exists, refine_set, refine_put, refine_values,
}
use ebookfs.Epub.Slots.Attrs.{opf_get, named_get, named_exists, named_set, named_put, named_clear}

pub record Series : Type 0 where
  pub name : Text
  pub index : Text

-- `calibreIndex`: the first two levels of a position
unfoldable pub calibre_index : Text → Text
calibre_index s =
    let (a, rest, one) = cut_at b'.' s in
    let (b, more, two) = cut_at b'.' rest in if one && two then a ++ (b'.' ∷ b) else s

module _ {T : Type 0} (x : Etree T) (d : Doc) where
  -- `EPUB3`: the version begins with 3
  abbrev pub starts_3 : Text → Bool
  starts_3 [] = false
  starts_3 (c ∷ s) = c == b'3'

  unfoldable pub epub3 : T → Bool
  epub3 t = starts_3 (attr_of x t d.pkg (codes "version"))

  abbrev pub write_v3 : T → Bool → Bool
  write_v3 t present = present || epub3 t

  abbrev pub write_calibre : T → Bool → Bool
  write_calibre t present = not (epub3 t) || present

  -- titleField
  abbrev pub title_sort : Text
  title_sort = codes "calibre:title_sort"

  unfoldable pub title_get : T → Text × Text
  title_get t =
      let el = dc_of x d t (codes "title") in
      let sort = refine_get x d t (refine el (codes "file-as")) in
      (slot_get x d t el, if text_eq sort [] then named_get x d t title_sort else sort)

  -- `Remove` on every slot of a list that passes
  abbrev pub remove_slots : T → (T → Slot → Bool) → List Slot → T
  remove_slots t drops [] = t
  remove_slots t drops (s ∷ ss) =
      remove_slots (if drops t s then slot_remove x d t s else t) drops ss

  abbrev pub drop_segments : T → Slot → T
  drop_segments t kept =
      remove_slots t (λ t s. not (same_slot s kept)) (dc_all x d t (codes "title"))

  abbrev pub title_put : T → Slot → Option Text → Slot × T
  title_put t el none = (el, t)
  title_put t el (some title) =
      let (el', t') = slot_set x d t el title in (el', drop_segments t' el')

  abbrev pub sort_value : Option Text → Text
  sort_value none = []
  sort_value (some sort) = collapse sort

  -- the sort title, in the slots that the version has
  abbrev pub sort_put : T → Slot → Text → T
  sort_put t el value =
      let r = refine el (codes "file-as") in
      let t' = if write_v3 t (refine_exists x d t r) then (refine_put x d t r value).1 else t in
      if write_calibre t' (named_exists x d t' title_sort)
      then named_put x d t' title_sort value
      else t'

  unfoldable pub title_set : T → Option Text → Option Text → T
  title_set t none none = t
  title_set t (some title) sort =
      let (el, t') = title_put t (dc_of x d t (codes "title")) (some title) in
      sort_put t' el (sort_value sort)
  title_set t none (some sort) = sort_put t (dc_of x d t (codes "title")) (collapse sort)

  -- `modified`: the time is given as it is printed
  unfoldable pub modified_set : T → Text → T
  modified_set t time =
      if epub3 t
      then (slot_set x d t (unrefined_meta x d t (codes "dcterms:modified")) time).1
      else t

  -- `Apply`: `bytes` is the document written out, which fails as nil
  unfoldable pub apply : (T → Text) → Text → (T → T) → T → Bool × T
  apply bytes time edit t =
      let t' = edit t in
      if text_eq (bytes t) (bytes t') then (false, t') else (true, modified_set t' time)

  -- description, language, publisher and rights
  abbrev pub field_get : T → Text → Text
  field_get t tag = slot_get x d t (dc_of x d t tag)

  abbrev pub field_set : T → Text → Text → T
  field_set t tag value = (slot_set x d t (dc_of x d t tag) value).1

  -- seriesField
  abbrev pub collections : T → List Slot
  collections t = property_metas x d t (codes "belongs-to-collection") (codes "ebookfs-series")

  abbrev pub series_type : Slot → Refinement
  series_type m = unschemed (refine m (codes "collection-type"))

  abbrev pub is_series : T → Slot → Bool
  is_series t m = text_eq (refine_get x d t (series_type m)) (codes "series")

  abbrev pub first_series : T → List Slot → Slot
  first_series t [] = meta_slot (codes "belongs-to-collection") (codes "ebookfs-series") none
  first_series t (m ∷ ms) =
      if is_series t m && not (text_eq (slot_get x d t m) []) then m else first_series t ms

  unfoldable pub collection : T → Slot
  collection t = first_series t (collections t)

  unfoldable pub drop_collections : T → Slot → T
  drop_collections t kept =
      remove_slots t (λ t m. not (same_slot m kept) && is_series t m) (collections t)

  abbrev pub no_slot : Slot
  no_slot = dc_slot [] none

  -- `seriesCollection.Set`
  unfoldable pub collection_set : T → Slot → Text → Slot × T
  unfolding drop_collections
  collection_set t s value =
      let (s1, t1) = slot_set x d t s value in
      let (s2, t2) = refine_set x d t1 (series_type s1) (codes "series") in
      (s2, drop_collections t2 s2)

  unfoldable pub collection_clear : T → Slot → T
  unfolding drop_collections
  collection_clear t s = drop_collections (slot_remove x d t s) no_slot

  abbrev pub calibre_series : Text
  calibre_series = codes "calibre:series"

  abbrev pub calibre_position : Text
  calibre_position = codes "calibre:series_index"

  unfoldable pub series_get : T → Option Series
  unfolding collection
  series_get t =
      let coll = collection t in
      if is_some coll.el
      then some (record {
        name = slot_get x d t coll;
        index = refine_get x d t (refine coll (codes "group-position"));
      })
      else let name = named_get x d t calibre_series in
        if text_eq name []
        then none
        else some (record { name = name; index = named_get x d t calibre_position })

  abbrev pub put_calibre : T → Text → Text → T
  put_calibre t series position =
      if write_calibre t (named_exists x d t calibre_series)
      then named_put x d (named_set x d t calibre_series series) calibre_position
          (calibre_index position)
      else t

  abbrev pub put_collection : T → Slot → Text → Text → T
  put_collection t coll series position =
      if write_v3 t (is_some coll.el)
      then (let (s, t') = collection_set t coll series in
          (refine_put x d t' (refine s (codes "group-position")) position).1)
      else collection_clear t coll

  abbrev pub series_write : T → Text → Text → T
  series_write t [] position =
      named_clear x d (named_clear x d (collection_clear t (collection t)) calibre_series)
        calibre_position
  series_write t (c ∷ series) position =
      put_calibre (put_collection t (collection t) (c ∷ series) position) (c ∷ series) position

  unfoldable pub series_set : T → Option Series → T
  unfolding collection collection_set collection_clear
  series_set t none = series_write t [] []
  series_set t (some s) = series_write t (collapse s.name) s.index
