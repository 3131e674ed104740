-- ===== src/Epub/Opf/Persons.antt =====
-- field_authors.go, and what it shares with field_contributors.go: creators, persons and roles.
pub mod Groups
pub mod Contributors
use ebookfs.Common.{
  ℕ, Bool, true, false, not, ◌&&◌, ◌||◌, List, [], ◌∷◌, ◌++◌, map, Option, none, some, ◌==◌,
  if◌then◌else◌, Text, text_eq, codes, keep, Dict, get, put, contains, text_comparable,
  nat_comparable, without, Comparable,
}
use ebookfs.Epub.Dom.{Etree, Doc, text_of}
use ebookfs.Epub.Slots.{
  Slot, dc_slot, refine, dc_all, slot_get, place, slot_remove, slot_set, refine_get, refine_put,
  refine_add, set_values, refine_values, is_some,
}
use ebookfs.Epub.Slots.Attrs.{opf_get, opf_set, opf_put, opf_clear}
use ebookfs.Epub.Opf.{epub3}

-- `Author` and `Contributor` of package opf
pub record OpfAuthor : Type 0 where
  pub name : Text
  pub sort_name : Text

pub record OpfContributor : Type 0 where
  pub name : Text
  pub role : Text

-- `people`: one person for each name, with the roles in order
pub record Person : Type 0 where
  pub name : Text
  pub roles : List Text

abbrev pub add_role : List Text → Text → List Text
add_role roles [] = roles
add_role roles (c ∷ role) = if contains roles (c ∷ role) then roles else roles ++ (c ∷ role) ∷ []

abbrev pub add_person : List Person → OpfContributor → List Person
add_person [] c = record { name = c.name; roles = add_role [] c.role } ∷ []
add_person (p ∷ ps) c =
    let rest = add_person ps c in
    if text_eq p.name c.name then record p { roles = add_role p.roles c.role } ∷ ps else p ∷ rest

abbrev pub people_from : List Person → List OpfContributor → List Person
people_from out [] = out
people_from out (c ∷ cs) = people_from (add_person out c) cs

unfoldable pub people : List OpfContributor → List Person
people contributors = people_from [] contributors

abbrev pub entry_eq : OpfContributor → OpfContributor → Bool
entry_eq a b = text_eq a.name b.name && text_eq a.role b.role

-- the entries, each once
abbrev pub has_entry : List OpfContributor → OpfContributor → Bool
has_entry [] c = false
has_entry (e ∷ es) c = entry_eq e c || has_entry es c

abbrev pub entries_from : List OpfContributor → List OpfContributor → List OpfContributor
entries_from out [] = out
entries_from out (c ∷ cs) = entries_from (if has_entry out c then out else out ++ c ∷ []) cs

-- a role repeated on one element, once
abbrev pub roles_from : List Text → List Text → List Text
roles_from seen [] = []
roles_from seen (r ∷ roles) =
    let rest = roles_from (seen ++ r ∷ []) roles in if contains seen r then rest else r ∷ rest

module _ {T : Type 0} (x : Etree T) (d : Doc) where
  unfoldable pub element_roles : T → Slot → List Text
  element_roles t c = elim (opf_get x d t c (codes "role")) [
    | [] ↦ refine_values x d t (refine c (codes "role"))
    | r ∷ s ↦ (r ∷ s) ∷ []
  ]

  -- authorsField
  abbrev pub has_author_role : List Text → Bool
  has_author_role [] = true
  has_author_role (r ∷ roles) = contains (r ∷ roles) (codes "aut")

  unfoldable pub creators : T → List Slot
  unfolding element_roles
  creators t = keep (λ c. has_author_role (element_roles t c)) (dc_all x d t (codes "creator"))

  abbrev pub sort_name_of : T → Slot → Text
  sort_name_of t c = elim (opf_get x d t c (codes "file-as")) [
    | [] ↦ refine_get x d t (refine c (codes "file-as"))
    | s ∷ sort ↦ s ∷ sort
  ]

  abbrev pub authors_of : T → List Slot → List OpfAuthor
  authors_of t [] = []
  authors_of t (c ∷ cs) =
      if text_eq (slot_get x d t c) []
      then authors_of t cs
      else record { name = slot_get x d t c; sort_name = sort_name_of t c } ∷ authors_of t cs

  unfoldable pub authors_get : T → List OpfAuthor
  unfolding creators
  authors_get t = authors_of t (creators t)

  abbrev pub see_name : Dict Text Slot → Text → Option Slot → Slot → Dict Text Slot
  see_name m [] seen c = m
  see_name m (r ∷ s) (some other) c = m
  see_name m (r ∷ s) none c = put m (r ∷ s) c

  abbrev pub by_name : T → Dict Text Slot → List Slot → Dict Text Slot
  by_name t m [] = m
  by_name t m (c ∷ cs) = by_name t (see_name m (slot_get x d t c) (get m (slot_get x d t c)) c) cs

  abbrev pub creator_for : Option Slot → Slot
  creator_for none = dc_slot (codes "creator") none
  creator_for (some c) = c

  abbrev pub unclaim : List ℕ → Option ℕ → List ℕ
  unclaim es none = es
  unclaim es (some e) = without es e

  -- A name of two authors places one creator twice.
  abbrev pub place_creators : Dict Text Slot → T → List OpfAuthor → List ℕ → List Slot × T × List ℕ
  place_creators m t [] unclaimed = ([], t, unclaimed)
  place_creators m t (a ∷ authors) unclaimed =
      let (c, t1) = place x d t (creator_for (get m a.name)) in
      let (out, t2, left) = place_creators m t1 authors (unclaim unclaimed c.el) in
      (c ∷ out, t2, left)

  abbrev pub nodes_of : List Slot → List ℕ
  nodes_of [] = []
  nodes_of (s ∷ ss) = elim s.el [ none ↦ nodes_of ss | some e ↦ e ∷ nodes_of ss ]

  abbrev pub remove_nodes : T → Text → List ℕ → T
  remove_nodes t tag [] = t
  remove_nodes t tag (e ∷ es) = remove_nodes (slot_remove x d t (dc_slot tag (some e))) tag es

  unfoldable pub reconcile_creators : T → List OpfAuthor → List Slot × T
  unfolding creators
  reconcile_creators t authors =
      let cs = creators t in
      let (out, t', left) = place_creators (by_name t [] cs) t authors (nodes_of cs) in
      (out, remove_nodes t' (codes "creator") left)

  abbrev pub write_v2 : T → Slot → OpfAuthor → T
  write_v2 t c a =
      let (s, t') = opf_set x d t c (codes "role") (codes "aut") in
      (opf_put x d t' s (codes "file-as") a.sort_name).1

  abbrev pub keep_legacy : T → Slot → Text → T
  keep_legacy t c sort_name =
      if text_eq (opf_get x d t c (codes "file-as")) []
      then t
      else (opf_put x d t c (codes "file-as") sort_name).1

  abbrev pub write_roles : T → Slot → OpfAuthor → T
  write_roles t c a =
      let t1 =
        if contains (element_roles t c) (codes "aut")
        then t
        else (refine_add x d t (refine c (codes "role")) (codes "aut") (codes "marc:relators")).1 in
      let t2 = (refine_put x d t1 (refine c (codes "file-as")) a.sort_name).1 in
      keep_legacy t2 c a.sort_name

  abbrev pub write_author : T → Slot → OpfAuthor → T
  write_author t c a =
      let (c', t') = slot_set x d t c a.name in
      if epub3 x d t' then write_roles t' c' a else write_v2 t' c' a

  abbrev pub write_authors : T → List Slot → List OpfAuthor → T
  write_authors t [] authors = t
  write_authors t (c ∷ cs) [] = t
  write_authors t (c ∷ cs) (a ∷ authors) = write_authors (write_author t c a) cs authors

  unfoldable pub authors_set : T → List OpfAuthor → T
  unfolding reconcile_creators element_roles
  authors_set t authors = let (cs, t') = reconcile_creators t authors in write_authors t' cs authors
