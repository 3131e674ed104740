-- ===== src/Epub/Opf/Persons/Contributors.antt =====
-- field_contributors.go: the contributors of a package document, with their roles.
use ebookfs.Common.{
  ℕ, Bool, not, ◌&&◌, List, [], ◌∷◌, ◌++◌, map, Option, none, some, if◌then◌else◌, Text, text_eq,
  codes, text_comparable, nat_comparable,
}
use ebookfs.Epub.Dom.{Etree, Doc}
use ebookfs.Epub.Slots.{Slot, dc_slot, refine, dc_all, slot_get, place, slot_set, set_values}
use ebookfs.Epub.Slots.Attrs.{opf_get, opf_set, opf_put, opf_clear}
use ebookfs.Epub.Opf.{epub3}
use ebookfs.Epub.Opf.Persons.{
  OpfContributor, Person, people, entry_eq, entries_from, roles_from, element_roles, nodes_of,
  remove_nodes,
}

module _ {T : Type 0} (x : Etree T) (d : Doc) where
  -- contributorsField
  abbrev pub entries_of : Text → List Text → List OpfContributor
  entries_of name [] = record { name = name; role = [] } ∷ []
  entries_of name (r ∷ roles) =
      map (λ role. record { name = name; role = role }) (roles_from [] (r ∷ roles))

  abbrev pub contributors_of : T → List Slot → List OpfContributor
  contributors_of t [] = []
  contributors_of t (c ∷ cs) =
      (if text_eq (slot_get x d t c) []
        then []
        else entries_of (slot_get x d t c) (element_roles x d t c))
      ++ contributors_of t cs

  unfoldable pub contributors_get : T → List OpfContributor
  unfolding element_roles
  contributors_get t = contributors_of t (dc_all x d t (codes "contributor"))

  -- `claim`: the first element that is left, has a name and matches, and those that are left then
  abbrev pub claim_first : T → (Slot → Bool) → List ℕ → Option ℕ × List ℕ
  claim_first t matches [] = (none, [])
  claim_first t matches (e ∷ es) =
      let s = dc_slot (codes "contributor") (some e) in
      let (found, left) = claim_first t matches es in
      if not (text_eq (slot_get x d t s) []) && matches s then (some e, es) else (found, e ∷ left)

  abbrev pub first_role : List Text → Text
  first_role [] = []
  first_role (r ∷ roles) = r

  abbrev pub contributor_of : T → Slot → OpfContributor
  contributor_of t c = record { name = slot_get x d t c; role = first_role (element_roles x d t c) }

  abbrev pub keep_role : T → Slot → List Text → T
  keep_role t el (r ∷ []) = (opf_set x d t el (codes "role") r).1
  keep_role t el [] = opf_clear x d t el (codes "role")
  keep_role t el (r ∷ s ∷ roles) = opf_clear x d t el (codes "role")

  unfoldable pub set_roles : T → Slot → List Text → T
  set_roles t el roles =
      if not (epub3 x d t)
      then (opf_put x d t el (codes "role") (first_role roles)).1
      else let t' =
          if text_eq (opf_get x d t el (codes "role")) [] then t else keep_role t el roles in
        (set_values x d t' (refine el (codes "role")) roles (codes "marc:relators")).1

  abbrev pub write_contributor : T → Option ℕ → Text → List Text → T
  write_contributor t el name roles =
      let (s1, t1) = slot_set x d t (dc_slot (codes "contributor") el) name in
      let (s2, t2) = place x d t1 s1 in set_roles t2 s2 roles

  abbrev pub write_people : T → List Person → List ℕ → T × List ℕ
  write_people t [] left = (t, left)
  write_people t (p ∷ ps) left =
      let (el, left') = claim_first t (λ s. text_eq (slot_get x d t s) p.name) left in
      write_people (write_contributor t el p.name p.roles) ps left'

  -- the exact matches, in order
  abbrev pub claim_exact : T → List OpfContributor → List ℕ → List (Option ℕ) × List ℕ
  claim_exact t [] left = ([], left)
  claim_exact t (c ∷ cs) left =
      let (el, left') = claim_first t (λ s. entry_eq (contributor_of t s) c) left in
      let (out, rest) = claim_exact t cs left' in (el ∷ out, rest)

  abbrev pub claim_name : T → Option ℕ → Text → List ℕ → Option ℕ × List ℕ
  claim_name t (some e) name left = (some e, left)
  claim_name t none name left = claim_first t (λ s. text_eq (slot_get x d t s) name) left

  abbrev pub roles_of_entry : Text → List Text
  roles_of_entry [] = []
  roles_of_entry (c ∷ role) = (c ∷ role) ∷ []

  abbrev pub write_entries : T → List OpfContributor → List (Option ℕ) → List ℕ → T × List ℕ
  write_entries t (c ∷ cs) (o ∷ out) left =
      let (el, left') = claim_name t o c.name left in
      write_entries (write_contributor t el c.name (roles_of_entry c.role)) cs out left'
  write_entries t [] out left = (t, left)
  write_entries t (c ∷ cs) [] left = (t, left)

  abbrev pub write_v2_entries : T → List OpfContributor → List ℕ → T × List ℕ
  write_v2_entries t entries existing =
      let (out, left) = claim_exact t entries existing in write_entries t entries out left

  unfoldable pub contributors_set : T → List OpfContributor → T
  unfolding people set_roles element_roles
  contributors_set t contributors =
      let existing = nodes_of x d (dc_all x d t (codes "contributor")) in
      let (t', left) =
        if epub3 x d t
        then write_people t (people contributors) existing
        else write_v2_entries t (entries_from [] contributors) existing in
      remove_nodes x d t' (codes "contributor") left
