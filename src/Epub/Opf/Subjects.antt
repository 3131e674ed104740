-- ===== src/Epub/Opf/Subjects.antt =====
-- field_subjects.go: the subjects, reconciled by their text.
pub mod Claims
pub mod RoundTrip
use ebookfs.Common.{
  ℕ, Bool, not, List, [], ◌∷◌, map, Option, none, some, if◌then◌else◌, Text, text_eq, codes, keep,
  Dict, get, put, contains, text_comparable, nat_comparable, without,
}
use ebookfs.Epub.Dom.{Etree, Doc, text_of, children}
use ebookfs.Epub.Slots.{Slot, dc_slot, place, slot_remove, slot_set}

module _ {T : Type 0} (x : Etree T) (d : Doc) where
  unfoldable pub subjects_get : T → List Text
  subjects_get t =
      keep (λ v. not (text_eq v [])) (map (text_of x t) (children x d t (codes "subject")))

  abbrev pub see : Dict Text ℕ → Text → Option ℕ → ℕ → Dict Text ℕ
  see m [] seen e = m
  see m (c ∷ s) (some other) e = m
  see m (c ∷ s) none e = put m (c ∷ s) e

  -- `byText`: the first element of each text that is not empty
  abbrev pub first_by_text : T → Dict Text ℕ → List ℕ → Dict Text ℕ
  first_by_text t m [] = m
  first_by_text t m (e ∷ es) = first_by_text t (see m (text_of x t e) (get m (text_of x t e)) e) es

  -- one round of the loop, with the elements that are not claimed
  abbrev pub claim : T → Text → List ℕ → Option ℕ → T × List ℕ
  claim t v unclaimed (some e) =
      let (s, t') = place x d t (dc_slot (codes "subject") (some e)) in (t', without unclaimed e)
  claim t v unclaimed none =
      let (s, t1) = slot_set x d t (dc_slot (codes "subject") none) v in
      let (s', t2) = place x d t1 s in (t2, unclaimed)

  abbrev pub claim_all : Dict Text ℕ → T → List Text → List ℕ → T × List ℕ
  claim_all by_text t [] unclaimed = (t, unclaimed)
  claim_all by_text t (v ∷ vs) unclaimed =
      let (t', unclaimed') = claim t v unclaimed (get by_text v) in
      claim_all by_text t' vs unclaimed'

  -- the range over a map of elements, in any order
  abbrev pub remove_all : T → List ℕ → T
  remove_all t [] = t
  remove_all t (e ∷ es) = remove_all (slot_remove x d t (dc_slot (codes "subject") (some e))) es

  unfoldable pub subjects_set : T → List Text → T
  subjects_set t subjects =
      let els = children x d t (codes "subject") in
      let (t', unclaimed) = claim_all (first_by_text t [] els) t subjects els in
      remove_all t' unclaimed
