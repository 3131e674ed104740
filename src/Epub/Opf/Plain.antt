-- ===== src/Epub/Opf/Plain.antt =====
-- description, language, publisher and rights (fields.go, doc.go): what is written is what is read.
use ebookfs.Common.{
  ℕ, ◌==◌, ==_iff, ◌≡◌, ◌≢◌, ◌⊎◌, refl, sym, ap, ◌∙◌, true, false, List, [], ◌∷◌, Option, none,
  some, arith, if◌then◌else◌, Text, text_eq, text_eq_iff, any, nat_comparable, Bool-cases,
  Option-cases, inl, inr,
}
use ebookfs.Epub.Vocab.{collapse}
use ebookfs.Epub.Dom.{Etree, Doc, text_of, is_wrapper, children, first_valued, chosen, primary}
use ebookfs.Epub.Dom.Shows.{EtreeLaws, at, Shows-self, children_lem}
use ebookfs.Epub.Slots.{dc_slot, slot_set, ensure}
use ebookfs.Epub.Slots.Dc.{IsDc, text_Lists}
use ebookfs.Epub.Slots.Holds.{Holds, set_new-Holds, children-Holds, text_of-Holds}
use ebookfs.Epub.Opf.{field_get, field_set}

-- the first element with a text, and the one that a field's value is in
abbrev filled : (ℕ → Text) → List ℕ → Option ℕ
filled f [] = none
filled f (e ∷ es) = if text_eq (f e) [] then filled f es else some e

filled_lem :
    {T : Type 0} (x : Etree T) (d : Doc) (t : T) (f : ℕ → Text) (es : List ℕ)
    → ((e : ℕ) → text_of x t e ≡ f e)
    → first_valued x d t es ≡ filled f es
filled_lem x d t f [] h = refl
filled_lem x d t f (e ∷ es) h = rw (h e, filled_lem x d t f es h) refl

-- a text that is written where the value is, or to the first of the blank ones, is the value then
module _ {T : Type 0} (x : Etree T) (d : Doc) where
  filled_at :
      (f g : ℕ → Text) (es : List ℕ) (e : ℕ) (v : Text)
      → ((m : ℕ) → g m ≡ (if e == m then v else f m))
      → v ≢ []
      → chosen x d (filled f es) es ≡ some e
      → filled g es ≡ some e
  filled_at f g [] e v h k c = absurd (cc)
  filled_at f g (m ∷ es) e v h k c = elim (Bool-cases (text_eq (f m) [])) [
    | inr own ↦
        let here : some m ≡ some e =
          sym (ap (λ b. chosen x d (if b then filled f es else some m) (m ∷ es)) own) ∙ c in
        at_head here
    | inl blank ↦ elim (Option-cases (filled f es)) [
      | inl none_left ↦ at_head (
          sym (
            ap (λ b. chosen x d (if b then filled f es else some m) (m ∷ es)) blank
            ∙ ap (λ o. chosen x d o (m ∷ es)) none_left)
          ∙ c)
      | inr (j, found) ↦
          let later : chosen x d (filled f es) es ≡ some e =
            ap (λ o. chosen x d o es) found
            ∙ sym (
                ap (λ b. chosen x d (if b then filled f es else some m) (m ∷ es)) blank
                ∙ ap (λ o. chosen x d o (m ∷ es)) found)
            ∙ c in
          passed blank (filled_at f g es e v h k later) (Bool-cases (e == m))
    ]
  ]
    where
      at_head : some m ≡ some e → filled g (m ∷ es) ≡ some e
      at_head p =
          let node : e ≡ m = cc in
          let written : g m ≡ v = h m ∙ rw ((==_iff e m).1 node) refl in
          let full : text_eq v [] ≡ false = ground (arith, text_eq_iff v []) in rw (written, full) p

      passed :
          text_eq (f m) [] ≡ true
          → filled g es ≡ some e
          → ((e == m) ≡ true) ⊎ ((e == m) ≡ false)
          → filled g (m ∷ es) ≡ some e
      passed blank rest (inl q) = at_head (ap some (sym ((==_iff e m).0 q)))
      passed blank rest (inr q) = let kept : g m ≡ f m = h m ∙ rw q refl in rw (kept, blank) rest

module _ {T : Type 0} (x : Etree T) (laws : EtreeLaws x) (d : Doc) (tag : Text)
    (plain : IsDc tag) where
  primary_lem :
      (t : T) (els : List ℕ) (text : ℕ → Text)
      → Holds x d tag t els text
      → primary x d t tag ≡ chosen x d (filled (λ e. collapse (text e)) els) els
  unfolding primary
  primary_lem t els text h =
      let same = children-Holds x laws d tag plain h in
      ap (λ es. chosen x d (first_valued x d t es) es) same
      ∙ ap (λ o. chosen x d o els)
          (filled_lem x d t (λ e. collapse (text e)) els (text_of-Holds x laws d tag plain h))

  read_at :
      (t : T) (els : List ℕ) (text : ℕ → Text) (e : ℕ) (v : Text)
      → Holds x d tag t els text
      → filled (λ e. collapse (text e)) els ≡ some e
      → collapse (text e) ≡ v
      → field_get x d t tag ≡ v
  read_at t els text e v h found is_v =
      rw (primary_lem t els text h, found) (text_of-Holds x laws d tag plain h e ∙ is_v)

  write_old :
      (t : T) (els : List ℕ) (text : ℕ → Text) (e : ℕ) (v : Text)
      → Holds x d tag t els text
      → chosen x d (filled (λ e. collapse (text e)) els) els ≡ some e
      → v ≢ []
      → collapse v ≡ v
      → field_get x d (slot_set x d t (dc_slot tag (some e)) v).1 tag ≡ v
  unfolding slot_set ensure
  write_old t els text e v h found filled_v clean =
      read_at (x.set_text t e v) els (at text e v) e v
        (record { kids = h.kids; tag = h.tag; lists = text_Lists x laws d tag plain h.lists e v })
        (filled_at x d (λ e. collapse (text e)) (λ m. collapse (at text e v m)) els e v
          (λ m. ground (arith, clean)) filled_v found)
        (rw ((==_iff e e).1 refl) clean)

  write_new :
      (t : T) (text : ℕ → Text) (v : Text)
      → Holds x d tag t [] text
      → v ≢ []
      → collapse v ≡ v
      → field_get x d (slot_set x d t (dc_slot tag none) v).1 tag ≡ v
  write_new t text v h filled_v clean =
      let (e, _, _, made) = set_new-Holds x laws d tag plain v h in
      let full : text_eq v [] ≡ false = ground (arith, text_eq_iff v []) in
      read_at (slot_set x d t (dc_slot tag none) v).1 (e ∷ []) (at text e v) e v made
        (rw ((==_iff e e).1 refl, clean, full) refl) (rw ((==_iff e e).1 refl) clean)

  write_field :
      (t : T) (els : List ℕ) (text : ℕ → Text) (o : Option ℕ) (v : Text)
      → Holds x d tag t els text
      → chosen x d (filled (λ e. collapse (text e)) els) els ≡ o
      → v ≢ []
      → collapse v ≡ v
      → field_get x d (slot_set x d t (dc_slot tag o) v).1 tag ≡ v
  write_field t els text (some e) v h found filled_v clean =
      write_old t els text e v h found filled_v clean
  write_field t [] text none v h found filled_v clean = write_new t text v h filled_v clean
  write_field t (m ∷ els) text none v h found filled_v clean =
      absurd (never (filled (λ e. collapse (text e)) (m ∷ els)) found)
    where
      never : (o : Option ℕ) → chosen x d o (m ∷ els) ≢ none
      never none = λ e. absurd (cc)
      never (some e) = λ p. absurd (cc)

  pub field_get-field_set :
      (t : T) (v : Text)
      → any (is_wrapper x t) (x.child_elements t d.md) ≡ false
      → v ≢ []
      → collapse v ≡ v
      → field_get x d (field_set x d t tag v) tag ≡ v
  field_get-field_set t v unwrapped filled_v clean =
      let els = children x d t tag in
      let h : Holds x d tag t els (x.text t) = record {
        kids = x.child_elements t d.md;
        tag = x.tag t;
        lists = record {
          shows = Shows-self x d t;
          unwrapped = unwrapped;
          els_lem = sym (children_lem x laws d (Shows-self x d t) tag unwrapped);
        };
      } in
      write_field t els (x.text t) (primary x d t tag) v h (sym (primary_lem t els (x.text t) h))
        filled_v clean
