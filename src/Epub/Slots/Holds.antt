-- ===== src/Epub/Slots/Holds.antt =====
-- The elements of one name, in order, and their texts, through the operations of a slot: what a field that
-- owns the order of its elements relies on (`Place`, `Set` and `Remove` of slot.go).
use ebookfs.Common.{
  ℕ, ==_iff, ◌≡◌, refl, sym, ap, ◌∙◌, subst, Bool, true, false, List, [], ◌∷◌, ◌++◌, none, some,
  arith, Text, text_eq, text_eq_iff, codes, keep, contains, without, nat_comparable, contains-keep,
  Bool-cases, inl, inr, All,
}
use ebookfs.Epub.Vocab.{collapse}
use ebookfs.Epub.Dom.{
  Etree, Doc, attr_of, text_of, children, dc_prefix, detach_all, remove_refinements, refines_id,
}
use ebookfs.Epub.Dom.Shows.{
  EtreeLaws, named_by, at, children_lem, text_of_lem, fresh_lem, dc_parent_lem,
}
use ebookfs.Epub.Slots.{dc_slot, place, slot_remove, slot_set, ensure}
use ebookfs.Epub.Slots.Dc.{
  IsDc, Lists, place_old, add_Lists, dc_prefix_Lists, new_Lists, text_Lists, remove_other,
  remove_one, without_absent,
}

-- `els` are the elements of that name, and `text` is what each element holds.
pub record Holds {T : Type 0} (x : Etree T) (d : Doc) (name : Text) (t : T) (els : List ℕ)
    (text : ℕ → Text) : Type 0 where
  pub kids : List ℕ
  pub tag : ℕ → Text
  pub lists : Lists x d name t els kids tag text

keep_named :
    (tag : ℕ → Text) (name : Text) (kids : List ℕ)
    → All (λ m. text_eq (tag m) name ≡ true) (keep (named_by tag name) kids)
keep_named tag name [] = tt
keep_named tag name (k ∷ kids) = elim (Bool-cases (text_eq (tag k) name)) [
  | inl e ↦ rw e (e, keep_named tag name kids)
  | inr e ↦ rw e (keep_named tag name kids)
]

All-keep {ℓ} : (P : ℕ → Type ℓ) (p : ℕ → Bool) (ms : List ℕ) → All P ms → All P (keep p ms)
All-keep P p [] h = tt
All-keep P p (m ∷ ms) h = elim (Bool-cases (p m)) [
  | inl e ↦ rw e (h.0, All-keep P p ms h.1)
  | inr e ↦ rw e (All-keep P p ms h.1)
]

module _ {T : Type 0} (x : Etree T) (laws : EtreeLaws x) (d : Doc) (name : Text)
    (plain : IsDc name) where
  pub children-Holds :
      {t : T} {els : List ℕ} {text : ℕ → Text}
      → Holds x d name t els text
      → children x d t name ≡ els
  children-Holds h = children_lem x laws d h.lists.shows name h.lists.unwrapped ∙ h.lists.els_lem

  pub text_of-Holds :
      {t : T} {els : List ℕ} {text : ℕ → Text}
      → Holds x d name t els text
      → (e : ℕ) → text_of x t e ≡ collapse (text e)
  text_of-Holds h e = text_of_lem x laws d h.lists.shows e

  named-Holds :
      {t : T} {els : List ℕ} {text : ℕ → Text} (h : Holds x d name t els text)
      → (e : ℕ) → contains els e ≡ true
      → h.tag e ≡ name
  named-Holds h e inside =
      let k = contains-keep (named_by h.tag name) h.kids e in
      let both : contains (keep (named_by h.tag name) h.kids) e ≡ true =
        ap (λ l. contains l e) h.lists.els_lem ∙ inside in
      (text_eq_iff (h.tag e) name).0 (ground arith)

  pub place-Holds :
      {t : T} {els : List ℕ} {text : ℕ → Text} (e : ℕ)
      → contains els e ≡ true
      → Holds x d name t els text
      → Holds x d name (place x d t (dc_slot name (some e))).1 (without els e ++ e ∷ []) text
  place-Holds e inside h = record {
    kids = without h.kids e ++ e ∷ [];
    tag = h.tag;
    lists = place_old x laws d name plain h.lists e (named-Holds h e inside);
  }

  -- The first write of a new slot makes an element, adds it and gives it its text.
  pub set_new-Holds :
      {t : T} {els : List ℕ} {text : ℕ → Text} (v : Text)
      → Holds x d name t els text
      → (e : ℕ) × ((slot_set x d t (dc_slot name none) v).0 ≡ dc_slot name (some e))
        × (contains els e ≡ false)
        × Holds x d name (slot_set x d t (dc_slot name none) v).1 (els ++ e ∷ []) (at text e v)
  unfolding slot_set ensure
  set_new-Holds {t} {els} {text} v h =
      let declared = dc_prefix_Lists x laws d name plain h.lists in
      let sp = (dc_prefix x d t).0 in
      let t1 = (dc_prefix x d t).1 in
      let e = (x.new_element t1 sp name).0 in
      let made = new_Lists x laws d name plain declared sp in
      let named : at h.tag e name e ≡ name = rw ((==_iff e e).1 refl) refl in
      let added = add_Lists x laws d name plain made e named in
      let written = text_Lists x laws d name plain added e v in
      let absent : contains els e ≡ false =
        absent_of h.kids h.tag e h.lists.els_lem (fresh_lem x laws d declared.shows sp name) in
      (
        e,
        refl,
        absent,
        rw (dc_parent_lem x laws d made.shows made.unwrapped) (record {
          kids = without h.kids e ++ e ∷ [];
          tag = at h.tag e name;
          lists = retexted e (
              subst
                (λ es.
                  Lists x d name (x.set_text (x.add_child (x.new_element t1 sp name).1 d.md e) e v)
                    (es ++ e ∷ []) (without h.kids e ++ e ∷ []) (at h.tag e name)
                    (at (at text e []) e v))
                (without_absent els e absent) written);
        }),
      )
    where
      absent_of :
          (kids : List ℕ) (tag : ℕ → Text) (e : ℕ)
          → keep (named_by tag name) kids ≡ els
          → contains kids e ≡ false
          → contains els e ≡ false
      absent_of kids tag e same free =
          ap (λ l. contains l e) (sym same)
          ∙ contains-keep (named_by tag name) kids e
          ∙ ground arith

      retexted :
          {t : T} {els kids : List ℕ} {tag : ℕ → Text} (e : ℕ)
          → Lists x d name t els kids tag (at (at text e []) e v)
          → Lists x d name t els kids tag (at text e v)
      retexted e l = record {
        shows = record {
          kids_lem = l.shows.kids_lem;
          tag_lem = l.shows.tag_lem;
          text_lem = λ m. l.shows.text_lem m ∙ ground arith;
        };
        unwrapped = l.unwrapped;
        els_lem = l.els_lem;
      }

  detach_metas :
      {t : T} {els : List ℕ} {text : ℕ → Text} (ms : List ℕ) (h : Holds x d name t els text)
      → All (λ m. text_eq (h.tag m) (codes "meta") ≡ true) ms
      → Holds x d name (detach_all x d t ms) els text
  detach_metas [] h k = h
  detach_metas {t = t} {els = els} {text = text} (m ∷ ms) h k =
      detach_metas {t = x.remove t m} {els = els} {text = text} ms
        (record {
          kids = without h.kids m;
          tag = h.tag;
          lists = remove_other x laws d name plain h.lists m (
              ap (λ s. text_eq s name) ((text_eq_iff (h.tag m) (codes "meta")).0 k.0)
              ∙ plain.no_meta);
        })
        k.1

  pub remove-Holds :
      {t : T} {els : List ℕ} {text : ℕ → Text} (e : ℕ)
      → Holds x d name t els text
      → Holds x d name (slot_remove x d t (dc_slot name (some e))) (without els e) text
  unfolding slot_remove remove_refinements
  remove-Holds {t} {els} {text} e h =
      let id = attr_of x t e (codes "id") in
      let metas = children_lem x laws d h.lists.shows (codes "meta") h.lists.unwrapped in
      let left =
        detach_metas (keep (λ m. refines_id x d t m id) (children x d t (codes "meta"))) h (
          rw metas (
            All-keep _ (λ m. refines_id x d t m id) (keep (named_by h.tag (codes "meta")) h.kids)
              (keep_named h.tag (codes "meta") h.kids))) in
      record {
        kids = without left.kids e;
        tag = left.tag;
        lists = remove_one x laws d name plain left.lists e;
      }
