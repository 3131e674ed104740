-- ===== src/Epub/Dom/Shows.antt =====
-- What the etree library promises of the operations that pkg/epub/internal/opf/pkgdoc calls, and what the
-- code sees of a document that keeps its metadata directly under <metadata>.
use ebookfs.Common.{
  ℕ, ◌==◌, ==_iff, ◌≡◌, refl, sym, ap, ◌∙◌, Bool, false, ◌||◌, List, [], ◌∷◌, ◌++◌, none, some,
  arith, if◌then◌else◌, Text, text_eq, codes, keep, any, contains, without, nat_comparable,
}
use ebookfs.Epub.Vocab.{collapse}
use ebookfs.Epub.Dom.{Etree, Doc, text_of, tagged, children_in, children, dc_parent, head_or_none}

-- Attributes leave the elements alone. A new element is no child yet, has the name that it is given and
-- no text. A child that is added stands last under its parent, and under no other.
pub record EtreeLaws {T : Type 0} (x : Etree T) : Type 0 where
  pub attr_children :
      (t : T) (e : ℕ) (s k v : Text) (p : ℕ)
      → x.child_elements (x.create_attr t e s k v) p ≡ x.child_elements t p
  pub attr_tag :
      (t : T) (e : ℕ) (s k v : Text) (m : ℕ) → x.tag (x.create_attr t e s k v) m ≡ x.tag t m
  pub attr_text :
      (t : T) (e : ℕ) (s k v : Text) (m : ℕ) → x.text (x.create_attr t e s k v) m ≡ x.text t m
  pub text_children :
      (t : T) (e : ℕ) (v : Text) (p : ℕ)
      → x.child_elements (x.set_text t e v) p ≡ x.child_elements t p
  pub text_tag : (t : T) (e : ℕ) (v : Text) (m : ℕ) → x.tag (x.set_text t e v) m ≡ x.tag t m
  pub text_text :
      (t : T) (e : ℕ) (v : Text) (m : ℕ)
      → x.text (x.set_text t e v) m ≡ (if e == m then v else x.text t m)
  pub add_children :
      (t : T) (p e q : ℕ)
      → x.child_elements (x.add_child t p e) q ≡ (
          if p == q
          then without (x.child_elements t q) e ++ e ∷ []
          else without (x.child_elements t q) e)
  pub add_tag : (t : T) (p e m : ℕ) → x.tag (x.add_child t p e) m ≡ x.tag t m
  pub add_text : (t : T) (p e m : ℕ) → x.text (x.add_child t p e) m ≡ x.text t m
  pub remove_children :
      (t : T) (e q : ℕ) → x.child_elements (x.remove t e) q ≡ without (x.child_elements t q) e
  pub remove_tag : (t : T) (e m : ℕ) → x.tag (x.remove t e) m ≡ x.tag t m
  pub remove_text : (t : T) (e m : ℕ) → x.text (x.remove t e) m ≡ x.text t m
  pub new_children :
      (t : T) (s tag : Text) (q : ℕ)
      → x.child_elements (x.new_element t s tag).1 q ≡ x.child_elements t q
  pub new_tag :
      (t : T) (s tag : Text) (m : ℕ)
      → x.tag (x.new_element t s tag).1 m
        ≡ (if (x.new_element t s tag).0 == m then tag else x.tag t m)
  pub new_text :
      (t : T) (s tag : Text) (m : ℕ)
      → x.text (x.new_element t s tag).1 m
        ≡ (if (x.new_element t s tag).0 == m then [] else x.text t m)
  pub fresh :
      (t : T) (s tag : Text) (q : ℕ)
      → contains (x.child_elements t q) (x.new_element t s tag).0 ≡ false

-- the children of <metadata>, and the names and texts of all elements
pub record Shows {T : Type 0} (x : Etree T) (d : Doc) (t : T) (kids : List ℕ) (tag text : ℕ → Text)
    : Type 0 where
  pub kids_lem : x.child_elements t d.md ≡ kids
  pub tag_lem : (e : ℕ) → x.tag t e ≡ tag e
  pub text_lem : (e : ℕ) → x.text t e ≡ text e

abbrev pub named_by : (ℕ → Text) → Text → ℕ → Bool
named_by tag name e = text_eq (tag e) name

abbrev pub wraps : (ℕ → Text) → ℕ → Bool
wraps tag e = text_eq (tag e) (codes "dc-metadata") || text_eq (tag e) (codes "x-metadata")

-- no element of the deprecated wrappers
abbrev pub Unwrapped : List ℕ → (ℕ → Text) → Type 0
Unwrapped kids tag = any (wraps tag) kids ≡ false

abbrev pub at : (ℕ → Text) → ℕ → Text → ℕ → Text
at f e v m = if e == m then v else f m

module _ {T : Type 0} (x : Etree T) (d : Doc) where
  pub Shows-self : (t : T) → Shows x d t (x.child_elements t d.md) (x.tag t) (x.text t)
  Shows-self t = record { kids_lem = refl; tag_lem = λ e. refl; text_lem = λ e. refl }

module _ {T : Type 0} (x : Etree T) (laws : EtreeLaws x) (d : Doc) {t : T} {kids : List ℕ}
    {tag text : ℕ → Text} (s : Shows x d t kids tag text) where
  pub create_attr-Shows :
      (e : ℕ) (sp k v : Text) → Shows x d (x.create_attr t e sp k v) kids tag text
  create_attr-Shows e sp k v = record {
    kids_lem = laws.attr_children t e sp k v d.md ∙ s.kids_lem;
    tag_lem = λ m. laws.attr_tag t e sp k v m ∙ s.tag_lem m;
    text_lem = λ m. laws.attr_text t e sp k v m ∙ s.text_lem m;
  }

  pub set_text-Shows : (e : ℕ) (v : Text) → Shows x d (x.set_text t e v) kids tag (at text e v)
  set_text-Shows e v = record {
    kids_lem = laws.text_children t e v d.md ∙ s.kids_lem;
    tag_lem = λ m. laws.text_tag t e v m ∙ s.tag_lem m;
    text_lem = λ m. laws.text_text t e v m ∙ ap (λ r. if e == m then v else r) (s.text_lem m);
  }

  pub add_child-Shows :
      (e : ℕ) → Shows x d (x.add_child t d.md e) (without kids e ++ e ∷ []) tag text
  add_child-Shows e = record {
    kids_lem =
        laws.add_children t d.md e d.md
        ∙ rw ((==_iff d.md d.md).1 refl) (ap (λ l. without l e ++ e ∷ []) s.kids_lem);
    tag_lem = λ m. laws.add_tag t d.md e m ∙ s.tag_lem m;
    text_lem = λ m. laws.add_text t d.md e m ∙ s.text_lem m;
  }

  pub remove-Shows : (e : ℕ) → Shows x d (x.remove t e) (without kids e) tag text
  remove-Shows e = record {
    kids_lem = laws.remove_children t e d.md ∙ ap (λ l. without l e) s.kids_lem;
    tag_lem = λ m. laws.remove_tag t e m ∙ s.tag_lem m;
    text_lem = λ m. laws.remove_text t e m ∙ s.text_lem m;
  }

  pub new_element-Shows :
      (sp name : Text)
      → Shows x d
          (x.new_element t sp name).1
          kids
          (at tag (x.new_element t sp name).0 name)
          (at text (x.new_element t sp name).0 [])
  new_element-Shows sp name =
      let e = (x.new_element t sp name).0 in
      record {
        kids_lem = laws.new_children t sp name d.md ∙ s.kids_lem;
        tag_lem =
            λ m. laws.new_tag t sp name m ∙ ap (λ r. if e == m then name else r) (s.tag_lem m);
        text_lem =
            λ m. laws.new_text t sp name m ∙ ap (λ r. if e == m then [] else r) (s.text_lem m);
      }

  pub fresh_lem : (sp name : Text) → contains kids (x.new_element t sp name).0 ≡ false
  fresh_lem sp name =
      ap (λ l. contains l (x.new_element t sp name).0) (sym s.kids_lem) ∙ laws.fresh t sp name d.md

  pub text_of_lem : (e : ℕ) → text_of x t e ≡ collapse (text e)
  text_of_lem e = ap collapse (s.text_lem e)

  children_plain :
      (name : Text) (cs : List ℕ)
      → any (wraps tag) cs ≡ false
      → children_in x t name cs ≡ keep (named_by tag name) cs
  children_plain name [] h = refl
  children_plain name (c ∷ cs) h = rw (s.tag_lem c) (ground (arith, children_plain name cs))

  pub children_lem :
      (name : Text) → Unwrapped kids tag → children x d t name ≡ keep (named_by tag name) kids
  unfolding children
  children_lem name h = ap (children_in x t name) s.kids_lem ∙ children_plain name kids h

  none_named :
      (cs : List ℕ) → any (wraps tag) cs ≡ false → keep (tagged x t (codes "dc-metadata")) cs ≡ []
  none_named [] h = refl
  none_named (c ∷ cs) h = rw (s.tag_lem c) (ground (arith, none_named cs))

  pub dc_parent_lem : Unwrapped kids tag → dc_parent x d t ≡ d.md
  dc_parent_lem h =
      ap (λ l. elim (head_or_none l) [ none ↦ d.md | some w ↦ w ])
        (ap (keep (tagged x t (codes "dc-metadata"))) s.kids_lem ∙ none_named kids h)
