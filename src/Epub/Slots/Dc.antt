-- ===== src/Epub/Slots/Dc.antt =====
-- What the operations of a Dublin Core slot do to the elements (slot.go, docslots.go), in a document that
-- uses no wrapper.
use ebookfs.Common.{
  ℕ, ==_iff, ◌≡◌, refl, ap, ◌∙◌, Bool, false, ◌||◌, List, [], ◌∷◌, ◌++◌, Option, none, some, arith,
  Text, text_eq, text_eq_iff, codes, keep, any, contains, without, nat_comparable, keep-append,
}
use ebookfs.Epub.Dom.{Etree, Doc, children, dc_prefix, declared_prefix, ns_prefix}
use ebookfs.Epub.Dom.Shows.{
  EtreeLaws, Shows, named_by, wraps, Unwrapped, at, create_attr-Shows, set_text-Shows,
  add_child-Shows, remove-Shows, new_element-Shows, fresh_lem, dc_parent_lem,
}
use ebookfs.Epub.Slots.{dc_slot, place, ensure}

-- the name of a Dublin Core element: no wrapper and no meta
pub record IsDc (name : Text) : Type 0 where
  pub no_meta : text_eq (codes "meta") name ≡ false
  pub no_wrapper : (text_eq name (codes "dc-metadata") || text_eq name (codes "x-metadata")) ≡ false

any-without :
    (p : ℕ → Bool) (kids : List ℕ) (e : ℕ) → any p kids ≡ false → any p (without kids e) ≡ false
any-without p [] e h = refl
any-without p (k ∷ kids) e h = ground (arith, any-without p kids e)

any-append : (p : ℕ → Bool) (as' bs : List ℕ) → any p (as' ++ bs) ≡ (any p as' || any p bs)
any-append p [] bs = refl
any-append p (a ∷ as') bs = ground (arith, any-append p as' bs)

-- what is kept does not hang on what is left out
pub keep-without :
    (p : ℕ → Bool) (kids : List ℕ) (e : ℕ) → keep p (without kids e) ≡ without (keep p kids) e
keep-without p [] e = refl
keep-without p (k ∷ kids) e = ground (arith, keep-without p kids e)

pub without_absent : (kids : List ℕ) (e : ℕ) → contains kids e ≡ false → without kids e ≡ kids
without_absent [] e h = refl
without_absent (k ∷ kids) e h = ground (arith, without_absent kids e)

keep_none :
    (p : ℕ → Bool) (kids : List ℕ) (e : ℕ) → p e ≡ false → keep p (without kids e) ≡ keep p kids
keep_none p [] e h = refl
keep_none p (k ∷ kids) e h = ground (arith, keep_none p kids e h, ==_iff k e)

keep_at :
    (tag : ℕ → Text) (name other : Text) (kids : List ℕ) (e : ℕ)
    → contains kids e ≡ false
    → keep (named_by (at tag e name) other) kids ≡ keep (named_by tag other) kids
keep_at tag name other [] e h = refl
keep_at tag name other (k ∷ kids) e h =
    ground (arith, keep_at tag name other kids e, ==_iff k e, ==_iff e k)

any_at :
    (tag : ℕ → Text) (name : Text) (kids : List ℕ) (e : ℕ)
    → contains kids e ≡ false
    → any (wraps (at tag e name)) kids ≡ any (wraps tag) kids
any_at tag name [] e h = refl
any_at tag name (k ∷ kids) e h = ground (arith, any_at tag name kids e, ==_iff k e, ==_iff e k)

-- a document without wrappers, of which only the elements of one name are looked at
pub record Lists {T : Type 0} (x : Etree T) (d : Doc) (name : Text) (t : T) (els : List ℕ)
    (kids : List ℕ) (tag text : ℕ → Text) : Type 0 where
  pub shows : Shows x d t kids tag text
  pub unwrapped : Unwrapped kids tag
  pub els_lem : keep (named_by tag name) kids ≡ els

module _ {T : Type 0} (x : Etree T) (laws : EtreeLaws x) (d : Doc) (name : Text) (plain : IsDc name)
    {t : T} {els kids : List ℕ} {tag text : ℕ → Text} (l : Lists x d name t els kids tag text) where
  moved-Unwrapped :
      (kids : List ℕ) (tag : ℕ → Text) (e : ℕ)
      → tag e ≡ name
      → Unwrapped kids tag
      → Unwrapped (without kids e ++ e ∷ []) tag
  moved-Unwrapped kids tag e named h =
      any-append (wraps tag) (without kids e) (e ∷ [])
      ∙ ground (arith, any-without (wraps tag) kids e, plain.no_wrapper, named)

  moved_els :
      (e : ℕ)
      → tag e ≡ name
      → keep (named_by tag name) (without kids e ++ e ∷ []) ≡ without els e ++ e ∷ []
  moved_els e named =
      keep-append (named_by tag name) (without kids e) (e ∷ [])
      ∙ rw
          (
            keep-without (named_by tag name) kids e,
            l.els_lem,
            named,
            (text_eq_iff name name).1 refl,
          )
          refl

  -- an element of that name goes to the end
  pub add_Lists :
      (e : ℕ)
      → tag e ≡ name
      → Lists x d name
          (x.add_child t d.md e)
          (without els e ++ e ∷ [])
          (without kids e ++ e ∷ [])
          tag
          text
  add_Lists e named = record {
    shows = add_child-Shows x laws d l.shows e;
    unwrapped = moved-Unwrapped kids tag e named l.unwrapped;
    els_lem = moved_els e named;
  }

  pub place_old :
      (e : ℕ)
      → tag e ≡ name
      → Lists x d name
          (place x d t (dc_slot name (some e))).1
          (without els e ++ e ∷ [])
          (without kids e ++ e ∷ [])
          tag
          text
  unfolding place ensure
  place_old e named = rw (dc_parent_lem x laws d l.shows l.unwrapped) (add_Lists e named)

  attr_Lists : (e : ℕ) (sp k v : Text) → Lists x d name (x.create_attr t e sp k v) els kids tag text
  attr_Lists e sp k v = record {
    shows = create_attr-Shows x laws d l.shows e sp k v;
    unwrapped = l.unwrapped;
    els_lem = l.els_lem;
  }

  prefix_Lists :
      (o : Option Text) (uri preferred : Text)
      → Lists x d name
          (elim o as (λ _. Text × T) [
            | some key ↦ (key, t)
            | none ↦ (preferred, x.create_attr t d.pkg (codes "xmlns") preferred uri)
          ]).1
          els
          kids
          tag
          text
  prefix_Lists none uri preferred = attr_Lists d.pkg (codes "xmlns") preferred uri
  prefix_Lists (some key) uri preferred = l

  pub dc_prefix_Lists : Lists x d name (dc_prefix x d t).1 els kids tag text
  unfolding dc_prefix
  dc_prefix_Lists = go (children x d t (codes "title"))
    where
      go :
          (es : List ℕ)
          → Lists x d name
              (elim es as (λ _. Text × T) [
                | [] ↦ ns_prefix x d t (codes "http://purl.org/dc/elements/1.1/") (codes "dc")
                | e ∷ rest ↦ (x.space t e, t)
              ]).1
              els
              kids
              tag
              text
      go [] =
          prefix_Lists
            (declared_prefix x d (x.attributes t d.pkg) (codes "http://purl.org/dc/elements/1.1/"))
            (codes "http://purl.org/dc/elements/1.1/") (codes "dc")
      go (e ∷ rest) = l

  -- a new element of that name, before it has a parent
  pub new_Lists :
      (sp : Text)
      → Lists x d name
          (x.new_element t sp name).1
          els
          kids
          (at tag (x.new_element t sp name).0 name)
          (at text (x.new_element t sp name).0 [])
  new_Lists sp =
      let e = (x.new_element t sp name).0 in
      let fresh = fresh_lem x laws d l.shows sp name in
      record {
        shows = new_element-Shows x laws d l.shows sp name;
        unwrapped = any_at tag name kids e fresh ∙ l.unwrapped;
        els_lem = keep_at tag name name kids e fresh ∙ l.els_lem;
      }

  -- a new text for one element
  pub text_Lists : (e : ℕ) (v : Text) → Lists x d name (x.set_text t e v) els kids tag (at text e v)
  text_Lists e v = record {
    shows = set_text-Shows x laws d l.shows e v;
    unwrapped = l.unwrapped;
    els_lem = l.els_lem;
  }

  -- a node under <metadata> that is not of that name goes
  pub remove_other :
      (m : ℕ)
      → text_eq (tag m) name ≡ false
      → Lists x d name (x.remove t m) els (without kids m) tag text
  remove_other m other = record {
    shows = remove-Shows x laws d l.shows m;
    unwrapped = any-without (wraps tag) kids m l.unwrapped;
    els_lem = keep_none (named_by tag name) kids m other ∙ l.els_lem;
  }

  pub remove_one : (e : ℕ) → Lists x d name (x.remove t e) (without els e) (without kids e) tag text
  remove_one e = record {
    shows = remove-Shows x laws d l.shows e;
    unwrapped = any-without (wraps tag) kids e l.unwrapped;
    els_lem = keep-without (named_by tag name) kids e ∙ ap (λ es. without es e) l.els_lem;
  }
