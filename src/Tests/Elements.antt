-- ===== src/Tests/Elements.antt =====
-- An element tree on which the operations of the etree library are run, with its laws: a table of nodes.
pub mod Packages
mod Saves
use ebookfs.Common.{
  ℕ, zero, suc, ◌+◌, ◌==◌, ==_iff, ◌≡◌, refl, sym, ap, ◌∙◌, Bool, true, false, not, ◌&&◌, ◌||◌,
  List, [], ◌∷◌, ◌++◌, map, Option, none, some, arith, if◌then◌else◌, ltb, ◌≤◌, Text, text_eq,
  text_comparable, Dict, get, put, get-put, keep, contains, without, nat_comparable,
}
use ebookfs.Epub.Dom.{Etree, Attr}
use ebookfs.Epub.Dom.Shows.{EtreeLaws}

pub record Element : Type 0 where
  pub space : Text
  pub tag : Text
  pub attrs : List Attr
  pub text : Text
  pub kids : List ℕ

abbrev pub blank : Element
blank = record { space = []; tag = []; attrs = []; text = []; kids = [] }

abbrev pub Table : Type 0
Table = Dict ℕ Element

abbrev or_blank : Option Element → Element
or_blank none = blank
or_blank (some e) = e

look : Table → ℕ → Element
unfolding get
look t e = or_blank (get t e)

alter : Table → ℕ → (Element → Element) → Table
unfolding put look
alter t e f = put t e (f (look t e))

look-alter :
    (t : Table) (e : ℕ) (f : Element → Element) (m : ℕ)
    → look (alter t e f) m ≡ (if e == m then f (look t e) else look t m)
look-alter t e f m =
    unfold look alter in ap or_blank (get-put t e (f (look t e)) m) ∙ unfold look in ground arith

-- the node is no child of any element
orphan : Table → ℕ → Table
orphan [] e = []
orphan ((k, n) ∷ t) e = (k, record n { kids = without n.kids e }) ∷ orphan t e

look-orphan :
    (t : Table) (e m : ℕ)
    → look (orphan t e) m ≡ record (look t m) { kids = without (look t m).kids e }
unfolding look orphan
look-orphan [] e m = refl
look-orphan ((k, n) ∷ t) e m = ground (arith, look-orphan t e m)

larger : ℕ → List ℕ → ℕ
larger n [] = n
larger n (k ∷ ks) = let rest = larger n ks in if ltb rest (k + 1) then k + 1 else rest

next_node : Table → ℕ
unfolding larger
next_node [] = 0
next_node ((k, n) ∷ t) = larger (larger (next_node t) (k ∷ [])) n.kids

absent_above : (n m : ℕ) (ks : List ℕ) → larger n ks ≤ m → contains ks m ≡ false
unfolding larger
absent_above n m [] h = refl
absent_above n m (k ∷ ks) h = ground (arith, absent_above n m ks, ==_iff k m)

larger_grows : (n : ℕ) (ks : List ℕ) → n ≤ larger n ks
unfolding larger
larger_grows n [] = omega arith
larger_grows n (k ∷ ks) = ground (arith, larger_grows n ks)

absent_next : (t : Table) (m q : ℕ) → next_node t ≤ m → contains (look t q).kids m ≡ false
unfolding next_node look
absent_next [] m q h = refl
absent_next ((k, n) ∷ t) m q h =
    let here = absent_above (larger (next_node t) (k ∷ [])) m n.kids h in
    let below : next_node t ≤ m = omega (
      arith,
      larger_grows (larger (next_node t) (k ∷ [])) n.kids,
      larger_grows (next_node t) (k ∷ []),
    ) in
    ground (arith, absent_next t m q below)

-- attributes: the first with a key, whatever its prefix
abbrev find_attr : List Attr → Text → Option Attr
find_attr [] key = none
find_attr (a ∷ as') key = if text_eq a.key key then some a else find_attr as' key

abbrev value_of : Option Attr → Option Text
value_of none = none
value_of (some a) = some a.value

abbrev put_attr : List Attr → Text → Text → Text → List Attr
put_attr [] s k v = record { space = s; key = k; value = v } ∷ []
put_attr (a ∷ as') s k v =
    if text_eq a.space s && text_eq a.key k
    then record a { value = v } ∷ as'
    else a ∷ put_attr as' s k v

abbrev set_first : List Attr → Text → Text → List Attr
set_first [] k v = []
set_first (a ∷ as') k v =
    if text_eq a.key k then record a { value = v } ∷ as' else a ∷ set_first as' k v

abbrev drop_first : List Attr → Text → List Attr
drop_first [] k = []
drop_first (a ∷ as') k = if text_eq a.key k then as' else a ∷ drop_first as' k

abbrev is_found : Option Attr → Bool
is_found none = false
is_found (some a) = true

holders : Table → Text → List ℕ
holders [] key = []
holders ((k, n) ∷ t) key =
    let rest = holders t key in if is_found (find_attr n.attrs key) then k ∷ rest else rest

unfoldable pub table_tree : Etree Table
unfolding look alter orphan next_node holders
table_tree = record {
  child_elements = λ t e. (look t e).kids;
  tag = λ t e. (look t e).tag;
  space = λ t e. (look t e).space;
  attributes = λ t e. (look t e).attrs;
  attr = λ t e key. value_of (find_attr (look t e).attrs key);
  text = λ t e. (look t e).text;
  with_attr = λ t key. holders t key;
  set_text = λ t e v. alter t e (λ n. record n { text = v });
  set_value = λ t e key v. alter t e (λ n. record n { attrs = set_first n.attrs key v });
  create_attr = λ t e s k v. alter t e (λ n. record n { attrs = put_attr n.attrs s k v });
  remove_attr = λ t e key. alter t e (λ n. record n { attrs = drop_first n.attrs key });
  add_child = λ t p e. alter (orphan t e) p (λ n. record n { kids = n.kids ++ e ∷ [] });
  remove = λ t e. orphan t e;
  new_element = λ t s tag.
      (next_node t, alter t (next_node t) (λ n. record n { space = s; tag = tag; text = [] }));
}

pub table_tree-EtreeLaws : EtreeLaws table_tree
unfolding table_tree
table_tree-EtreeLaws = record {
  attr_children = λ t e s k v p.
      ground
        (arith, look-alter t e (λ n. record n { attrs = put_attr n.attrs s k v }) p, ==_iff e p);
  attr_tag = λ t e s k v m.
      ground
        (arith, look-alter t e (λ n. record n { attrs = put_attr n.attrs s k v }) m, ==_iff e m);
  attr_text = λ t e s k v m.
      ground
        (arith, look-alter t e (λ n. record n { attrs = put_attr n.attrs s k v }) m, ==_iff e m);
  text_children =
      λ t e v p. ground (arith, look-alter t e (λ n. record n { text = v }) p, ==_iff e p);
  text_tag = λ t e v m. ground (arith, look-alter t e (λ n. record n { text = v }) m, ==_iff e m);
  text_text = λ t e v m. ground (arith, look-alter t e (λ n. record n { text = v }) m, ==_iff e m);
  add_children = λ t p e q. ground (
    arith,
    look-alter (orphan t e) p (λ n. record n { kids = n.kids ++ e ∷ [] }) q,
    look-orphan t e q,
    look-orphan t e p,
    ==_iff p q,
  );
  add_tag = λ t p e m. ground (
    arith,
    look-alter (orphan t e) p (λ n. record n { kids = n.kids ++ e ∷ [] }) m,
    look-orphan t e m,
    look-orphan t e p,
    ==_iff p m,
  );
  add_text = λ t p e m. ground (
    arith,
    look-alter (orphan t e) p (λ n. record n { kids = n.kids ++ e ∷ [] }) m,
    look-orphan t e m,
    look-orphan t e p,
    ==_iff p m,
  );
  remove_children = λ t e q. ap (λ n. n.kids) (look-orphan t e q);
  remove_tag = λ t e m. ap (λ n. n.tag) (look-orphan t e m);
  remove_text = λ t e m. ap (λ n. n.text) (look-orphan t e m);
  new_children = λ t s tag q. ground (
    arith,
    look-alter t (next_node t) (λ n. record n { space = s; tag = tag; text = [] }) q,
    ==_iff (next_node t) q,
  );
  new_tag = λ t s tag m. ground (
    arith,
    look-alter t (next_node t) (λ n. record n { space = s; tag = tag; text = [] }) m,
    ==_iff (next_node t) m,
  );
  new_text = λ t s tag m. ground (
    arith,
    look-alter t (next_node t) (λ n. record n { space = s; tag = tag; text = [] }) m,
    ==_iff (next_node t) m,
  );
  fresh = λ t s tag q. absent_next t (next_node t) q (omega arith);
}
