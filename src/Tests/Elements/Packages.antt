-- ===== src/Tests/Elements/Packages.antt =====
-- The package document's fields on a small document, and the theorems at it.
use ebookfs.Common.{
  ℕ, ◌≡◌, refl, false, List, [], ◌∷◌, none, some, arith, Text, codes, text_comparable, contains,
  nat_comparable, get, put, delete, any, inr, fields_by, join, cut_at, format_nat, trim_space,
}
use ebookfs.Common.Numbered.{numbered, first_free}
use ebookfs.Book.Validation.FirstRepeat.{Distinct}
use ebookfs.Epub.Vocab.{
  collapse, bindings, expand, spell, unbound_name, prefix_fields, candidates, declare,
}
use ebookfs.Epub.Vocab.Bindings.{ArePairs, unbound_name-ends}
use ebookfs.Epub.Vocab.Spelling.{IsSpelled, spell-IsSpelled}
use ebookfs.Epub.Dom.{Attr, Doc, children, is_wrapper, attr_of, ids_of, ensure_id}
use ebookfs.Epub.Slots.{slot_get, dc_of}
use ebookfs.Epub.Slots.Dc.{IsDc}
use ebookfs.Epub.Slots.Ids.{ensure_id-fresh}
use ebookfs.Epub.Opf.{field_get, field_set}
use ebookfs.Epub.Opf.Plain.{field_get-field_set}
use ebookfs.Epub.Opf.Subjects.{subjects_get, subjects_set}
use ebookfs.Epub.Opf.Subjects.RoundTrip.{AreClean, subjects_get-subjects_set}
use ebookfs.Epub.Opf.Persons.{OpfContributor, people}
use ebookfs.Epub.Opf.Persons.Groups.{has_role, is_listed, person_names, people-groups}
use ebookfs.Epub.Opf.Readings.{
  Identifier, identifier_scheme, add_identifiers, add_identifier, urn_nid,
}
use ebookfs.Epub.Opf.Readings.Schemes.{StandsUnder, add_identifiers-StandsUnder}
use ebookfs.Tests.Elements.{Element, Table, table_tree, table_tree-EtreeLaws}

-- a document that has given the name dcterms to another vocabulary
abbrev rebound : Text
rebound = codes "dcterms: http://example.com/#"

abbrev modified : Text
modified = codes "dcterms:modified"

new_prefix :
    spell rebound modified
    ≡ some (
      codes "dcterms2:modified",
      codes "dcterms: http://example.com/# dcterms2: http://purl.org/dc/terms/",
    )
unfolding spell bindings candidates declare expand cut_at get fields_by collapse put delete
    first_free numbered format_nat
new_prefix = refl

rebound_pairs : ArePairs (prefix_fields rebound)
unfolding collapse fields_by join
rebound_pairs = omega arith

spell-IsSpelled_example :
    (name : Text) × (raw' : Text) × (spell rebound modified ≡ some (name, raw'))
    × IsSpelled rebound modified name raw'
unfolding cut_at get
spell-IsSpelled_example =
    spell-IsSpelled rebound modified rebound_pairs
      (inr (refl, codes "http://purl.org/dc/terms/", refl))

unbound_name-ends_example :
    (k : ℕ) × (unbound_name rebound (codes "dcterms") ≡ some (numbered (codes "dcterms") [] k))
    × (get (bindings rebound) (numbered (codes "dcterms") [] k) ≡ none)
unbound_name-ends_example = unbound_name-ends rebound (codes "dcterms")

abbrev plain_attr : Text → Text → Attr
plain_attr key value = record { space = []; key = key; value = value }

abbrev element : Text → List Attr → Text → List ℕ → Element
element tag attrs text kids = record {
  space = codes "dc";
  tag = tag;
  attrs = attrs;
  text = text;
  kids = kids;
}

-- two subjects, of which one is refined by a meta, and a blank description
abbrev pub book_doc : Table
book_doc =
    (0, element (codes "package") (plain_attr (codes "version") (codes "3.0") ∷ []) [] (1 ∷ []))
    ∷ (1, element (codes "metadata") [] [] (2 ∷ 3 ∷ 4 ∷ 5 ∷ 6 ∷ []))
    ∷ (2, element (codes "title") [] (codes "T") [])
    ∷ (3, element (codes "subject") [] (codes "Old") [])
    ∷ (4, element (codes "subject") (plain_attr (codes "id") (codes "s1") ∷ []) (codes "Keep") [])
    ∷ (
      5,
      element (codes "meta") (plain_attr (codes "refines") (codes "#s1") ∷ []) (codes "BISAC") [],
    )
    ∷ (6, element (codes "description") [] [] [])
    ∷ []

abbrev pub root : Doc
root = record { pkg = 0; md = 1 }

abbrev new_and_keep : List Text
new_and_keep = codes "New" ∷ codes "Keep" ∷ []

-- the kept subject keeps its refinement
subjects_kept :
    children table_tree root (subjects_set table_tree root book_doc new_and_keep) (codes "meta")
    ≡ 5 ∷ []
unfolding subjects_set children table_tree collapse delete ebookfs.Epub.Slots.slot_remove
    ebookfs.Epub.Dom.remove_refinements ebookfs.Epub.Slots.place ebookfs.Epub.Slots.slot_set
    ebookfs.Epub.Dom.dc_prefix
subjects_kept = refl

-- and the one that goes takes it along
subjects_dropped :
    children table_tree root
      (subjects_set table_tree root book_doc (codes "New" ∷ []))
      (codes "meta")
    ≡ []
unfolding subjects_set children table_tree collapse delete ebookfs.Epub.Slots.slot_remove
    ebookfs.Epub.Dom.remove_refinements ebookfs.Epub.Slots.place ebookfs.Epub.Slots.slot_set
    ebookfs.Epub.Dom.dc_prefix cut_at
subjects_dropped = refl

new_and_keep-AreClean : AreClean new_and_keep
unfolding collapse fields_by join
new_and_keep-AreClean = ((λ e. absurd (cc), refl), ((λ e. absurd (cc), refl), tt))

unwrapped :
    any (is_wrapper table_tree book_doc) (table_tree.child_elements book_doc root.md) ≡ false
unfolding table_tree
unwrapped = refl

subjects_get-subjects_set_example :
    subjects_get table_tree root (subjects_set table_tree root book_doc new_and_keep) ≡ new_and_keep
subjects_get-subjects_set_example =
    subjects_get-subjects_set table_tree table_tree-EtreeLaws root book_doc new_and_keep unwrapped
      new_and_keep-AreClean (refl, (refl, tt))

description-IsDc : IsDc (codes "description")
description-IsDc = record { no_meta = refl; no_wrapper = refl }

abbrev about : Text
about = codes "About it"

about_clean : collapse about ≡ about
unfolding collapse fields_by join
about_clean = refl

field_get-field_set_example :
    field_get table_tree root
      (field_set table_tree root book_doc (codes "description") about)
      (codes "description")
    ≡ about
field_get-field_set_example =
    field_get-field_set table_tree table_tree-EtreeLaws root (codes "description") description-IsDc
      book_doc about unwrapped (λ e. absurd (cc)) about_clean

no_id : attr_of table_tree book_doc 3 (codes "id") ≡ []
unfolding table_tree collapse fields_by join
no_id = refl

ensure_id-fresh_example :
    (k : ℕ) × (contains (ids_of table_tree root book_doc) (numbered (codes "s1") (b'-' ∷ []) k)
      ≡ false)
    × (ensure_id table_tree root book_doc 3 (codes "s1") ≡ (
      some (numbered (codes "s1") (b'-' ∷ []) k),
      table_tree.create_attr book_doc 3 [] (codes "id") (numbered (codes "s1") (b'-' ∷ []) k),
    ))
ensure_id-fresh_example = ensure_id-fresh table_tree root book_doc 3 (codes "s1") no_id

-- the stem is the id of another element
id_taken : (ensure_id table_tree root book_doc 3 (codes "s1")).0 ≡ some (codes "s1-2")
unfolding ensure_id table_tree collapse first_free numbered format_nat
id_taken = refl

abbrev ascii_lower : ℕ → ℕ
ascii_lower c = c

abbrev isbn : Identifier
isbn = record {
  scheme = [];
  code = codes "15";
  type_name = [];
  value = codes "978";
  id = codes "i";
}

abbrev nameless : Identifier
nameless = record { scheme = []; code = []; type_name = []; value = codes "42"; id = [] }

identifiers_read :
    add_identifiers ascii_lower [] (isbn ∷ nameless ∷ nameless ∷ [])
    ≡ (codes "unknown-2", codes "42")
      ∷ (codes "unknown", codes "42")
      ∷ (codes "isbn", codes "978")
      ∷ []
unfolding add_identifier identifier_scheme urn_nid trim_space first_free get put numbered delete
    format_nat
identifiers_read = refl

add_identifiers-StandsUnder_example :
    StandsUnder ascii_lower []
      (identifier_scheme ascii_lower nameless)
      (add_identifiers ascii_lower [] (nameless ∷ isbn ∷ []))
    × ((k v : Text)
        → get [] k ≡ some v
        → get (add_identifiers ascii_lower [] (nameless ∷ isbn ∷ [])) k ≡ some v)
add_identifiers-StandsUnder_example =
    add_identifiers-StandsUnder ascii_lower [] nameless (isbn ∷ []) (λ e. absurd (cc))

abbrev helper : Text → OpfContributor
helper role = record { name = codes "Ann"; role = role }

people-groups_example :
    Distinct (person_names (people (helper (codes "ill") ∷ helper (codes "trl") ∷ [])))
    × (has_role
          (codes "Ann")
          (codes "trl")
          (people (helper (codes "ill") ∷ helper (codes "trl") ∷ []))
        ≡ is_listed (codes "Ann") (codes "trl") (helper (codes "ill") ∷ helper (codes "trl") ∷ []))
people-groups_example =
    people-groups (helper (codes "ill") ∷ helper (codes "trl") ∷ []) (codes "Ann") (codes "trl")
      (λ e. absurd (cc))
