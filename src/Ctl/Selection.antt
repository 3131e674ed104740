-- ===== src/Ctl/Selection.antt =====
-- internal/fs/ctl/idspec.go: the books that a command names.
pub mod Printed
use ebookfs.Common.{
  ℕ, Bool, true, false, ◌||◌, not, List, [], ◌∷◌, ◌++◌, Option, none, some, if◌then◌else◌, ◌==◌,
  any, Text, codes, text_eq, is_space, trim_space, fields_by, ℤ, parse_int,
}
use ebookfs.TextFmt.Query.{Query, no_query, QueryError, Parsed, parsed, rejected, parse_query}

pub data SelectionError : Type 0 where
  empty_spec : SelectionError
  bad_query : QueryError → SelectionError
  bad_id : Text → Text → SelectionError
  no_ids : Text → SelectionError

pub data Selection : Type 0 where
  selected : Query → Selection
  refused : SelectionError → Selection

abbrev pub is_separator : ℕ → Bool
is_separator r = r == b',' || is_space r

-- the ids, or the first field that is none
pub data Ids : Type 0 where
  ids : List ℤ → Ids
  not_id : Text → Ids

abbrev pub id_onto : Text → Option ℤ → Ids → Ids
id_onto p none rest = not_id p
id_onto p (some id) (ids l) = ids (id ∷ l)
id_onto p (some id) (not_id q) = not_id q

abbrev pub parse_ids : List Text → Ids
parse_ids [] = ids []
parse_ids (p ∷ ps) = id_onto p (parse_int p) (parse_ids ps)

abbrev pub selection_of : Text → Ids → Selection
selection_of spec (not_id p) = refused (bad_id p spec)
selection_of spec (ids []) = refused (no_ids spec)
selection_of spec (ids (id ∷ l)) = selected (record no_query { ids = id ∷ l })

unfoldable pub parse_id_list : Text → Selection
unfolding is_space
parse_id_list spec = selection_of spec (parse_ids (fields_by is_separator spec))

-- every part of a query is exact here, so that no more books are changed than were meant
abbrev pub exactly : Parsed → Selection
exactly (parsed q) = selected (record q { exact_titles = true })
exactly (rejected e) = refused (bad_query e)

abbrev pub select : Text → Selection
select [] = refused empty_spec
select (c ∷ s) =
    if text_eq (c ∷ s) (codes "*")
    then selected no_query
    else if any (λ r. r == b':') (c ∷ s)
    then exactly (parse_query (c ∷ s))
    else parse_id_list (c ∷ s)

unfoldable pub parse_selection : Text → Selection
parse_selection spec = select (trim_space spec)
