-- ===== src/TextFmt/Query.antt =====
-- pkg/library/internal/index/query.go, the query, and internal/fs/textfmt/query.go, its text.
pub mod Printed
use ebookfs.Common.{
  ℕ, Bool, true, false, List, [], ◌∷◌, ◌++◌, Option, none, some, if◌then◌else◌, Text, codes,
  text_eq, split_on, cut_at, ℤ, parse_int,
}

pub data Order : Type 0 where
  sort_title date_added date_modified rating pubdate : Order

pub record Query : Type 0 where
  pub authors : List Text
  pub tags : List Text
  pub series : List Text
  pub status : List Text
  pub ids : List ℤ
  pub titles : List Text
  pub exact_titles : Bool
  pub order : Order
  pub limit : ℕ

abbrev pub no_query : Query
no_query = record {
  authors = [];
  tags = [];
  series = [];
  status = [];
  ids = [];
  titles = [];
  exact_titles = false;
  order = sort_title;
  limit = 0;
}

-- the three ways in which a term is rejected, each with the term
pub data QueryError : Type 0 where
  invalid_term invalid_id unknown_prefix : Text → QueryError

pub data Parsed : Type 0 where
  parsed : Query → Parsed
  rejected : QueryError → Parsed

add_id : Query → Text → Option ℤ → Parsed
add_id q part none = rejected (invalid_id part)
add_id q part (some id) = parsed (record q { ids = q.ids ++ id ∷ [] })

-- the switch on the prefix
add_term : Query → Text → Text → Text → Parsed
unfolding add_id
add_term q part prefix val =
    if text_eq prefix (codes "author")
    then parsed (record q { authors = q.authors ++ val ∷ [] })
    else if text_eq prefix (codes "tag")
    then parsed (record q { tags = q.tags ++ val ∷ [] })
    else if text_eq prefix (codes "series")
    then parsed (record q { series = q.series ++ val ∷ [] })
    else if text_eq prefix (codes "status")
    then parsed (record q { status = q.status ++ val ∷ [] })
    else if text_eq prefix (codes "id")
    then add_id q part (parse_int val)
    else if text_eq prefix (codes "title")
    then parsed (record q { titles = q.titles ++ val ∷ [] })
    else rejected (unknown_prefix part)

-- `strings.SplitN(part, ":", 2)` has two pieces exactly where the colon occurs
parse_term : Query → Text → Parsed
unfolding add_term
parse_term q part =
    let (prefix, val, found) = cut_at b':' part in
    if found then add_term q part prefix val else rejected (invalid_term part)

parse_terms : Query → List Text → Parsed
unfolding parse_term
parse_terms q [] = parsed q
parse_terms q (part ∷ parts) = elim (parse_term q part) [
  | parsed q' ↦ parse_terms q' parts
  | rejected e ↦ rejected e
]

unfoldable pub parse_query : Text → Parsed
unfolding parse_terms
parse_query query = parse_terms no_query (split_on b'+' query)
