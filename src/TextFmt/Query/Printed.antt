-- ===== src/TextFmt/Query/Printed.antt =====
-- Queries written out term by term are read back.
use ebookfs.Common.{
  split_one, split_more, ℕ, ◌<◌, ◌≡◌, ◌≢◌, refl, ap, ◌∙◌, true, List, [], ◌∷◌, ◌++◌, map, arith,
  All, All-append, Text, codes, split_on, cut_at, pos, format_nat, format_nat-IsDigit, IsDigit,
  parse_int-format_nat, int64_bound,
}
use ebookfs.TextFmt.Query.{
  Query, no_query, parsed, add_id, add_term, parse_term, parse_terms, parse_query,
}

pub data Term : Type 0 where
  author tag series status title : Text → Term
  id : ℕ → Term

abbrev pub prefix_of : Term → Text
prefix_of (author v) = codes "author"
prefix_of (tag v) = codes "tag"
prefix_of (series v) = codes "series"
prefix_of (status v) = codes "status"
prefix_of (title v) = codes "title"
prefix_of (id n) = codes "id"

abbrev pub value_of : Term → Text
value_of (author v) = v
value_of (tag v) = v
value_of (series v) = v
value_of (status v) = v
value_of (title v) = v
value_of (id n) = format_nat n

abbrev pub print_term : Term → Text
print_term t = prefix_of t ++ b':' ∷ value_of t

-- what a term adds to a query
abbrev pub extend : Query → Term → Query
extend q (author v) = record q { authors = q.authors ++ v ∷ [] }
extend q (tag v) = record q { tags = q.tags ++ v ∷ [] }
extend q (series v) = record q { series = q.series ++ v ∷ [] }
extend q (status v) = record q { status = q.status ++ v ∷ [] }
extend q (title v) = record q { titles = q.titles ++ v ∷ [] }
extend q (id n) = record q { ids = q.ids ++ pos n ∷ [] }

abbrev pub extend_all : Query → List Term → Query
extend_all q [] = q
extend_all q (t ∷ ts) = extend_all (extend q t) ts

-- a value with no plus sign in it, which would end the term, and an id that is an int64
abbrev pub IsPrintable : Term → Type 0
IsPrintable (id n) = n < int64_bound
IsPrintable (author v) = All (λ c. c ≢ b'+') v
IsPrintable (tag v) = All (λ c. c ≢ b'+') v
IsPrintable (series v) = All (λ c. c ≢ b'+') v
IsPrintable (status v) = All (λ c. c ≢ b'+') v
IsPrintable (title v) = All (λ c. c ≢ b'+') v

cut_at-append : (p v : Text) → All (λ c. c ≢ b':') p → cut_at b':' (p ++ b':' ∷ v) ≡ (p, v, true)
unfolding cut_at
cut_at-append [] v h = ground arith
cut_at-append (c ∷ p) v h = ground (arith, cut_at-append p v h.1)

prefix_plain : (t : Term) → All (λ c. c ≢ b':') (prefix_of t)
prefix_plain (author v) = omega arith
prefix_plain (tag v) = omega arith
prefix_plain (series v) = omega arith
prefix_plain (status v) = omega arith
prefix_plain (title v) = omega arith
prefix_plain (id n) = omega arith

add_printed :
    (q : Query) (t : Term)
    → IsPrintable t
    → add_term q (print_term t) (prefix_of t) (value_of t) ≡ parsed (extend q t)
unfolding add_term
add_printed q (author v) h = refl
add_printed q (tag v) h = refl
add_printed q (series v) h = refl
add_printed q (status v) h = refl
add_printed q (title v) h = refl
add_printed q (id n) h = rw (parse_int-format_nat n h) (unfold add_id in refl)

parse_printed :
    (q : Query) (t : Term) → IsPrintable t → parse_term q (print_term t) ≡ parsed (extend q t)
unfolding parse_term
parse_printed q t h =
    rw (cut_at-append (prefix_of t) (value_of t) (prefix_plain t)) (add_printed q t h)

digits_no_plus : (s : Text) → All IsDigit s → All (λ c. c ≢ b'+') s
digits_no_plus [] h = tt
digits_no_plus (c ∷ s) h = (omega arith, digits_no_plus s h.1)

no_plus_value : (t : Term) → IsPrintable t → All (λ c. c ≢ b'+') (value_of t)
no_plus_value (author v) h = h
no_plus_value (tag v) h = h
no_plus_value (series v) h = h
no_plus_value (status v) h = h
no_plus_value (title v) h = h
no_plus_value (id n) h = digits_no_plus (format_nat n) (format_nat-IsDigit n)

no_plus_prefix : (t : Term) → All (λ c. c ≢ b'+') (prefix_of t)
no_plus_prefix (author v) = omega arith
no_plus_prefix (tag v) = omega arith
no_plus_prefix (series v) = omega arith
no_plus_prefix (status v) = omega arith
no_plus_prefix (title v) = omega arith
no_plus_prefix (id n) = omega arith

no_plus : (t : Term) → IsPrintable t → All (λ c. c ≢ b'+') (print_term t)
no_plus t h =
    All-append (λ c. c ≢ b'+') (prefix_of t) (b':' ∷ value_of t) (no_plus_prefix t)
      (omega arith, no_plus_value t h)

-- the terms with a plus sign between them
abbrev pub print_query : Term → List Term → Text
print_query t [] = print_term t
print_query t (u ∷ ts) = print_term t ++ b'+' ∷ print_query u ts

split_printed :
    (t : Term) (ts : List Term)
    → All IsPrintable (t ∷ ts)
    → split_on b'+' (print_query t ts) ≡ map print_term (t ∷ ts)
split_printed t [] h = split_one b'+' (print_term t) (no_plus t h.0)
split_printed t (u ∷ ts) h =
    split_more b'+' (print_term t) (print_query u ts) (no_plus t h.0)
    ∙ ap (λ l. print_term t ∷ l) (split_printed u ts h.1)

parse_terms_step :
    (q q' : Query) (part : Text) (parts : List Text)
    → parse_term q part ≡ parsed q'
    → parse_terms q (part ∷ parts) ≡ parse_terms q' parts
unfolding parse_terms
parse_terms_step q q' part parts e = rw (e, parse_terms)

parse_printed_terms :
    (q : Query) (ts : List Term)
    → All IsPrintable ts
    → parse_terms q (map print_term ts) ≡ parsed (extend_all q ts)
unfolding parse_terms
parse_printed_terms q [] h = refl
parse_printed_terms q (t ∷ ts) h =
    parse_terms_step q (extend q t) (print_term t) (map print_term ts) (parse_printed q t h.0)
    ∙ parse_printed_terms (extend q t) ts h.1

-- A query written as terms with plus signs between them is parsed into the query that holds each term's
-- value in the list of its field, in the order written, and has the default order, limit and title
-- match. The values hold no plus sign (colons and spaces are kept), and an id is below 2 to the 63.
pub parse_query-print :
    (t : Term) (ts : List Term)
    → All IsPrintable (t ∷ ts)
    → parse_query (print_query t ts) ≡ parsed (extend_all no_query (t ∷ ts))
unfolding parse_query
parse_query-print t ts h = rw (split_printed t ts h) (parse_printed_terms no_query (t ∷ ts) h)
