-- ===== src/Ctl/Selection/Printed.antt =====
-- A list of ids, written with commas, is read back by internal/fs/ctl/idspec.go.
use ebookfs.Common.{
  ℕ, fields_by, fields_one, fields_more, ◌<◌, ◌≡◌, ◌≢◌, refl, ap, ◌∙◌, true, false, List, [], ◌∷◌,
  ◌++◌, map, arith, ◌==◌, any, All, Text, codes, text_eq, is_space, trim_space, trim_fixed,
  head_kept, last_kept, pos, format_nat, format_nat-IsDigit, format_nat-ne-nil, All-append, IsDigit,
  parse_int-format_nat, int64_bound,
}
use ebookfs.TextFmt.Query.{no_query}
use ebookfs.Ctl.Selection.{
  selected, is_separator, ids, parse_ids, selection_of, parse_id_list, select, parse_selection,
}

-- the ids with a comma between them
abbrev pub print_ids : ℕ → List ℕ → Text
print_ids n [] = format_nat n
print_ids n (m ∷ ns) = format_nat n ++ b',' ∷ print_ids m ns

digits_unseparated : (p : Text) → All IsDigit p → All (λ c. is_separator c ≡ false) p
unfolding is_space
digits_unseparated [] h = tt
digits_unseparated (c ∷ p) h = (ground arith, digits_unseparated p h.1)

fields_printed :
    (n : ℕ) (ns : List ℕ) → fields_by is_separator (print_ids n ns) ≡ map format_nat (n ∷ ns)
fields_printed n [] =
    fields_one is_separator (format_nat n) (format_nat-ne-nil n)
      (digits_unseparated (format_nat n) (format_nat-IsDigit n))
fields_printed n (m ∷ ns) =
    fields_more is_separator (format_nat n) b',' (print_ids m ns) (format_nat-ne-nil n)
      (digits_unseparated (format_nat n) (format_nat-IsDigit n)) refl
    ∙ ap (λ l. format_nat n ∷ l) (fields_printed m ns)

parse_printed :
    (ns : List ℕ) → All (λ n. n < int64_bound) ns → parse_ids (map format_nat ns) ≡ ids (map pos ns)
parse_printed [] h = refl
parse_printed (n ∷ ns) h = rw (parse_int-format_nat n h.0, parse_printed ns h.1) refl

-- a rune that is neither trimmed nor has a meaning of its own in a selection
abbrev IsPlain : ℕ → Type 0
IsPlain c = (is_space c ≡ false) × ((c ≢ b':') × (c ≢ b'*'))

digits-IsPlain : (p : Text) → All IsDigit p → All IsPlain p
unfolding is_space
digits-IsPlain [] h = tt
digits-IsPlain (c ∷ p) h = ((ground arith, (omega arith, omega arith)), digits-IsPlain p h.1)

comma-IsPlain : IsPlain b','
unfolding is_space
comma-IsPlain = (refl, (omega arith, omega arith))

printed-IsPlain : (n : ℕ) (ns : List ℕ) → All IsPlain (print_ids n ns)
printed-IsPlain n [] = digits-IsPlain (format_nat n) (format_nat-IsDigit n)
printed-IsPlain n (m ∷ ns) =
    All-append IsPlain (format_nat n) (b',' ∷ print_ids m ns)
      (digits-IsPlain (format_nat n) (format_nat-IsDigit n)) (comma-IsPlain, printed-IsPlain m ns)

head_plain : (s : Text) → All IsPlain s → head_kept is_space s ≡ true
head_plain [] h = refl
head_plain (c ∷ s) h = rw h.0.0 refl

last_plain : (s : Text) → All IsPlain s → last_kept is_space s ≡ true
last_plain [] h = refl
last_plain (c ∷ []) h = rw h.0.0 refl
last_plain (c ∷ d ∷ s) h = last_plain (d ∷ s) h.1

trim_plain : (s : Text) → All IsPlain s → trim_space s ≡ s
unfolding trim_space
trim_plain s h = trim_fixed is_space s (head_plain s h) (last_plain s h)

no_colon : (s : Text) → All IsPlain s → any (λ r. r == b':') s ≡ false
no_colon [] h = refl
no_colon (c ∷ s) h = ground (arith, no_colon s h.1)

select_plain : (s : Text) → s ≢ [] → All IsPlain s → select s ≡ parse_id_list s
select_plain [] h p = absurd (h refl)
select_plain (c ∷ s) h p =
    let star : text_eq (c ∷ s) (codes "*") ≡ false = ground arith in
    rw (star, no_colon (c ∷ s) p) refl

printed_filled : (n : ℕ) (ns : List ℕ) → print_ids n ns ≢ []
printed_filled n [] h = format_nat-ne-nil n h
printed_filled n (m ∷ ns) h = no_nil (format_nat n) h
  where
    no_nil : (p : Text) → p ++ b',' ∷ print_ids m ns ≡ [] → ⊥
    no_nil [] h = cc
    no_nil (c ∷ p) h = cc

-- A list of ids below 2 to the 63, with commas between them, selects exactly those ids, in their order.
pub parse_selection-print :
    (n : ℕ) (ns : List ℕ)
    → All (λ n. n < int64_bound) (n ∷ ns)
    → parse_selection (print_ids n ns) ≡ selected (record no_query { ids = map pos (n ∷ ns) })
unfolding parse_selection parse_id_list
parse_selection-print n ns h =
    ap select (trim_plain (print_ids n ns) (printed-IsPlain n ns))
    ∙ select_plain (print_ids n ns) (printed_filled n ns) (printed-IsPlain n ns)
    ∙ ap (λ l. selection_of (print_ids n ns) (parse_ids l)) (fields_printed n ns)
    ∙ ap (selection_of (print_ids n ns)) (parse_printed (n ∷ ns) h)
