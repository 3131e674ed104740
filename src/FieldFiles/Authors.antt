-- ===== src/FieldFiles/Authors.antt =====
-- The file `authors` of internal/fs/book/fields.go.
use ebookfs.Common.{
  ℕ, ◌≡◌, ◌≢◌, refl, sym, ap, ◌∙◌, subst, true, false, List, [], ◌∷◌, ◌++◌, append_assoc, map, some,
  arith, All, All-append, Text, codes, text_eq_iff, join, split_on, cut_at, is_space, trim_space,
  head_kept, last_kept, trim_left, trim_right, trim_fixed, split_one, split_more, pos,
}
use ebookfs.Book.{Author, Book}
use ebookfs.Book.Edits.{no_edits}
use ebookfs.TextFmt.{parse_author}
use ebookfs.FieldFiles.{
  FloatText, Field, newline, print_pair, print_authors, onto_named, parse_authors, set_authors,
  get_field, edits_of,
}

-- a name or a sort name that a line can carry: already trimmed, on one line, without a bar
pub record IsPlainName (t : Text) : Type 0 where
  pub starts : head_kept is_space t ≡ true
  pub ends : last_kept is_space t ≡ true
  pub one_line : All (λ c. c ≢ 10) t
  pub no_bar : All (λ c. c ≢ b'|') t

pub record IsWritable (a : Author) : Type 0 where
  pub named : a.name ≢ []
  pub name : IsPlainName a.name
  pub sort_name : IsPlainName a.sort_name
  pub unnumbered : a.id ≡ pos 0

no_bar_cut : (s : Text) → All (λ c. c ≢ b'|') s → cut_at b'|' s ≡ (s, [], false)
unfolding cut_at
no_bar_cut [] h = refl
no_bar_cut (c ∷ s) h = ground (arith, no_bar_cut s h.1)

bar_cut : (s t : Text) → All (λ c. c ≢ b'|') s → cut_at b'|' (s ++ b'|' ∷ t) ≡ (s, t, true)
unfolding cut_at
bar_cut [] t h = ground arith
bar_cut (c ∷ s) t h = ground (arith, bar_cut s t h.1)

trim_right_space : (s : Text) → trim_right is_space (s ++ 32 ∷ []) ≡ trim_right is_space s
unfolding is_space
trim_right_space [] = refl
trim_right_space (c ∷ s) = ground (arith, trim_right_space s)

trim_plain : (t : Text) → IsPlainName t → trim_space t ≡ t
unfolding trim_space
trim_plain t h = trim_fixed is_space t h.starts h.ends

-- a space behind a name, and one before a note
trim_behind : (t : Text) → t ≢ [] → IsPlainName t → trim_space (t ++ 32 ∷ []) ≡ t
unfolding trim_space
trim_behind [] f h = absurd (f refl)
trim_behind (c ∷ t) f h =
    let kept : is_space c ≡ false = let k = h.starts in ground arith in
    ap (trim_right is_space) (cons_kept c (t ++ 32 ∷ []) kept)
    ∙ trim_right_space (c ∷ t)
    ∙ ap (trim_right is_space) (sym (cons_kept c t kept))
    ∙ trim_fixed is_space (c ∷ t) h.starts h.ends
  where
    cons_kept : (c : ℕ) (t : Text) → is_space c ≡ false → trim_left is_space (c ∷ t) ≡ c ∷ t
    cons_kept c t k = rw k refl

trim_before : (t : Text) → IsPlainName t → trim_space (32 ∷ t) ≡ t
unfolding trim_space is_space
trim_before t h = trim_fixed is_space t h.starts h.ends

parsed_pair :
    (a : Author) (t : Text)
    → IsWritable a
    → a.sort_name ≡ t
    → parse_author (print_pair a.name t) ≡ record { id = pos 0; name = a.name; sort_name = t }
unfolding parse_author
parsed_pair a [] w e =
    rw (no_bar_cut a.name w.name.no_bar, trim_plain a.name w.name) (unfold trim_space in refl)
parsed_pair a (c ∷ t) w e =
    let plain : IsPlainName (c ∷ t) = subst IsPlainName e w.sort_name in
    let line : a.name ++ (codes " | " ++ (c ∷ t)) ≡ (a.name ++ 32 ∷ []) ++ b'|' ∷ 32 ∷ c ∷ t =
      sym (append_assoc a.name (32 ∷ []) (b'|' ∷ 32 ∷ c ∷ t)) in
    let bare : All (λ x. x ≢ b'|') (a.name ++ 32 ∷ []) =
      All-append (λ x. x ≢ b'|') a.name (32 ∷ []) w.name.no_bar (omega arith) in
    rw
      (
        line,
        bar_cut (a.name ++ 32 ∷ []) (32 ∷ c ∷ t) bare,
        trim_behind a.name w.named w.name,
        trim_before (c ∷ t) plain,
      )
      refl

-- an author is what its line is read as
read_author : (a : Author) → IsWritable a → parse_author (print_pair a.name a.sort_name) ≡ a
read_author a w =
    parsed_pair a a.sort_name w refl
    ∙ (λ i. record { id = sym w.unnumbered i; name = a.name; sort_name = a.sort_name })

one_line_pair :
    (name t : Text)
    → All (λ c. c ≢ 10) name
    → All (λ c. c ≢ 10) t
    → All (λ c. c ≢ 10) (print_pair name t)
one_line_pair name [] h k = h
one_line_pair name (c ∷ t) h k =
    All-append (λ c. c ≢ 10) name (codes " | " ++ (c ∷ t)) h
      (omega arith, (omega arith, (omega arith, k)))

abbrev line_of : Author → Text
line_of a = print_pair a.name a.sort_name

line_of-plain : (a : Author) → IsWritable a → All (λ c. c ≢ 10) (line_of a)
line_of-plain a w = one_line_pair a.name a.sort_name w.name.one_line w.sort_name.one_line

split_lines :
    (a : Author) (as' : List Author)
    → All IsWritable (a ∷ as')
    → split_on 10 (join (map line_of (a ∷ as')) newline) ≡ map line_of (a ∷ as')
unfolding join
split_lines a [] h = split_one 10 (line_of a) (line_of-plain a h.0)
split_lines a (b ∷ as') h =
    split_more 10 (line_of a) (join (map line_of (b ∷ as')) newline) (line_of-plain a h.0)
    ∙ ap (λ l. line_of a ∷ l) (split_lines b as' h.1)

kept_named : (a : Author) (l : List Author) → a.name ≢ [] → onto_named a l ≡ a ∷ l
kept_named a l h = ground (arith, text_eq_iff a.name [])

read_lines : (as' : List Author) → All IsWritable as' → parse_authors (map line_of as') ≡ as'
read_lines [] h = refl
read_lines (a ∷ as') h =
    ap (λ x. onto_named x (parse_authors (map line_of as'))) (read_author a h.0)
    ∙ kept_named a (parse_authors (map line_of as')) h.0.named
    ∙ ap (λ l. a ∷ l) (read_lines as' h.1)

pub edits_of-print_authors :
    (f : FloatText) (b : Book) (a : Author) (as' : List Author)
    → b.bib.authors ≡ a ∷ as'
    → All IsWritable (a ∷ as')
    → edits_of f Field.authors (get_field f Field.authors b)
      ≡ some (record no_edits { authors = some (a ∷ as') })
unfolding edits_of get_field print_authors
edits_of-print_authors f b a as' e h =
    ap (λ l. set_authors (parse_authors (split_on 10 (join (map line_of l) newline)))) e
    ∙ ap (λ l. set_authors (parse_authors l)) (split_lines a as' h)
    ∙ ap set_authors (read_lines (a ∷ as') h)
