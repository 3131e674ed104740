-- ===== src/Store/Paths/IdRoundTrip.antt =====
-- The id in the name of a book's directory is read back, whatever its title and authors.
use ebookfs.Common.{
  ℕ, suc, ◌+◌, ◌-◌, ◌≤◌, ◌<◌, ◌≡◌, ◌≢◌, refl, sym, ap, ◌∙◌, true, List, [], ◌∷◌, ◌++◌, append_assoc,
  none, some, arith, length, length-append, take, drop, take-append_exact, All, All-append, Text,
  codes, pos, format_int, IsDigit, format_nat, format_nat-IsDigit, parse_int-format_nat,
  int64_bound,
}
use ebookfs.FilePath
use ebookfs.FilePath.Clean.{IsElement, NoSlash, base-join, join_path_elements}
use ebookfs.Naming
use ebookfs.Naming.Safety.{IsComponent, InPath, path_safe-IsComponent}
use ebookfs.Book.{Author}
use ebookfs.Store.Paths.{
  author_dir_name, book_dir_name, canonical_dir, last_index, ends_with, positive, id_from_path,
}

All-InPath-NoSlash : (t : Text) → All InPath t → NoSlash t
All-InPath-NoSlash [] h = tt
All-InPath-NoSlash (c ∷ t) h = (h.0.0, All-InPath-NoSlash t h.1)

IsComponent-IsElement : (t : Text) → IsComponent t → IsElement t
IsComponent-IsElement t c = record {
  filled = c.filled;
  no_slash = All-InPath-NoSlash t c.runes;
  not_dot = c.not_dot;
  not_dot_dot = c.not_dot_dot;
}

pub author_dir_name-IsElement : (authors : List Author) → IsElement (author_dir_name authors)
unfolding author_dir_name
author_dir_name-IsElement authors = IsComponent-IsElement _ (path_safe-IsComponent _)

All-IsDigit-NoSlash : (t : Text) → All IsDigit t → NoSlash t
All-IsDigit-NoSlash [] h = tt
All-IsDigit-NoSlash (c ∷ t) h = (omega arith, All-IsDigit-NoSlash t h.1)

-- the suffix that carries the id
abbrev suffix : ℕ → Text
suffix n = codes " (" ++ (format_nat n ++ codes ")")

suffix-NoSlash : (n : ℕ) → NoSlash (suffix n)
suffix-NoSlash n = (
  omega arith,
  (
    omega arith,
    All-append (λ c. c ≢ b'/') (format_nat n) (codes ")")
        (All-IsDigit-NoSlash _ (format_nat-IsDigit n)) (omega arith, tt),
  ),
)

append_longer :
    (t : Text) (a b : ℕ) (s : Text) → t ≢ [] → (c : Text) → length c ≤ 2 → t ++ a ∷ b ∷ s ≢ c
append_longer [] a b s h c k = absurd (h refl)
append_longer (d ∷ t) a b s h c k = λ e. two_more t a b s (omega (arith, ap (length {A = ℕ}) e))
  where
    two_more : (t : Text) (a b : ℕ) (s : Text) → suc (length (t ++ a ∷ b ∷ s)) ≤ 2 → ⊥
    two_more t a b s l = omega (arith, length-append t (a ∷ b ∷ s))

pub book_dir_name-IsElement : (title : Text) (n : ℕ) → IsElement (book_dir_name title (pos n))
unfolding format_int
book_dir_name-IsElement title n =
    let c = path_safe-IsComponent title in
    record {
      filled = append_longer (Naming.path_safe title) _ _ _ c.filled [] (omega arith);
      no_slash =
          All-append (λ c. c ≢ b'/') (Naming.path_safe title) (suffix n)
            (All-InPath-NoSlash _ c.runes) (suffix-NoSlash n);
      not_dot = append_longer (Naming.path_safe title) _ _ _ c.filled (codes ".") (omega arith);
      not_dot_dot =
          append_longer (Naming.path_safe title) _ _ _ c.filled (codes "..") (omega arith);
    }

ends_with-append : (c : ℕ) (s : Text) → ends_with c (s ++ c ∷ []) ≡ true
unfolding ends_with
ends_with-append c [] = ground arith
ends_with-append c (d ∷ []) = ground arith
ends_with-append c (d ∷ e ∷ s) = ends_with-append c (e ∷ s)

-- Among digits and a closing bracket there is no " (".
last_index_digits : (s : Text) → All IsDigit s → last_index (codes " (") (s ++ codes ")") ≡ none
unfolding last_index
last_index_digits [] h = refl
last_index_digits (c ∷ s) h = ground (arith, last_index_digits s h.1)

last_index_suffix :
    (s : Text) → All IsDigit s → last_index (codes " (") (codes " (" ++ (s ++ codes ")")) ≡ some 0
unfolding last_index
last_index_suffix s h = ground (arith, last_index_digits s h)

last_index-append :
    (p t s : Text) → last_index p s ≡ some 0 → last_index p (t ++ s) ≡ some (length t)
last_index-append p [] s h = h
last_index-append p (c ∷ t) s h = step c (t ++ s) (length t) (last_index-append p t s h)
  where
    step :
        (c : ℕ) (s : Text) (n : ℕ) → last_index p s ≡ some n → last_index p (c ∷ s) ≡ some (suc n)
    step c s n h = unfold last_index in rw h

drop_past : (t : Text) (a b : ℕ) (r : Text) → drop (length t + 2) (t ++ a ∷ b ∷ r) ≡ r
drop_past [] a b r = refl
drop_past (c ∷ t) a b r =
    let e : suc (length t) + 2 ≡ suc (length t + 2) = omega arith in rw e (drop_past t a b r)

length_inner :
    (t : Text) (a b : ℕ) (d : Text) (z : ℕ)
    → length (t ++ a ∷ b ∷ (d ++ z ∷ [])) - 1 - (length t + 2) ≡ length d
length_inner t a b d z =
    omega (arith, length-append t (a ∷ b ∷ (d ++ z ∷ [])), length-append d (z ∷ []))

-- what stands between the opening and the closing bracket
between :
    (t : Text) (a b : ℕ) (d : Text) (z : ℕ)
    → take
        (length (t ++ a ∷ b ∷ (d ++ z ∷ [])) - 1 - (length t + 2))
        (drop (length t + 2) (t ++ a ∷ b ∷ (d ++ z ∷ [])))
      ≡ d
between t a b d z =
    rw (length_inner t a b d z, drop_past t a b (d ++ z ∷ [])) (take-append_exact d (z ∷ []))

ends_with_bracket : (t d : Text) → ends_with b')' (t ++ (codes " (" ++ (d ++ codes ")"))) ≡ true
ends_with_bracket t d =
    rw (sym (append_assoc t (codes " (" ++ d) (codes ")")))
      (ends_with-append b')' (t ++ (codes " (" ++ d)))

read_back :
    (path t : Text) (n : ℕ)
    → FilePath.base path ≡ t ++ suffix n
    → 0 < n
    → n < int64_bound
    → id_from_path path ≡ some (pos n)
unfolding id_from_path
read_back path t n e k l =
    rw
      (
        e,
        ends_with_bracket t (format_nat n),
        last_index-append (codes " (") t (suffix n)
            (last_index_suffix (format_nat n) (format_nat-IsDigit n)),
        e,
        between t 32 40 (format_nat n) 41,
        parse_int-format_nat n l,
      )
      (unfold positive in ground arith)

canonical_dir_lem :
    (authors : List Author) (title : Text) (n : ℕ)
    → canonical_dir authors title (pos n)
      ≡ author_dir_name authors ++ b'/' ∷ book_dir_name title (pos n)
unfolding canonical_dir
canonical_dir_lem authors title n =
    join_path_elements (author_dir_name authors) (book_dir_name title (pos n))
      (author_dir_name-IsElement authors) (book_dir_name-IsElement title n)

base-canonical_dir :
    (authors : List Author) (title : Text) (n : ℕ)
    → FilePath.base (canonical_dir authors title (pos n)) ≡ book_dir_name title (pos n)
base-canonical_dir authors title n = rw (canonical_dir_lem authors title n) (
    base-join (author_dir_name authors) (book_dir_name title (pos n))
      (book_dir_name-IsElement title n))

book_dir_name-suffix :
    (title : Text) (n : ℕ) → book_dir_name title (pos n) ≡ Naming.path_safe title ++ suffix n
unfolding format_int
book_dir_name-suffix title n = refl

-- The directory that is laid down for a book carries the book's id: `IDFromPath` reads it back, for
-- every list of authors, every title and every id that a library gives out (a positive int64).
pub id_from_path-canonical_dir :
    (authors : List Author) (title : Text) (n : ℕ)
    → 0 < n
    → n < int64_bound
    → id_from_path (canonical_dir authors title (pos n)) ≡ some (pos n)
id_from_path-canonical_dir authors title n k l =
    read_back (canonical_dir authors title (pos n)) (Naming.path_safe title) n
      (base-canonical_dir authors title n ∙ book_dir_name-suffix title n) k l
