-- ===== src/Ctl/Words/Quoting.antt =====
-- Words in double quotes are read back as they were, spaces and all.
use ebookfs.Common.{
  ℕ, ◌≡◌, ◌≢◌, refl, sym, ap, ◌∙◌, Bool, true, false, List, [], ◌∷◌, ◌++◌, append_assoc, append-nil,
  arith, Text, is_space, trim_space, All, trim_fixed, last_kept,
}
use ebookfs.Ctl.Words.{flush, word_step, scan_words, split_words, command, parse_command}

-- a word that a pair of quotes can carry
abbrev pub IsQuotable : Text → Type 0
IsQuotable w = (w ≢ []) × All (λ c. c ≢ b'"') w

abbrev pub quote : Text → Text
quote w = b'"' ∷ (w ++ b'"' ∷ [])

-- the words, each in quotes, with a space before each but the first
abbrev pub quote_rest : List Text → Text
quote_rest [] = []
quote_rest (w ∷ ws) = 32 ∷ (quote w ++ quote_rest ws)

abbrev pub quote_words : List Text → Text
quote_words [] = []
quote_words (w ∷ ws) = quote w ++ quote_rest ws

-- the rest of the scan, from the state that a step leaves
abbrev scan_from : Text → List Text × Text × Bool → List Text × Bool
scan_from s (words, cur, in_quote) = scan_words s words cur in_quote

scan_step :
    (r : ℕ) (s : Text) (words : List Text) (cur : Text) (in_quote : Bool)
    → scan_words (r ∷ s) words cur in_quote ≡ scan_from s (word_step r words cur in_quote)
unfolding scan_words
scan_step r s words cur in_quote = refl

inside_step :
    (c : ℕ) (words : List Text) (cur : Text)
    → c ≢ b'"'
    → word_step c words cur true ≡ (words, cur ++ c ∷ [], true)
unfolding word_step
inside_step c words cur h = ground arith

scan_inside :
    (w rest : Text) (words : List Text) (cur : Text)
    → All (λ c. c ≢ b'"') w
    → scan_words (w ++ b'"' ∷ rest) words cur true ≡ scan_words rest words (cur ++ w) false
scan_inside [] rest words cur h =
    unfold scan_words word_step in ap (λ c. scan_words rest words c false) (sym (append-nil cur))
scan_inside (c ∷ w) rest words cur h =
    scan_step c (w ++ b'"' ∷ rest) words cur true
    ∙ ap (scan_from (w ++ b'"' ∷ rest)) (inside_step c words cur h.0)
    ∙ scan_inside w rest words (cur ++ c ∷ []) h.1
    ∙ ap (λ t. scan_words rest words t false) (append_assoc cur (c ∷ []) w)

flush_filled : (words : List Text) (w : Text) → w ≢ [] → flush words w ≡ words ++ w ∷ []
flush_filled words [] h = absurd (h refl)
flush_filled words (c ∷ w) h = refl

open_step : (words : List Text) → word_step b'"' words [] false ≡ (words, [], true)
unfolding word_step
open_step words = refl

-- a quoted word behind words that are finished
scan_quoted :
    (w rest : Text) (words : List Text)
    → All (λ c. c ≢ b'"') w
    → scan_words (quote w ++ rest) words [] false ≡ scan_words rest words w false
scan_quoted w rest words h =
    scan_step b'"' ((w ++ b'"' ∷ []) ++ rest) words [] false
    ∙ ap (scan_from ((w ++ b'"' ∷ []) ++ rest)) (open_step words)
    ∙ ap (λ t. scan_words t words [] true) (append_assoc w (b'"' ∷ []) rest)
    ∙ scan_inside w rest words [] h

space_step :
    (words : List Text) (w : Text) → word_step 32 words w false ≡ (flush words w, [], false)
unfolding word_step
space_step words w = refl

scan_rest :
    (ws : List Text) (words : List Text) (w : Text)
    → w ≢ []
    → All IsQuotable ws
    → scan_words (quote_rest ws) words w false ≡ (words ++ w ∷ ws, false)
scan_rest [] words w h q = unfold scan_words in ap (λ l. (l, false)) (flush_filled words w h)
scan_rest (v ∷ ws) words w h q =
    scan_step 32 (quote v ++ quote_rest ws) words w false
    ∙ ap (scan_from (quote v ++ quote_rest ws)) (space_step words w)
    ∙ ap (λ l. scan_words (quote v ++ quote_rest ws) l [] false) (flush_filled words w h)
    ∙ scan_quoted v (quote_rest ws) (words ++ w ∷ []) q.0.1
    ∙ scan_rest ws (words ++ w ∷ []) v q.0.0 q.1
    ∙ ap (λ l. (l, false)) (append_assoc words (w ∷ []) (v ∷ ws))

split_quoted :
    (w : Text) (ws : List Text)
    → All IsQuotable (w ∷ ws)
    → split_words (quote_words (w ∷ ws)) ≡ (w ∷ ws, false)
unfolding split_words
split_quoted w ws q = scan_quoted w (quote_rest ws) [] q.0.1 ∙ scan_rest ws [] w q.0.0 q.1

last_append : (s : Text) (c : ℕ) → is_space c ≡ false → last_kept is_space (s ++ c ∷ []) ≡ true
last_append [] c h = ground arith
last_append (d ∷ []) c h = ground arith
last_append (d ∷ e ∷ s) c h = last_append (e ∷ s) c h

last_right :
    (s t : Text) → t ≢ [] → last_kept is_space t ≡ true → last_kept is_space (s ++ t) ≡ true
last_right [] t h k = k
last_right (d ∷ []) [] h k = absurd (h refl)
last_right (d ∷ []) (e ∷ t) h k = k
last_right (d ∷ e ∷ s) t h k = last_right (e ∷ s) t h k

quote_last : is_space b'"' ≡ false
unfolding is_space
quote_last = refl

last_quote : (w : Text) → last_kept is_space (quote w) ≡ true
last_quote w = last_append (b'"' ∷ w) b'"' quote_last

last_rest :
    (ws : List Text) (s : Text)
    → last_kept is_space s ≡ true
    → last_kept is_space (s ++ quote_rest ws) ≡ true
last_rest [] s k = ap (last_kept is_space) (append-nil s) ∙ k
last_rest (w ∷ ws) s k =
    last_right s (quote_rest (w ∷ ws)) (cc) (last_rest ws (32 ∷ quote w) (last_quote w))

trim_quoted : (w : Text) (ws : List Text) → trim_space (quote_words (w ∷ ws)) ≡ quote_words (w ∷ ws)
unfolding trim_space
trim_quoted w ws =
    trim_fixed is_space (quote_words (w ∷ ws)) (unfold is_space in refl)
      (last_rest ws (quote w) (last_quote w))

-- A command line of words in double quotes, with spaces between them, is parsed into those words, the
-- first as the command's name: every word survives, spaces inside it included, if it is not empty and
-- holds no double quote.
pub parse_command-quote :
    (name : Text) (args : List Text)
    → All IsQuotable (name ∷ args)
    → parse_command (quote_words (name ∷ args)) ≡ command name args
unfolding parse_command
parse_command-quote name args q = rw (trim_quoted name args, split_quoted name args q)
