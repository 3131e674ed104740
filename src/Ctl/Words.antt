-- ===== src/Ctl/Words.antt =====
-- internal/fs/ctl/command.go: a command line is split into words.
pub mod Quoting
use ebookfs.Common.{
  ℕ, ◌≡◌, Bool, true, false, not, ◌&&◌, List, [], ◌∷◌, ◌++◌, if◌then◌else◌, ◌==◌, Text, is_space,
  trim_space,
}

-- appends the word that was being read, if it has a rune
abbrev flush : List Text → Text → List Text
flush words [] = words
flush words (c ∷ cur) = words ++ (c ∷ cur) ∷ []

-- one round of the loop, on the words so far, the word being read, and whether a quote is open
word_step : ℕ → List Text → Text → Bool → List Text × Text × Bool
unfolding is_space
word_step r words cur in_quote =
    if r == b'"'
    then (words, cur, not in_quote)
    else if is_space r && not in_quote
    then (flush words cur, [], in_quote)
    else (words, cur ++ r ∷ [], in_quote)

scan_words : Text → List Text → Text → Bool → List Text × Bool
unfolding word_step
scan_words [] words cur in_quote = (flush words cur, in_quote)
scan_words (r ∷ s) words cur in_quote =
    let (words', cur', in_quote') = word_step r words cur in_quote in
    scan_words s words' cur' in_quote'

unfoldable pub split_words : Text → List Text × Bool
unfolding scan_words
split_words s = scan_words s [] [] false

pub data Command : Type 0 where
  unterminated : Command
  empty : Command
  command : Text → List Text → Command

command_of : List Text × Bool → Command
command_of (words, true) = unterminated
command_of ([], false) = empty
command_of (name ∷ args, false) = command name args

unfoldable pub parse_command : Text → Command
unfolding split_words command_of
parse_command s = command_of (split_words (trim_space s))
