-- ===== src/Tests/Commands.antt =====
-- internal/fs/ctl and internal/fs/textfmt at concrete lines.
use ebookfs.Common.{
  ℕ, ◌≡◌, ◌≢◌, refl, Bool, true, false, List, [], ◌∷◌, ◌++◌, Option, none, some, all, arith, Text,
  codes, length, ℤ, pos,
}
use ebookfs.Common.Slices.{last_of}
use ebookfs.Ctl.Log.{LogEntry, new_command_log, log_entries}
use ebookfs.Ctl.Log.Ring.{run, log_entries-run}
use ebookfs.Ctl.Words.{parse_command, command, unterminated}
use ebookfs.Ctl.Words.Quoting.{quote_words, parse_command-quote}
use ebookfs.TextFmt.Query.{
  parsed, rejected, invalid_id, invalid_term, unknown_prefix, parse_query, no_query,
}
use ebookfs.TextFmt.Query.Printed.{author, tag, id, extend_all, print_query, parse_query-print}

abbrev entry : ℕ → LogEntry
entry n = record { timestamp = n; command = codes "rescan"; result = codes "ok" }

log_entries-run_example :
    log_entries (run (new_command_log 2) (entry 1 ∷ entry 2 ∷ entry 3 ∷ []))
    ≡ last_of 2 (entry 1 ∷ entry 2 ∷ entry 3 ∷ [])
log_entries-run_example = log_entries-run 2 (entry 1 ∷ entry 2 ∷ entry 3 ∷ []) (omega arith)

open_quote : parse_command (codes "set title \"Good Omens") ≡ unterminated
unfolding parse_command ebookfs.Common.trim_space
open_quote = refl

spaced :
    parse_command (codes "  edit 3  title=\"Good Omens\" ")
    ≡ command (codes "edit") (codes "3" ∷ codes "title=Good Omens" ∷ [])
unfolding parse_command ebookfs.Common.trim_space
spaced = refl

parse_command-quote_example :
    parse_command (quote_words (codes "edit" ∷ codes "title=Good Omens" ∷ []))
    ≡ command (codes "edit") (codes "title=Good Omens" ∷ [])
parse_command-quote_example =
    parse_command-quote (codes "edit") (codes "title=Good Omens" ∷ [])
      ((cc, ground arith), ((cc, ground arith), tt))

bad_term : parse_query (codes "tag:x+oops") ≡ rejected (invalid_term (codes "oops"))
unfolding parse_query ebookfs.Common.split_on ebookfs.Common.cut_at ebookfs.Common.parse_int
bad_term = refl

bad_id :
    parse_query (codes "id:9223372036854775808")
    ≡ rejected (invalid_id (codes "id:9223372036854775808"))
unfolding parse_query ebookfs.Common.split_on ebookfs.Common.cut_at ebookfs.Common.parse_int
bad_id = refl

bad_prefix : parse_query (codes "publisher:x") ≡ rejected (unknown_prefix (codes "publisher:x"))
unfolding parse_query ebookfs.Common.split_on ebookfs.Common.cut_at ebookfs.Common.parse_int
bad_prefix = refl

parse_query-print_example :
    parse_query (print_query (author (codes "Le Guin")) (tag (codes "a:b") ∷ id 12 ∷ []))
    ≡ parsed (extend_all no_query (author (codes "Le Guin") ∷ tag (codes "a:b") ∷ id 12 ∷ []))
parse_query-print_example =
    parse_query-print (author (codes "Le Guin")) (tag (codes "a:b") ∷ id 12 ∷ [])
      (ground arith, (ground arith, (omega arith, tt)))
