-- ===== src/Ctl/Log.antt =====
-- CommandLog of internal/fs/ctl/log.go: a ring buffer of the last commands and their results.
pub mod Ring
use ebookfs.Common.{
  ℕ, ◌+◌, ◌-◌, ◌%◌, Bool, true, false, List, [], ◌∷◌, ◌++◌, if◌then◌else◌, ◌==◌, length, set, take,
  drop, replicate, Text,
}

pub record LogEntry : Type 0 where
  pub timestamp : ℕ
  pub command : Text
  pub result : Text

abbrev pub blank_entry : LogEntry
blank_entry = record { timestamp = 0; command = []; result = [] }

pub record CommandLog : Type 0 where
  pub entries : List LogEntry
  pub max : ℕ
  pub next : ℕ
  pub full : Bool

unfoldable pub new_command_log : ℕ → CommandLog
new_command_log max = record {
  entries = replicate max blank_entry;
  max = max;
  next = 0;
  full = false;
}

-- The clock is read as the entry's time stamp.
unfoldable pub append_entry : CommandLog → LogEntry → CommandLog
append_entry l e =
    let next = (l.next + 1) % l.max in
    record l {
      entries = set l.entries l.next e;
      next = next;
      full = if next == 0 then true else l.full;
    }

-- `copy(out[max-next:], entries[:next])` behind `copy(out, entries[next:])`, and the oldest first
unfoldable pub log_entries : CommandLog → List LogEntry
log_entries l =
    if l.full then drop l.next l.entries ++ take l.next l.entries else take l.next l.entries
