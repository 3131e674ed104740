-- ===== src/Ctl/Log/Ring.antt =====
-- The command log keeps the last commands, in the order in which they were run.
use ebookfs.Common.{
  ℕ, zero, suc, ◌+◌, ◌-◌, ◌%◌, ◌<◌, ◌≡◌, refl, sym, ap, subst, ◌∙◌, Bool, true, false, List, [],
  ◌∷◌, ◌++◌, append_assoc, append-nil, arith, ◌==◌, length, length-append, length-replicate,
  length-set, take, replicate, take-append_exact, drop-append_exact,
}
use native.Mathlib.Nat.{mod-eq_of_lt, mod_self}
use ebookfs.Common.Slices.{
  last_of, split_at, set_at, take_past, drop_past, last_of_short, last_of_one, last_of_again,
}
use ebookfs.Ctl.Log.{LogEntry, blank_entry, CommandLog, new_command_log, append_entry, log_entries}

-- the array is as long as the log's bound, and the next slot is in it
pub record IsRing (l : CommandLog) : Type 0 where
  pub size : length l.entries ≡ l.max
  pub slot : l.next < l.max

-- The array keeps its length and the next slot stays in it, whatever is logged.
pub append_entry-IsRing : (l : CommandLog) (e : LogEntry) → IsRing l → IsRing (append_entry l e)
unfolding append_entry
append_entry-IsRing l e r = record {
  size = length-set l.entries l.next e ∙ r.size;
  slot = let p = r.slot in grind arith;
}

module _ (a : List LogEntry) (x : LogEntry) (b : List LogEntry) (e : LogEntry) where
  abbrev room : ℕ
  room = length (a ++ x ∷ b)

  -- the log whose next slot holds `x`
  abbrev at_slot : Bool → CommandLog
  at_slot full = record { entries = a ++ x ∷ b; max = room; next = length a; full = full }

  room_lem : room ≡ length a + suc (length b)
  room_lem = length-append a (x ∷ b)

  next_inside : 0 < length b → (length a + 1) % room ≡ length a + 1
  next_inside more = mod-eq_of_lt (omega (arith, room_lem))

  next_wraps : b ≡ [] → (length a + 1) % room ≡ 0
  next_wraps e =
      let p : length a + 1 ≡ room = omega (arith, room_lem, ap (length {A = LogEntry}) e) in
      rw p (mod_self room)

  step_inside :
      (full : Bool)
      → 0 < length b
      → log_entries (append_entry (at_slot full) e)
        ≡ last_of room (log_entries (at_slot full) ++ e ∷ [])
  unfolding append_entry log_entries
  step_inside false more =
      let later : ((length a + 1) == 0) ≡ false = ground arith in
      rw (next_inside more, later, set_at a x b e, take_past a e b, take-append_exact a (x ∷ b))
        (sym (last_of_short room (a ++ e ∷ []) (omega (arith, room_lem, length-append a (e ∷ [])))))
  step_inside true more =
      let later : ((length a + 1) == 0) ≡ false = ground arith in
      rw
        (
          next_inside more,
          later,
          set_at a x b e,
          take_past a e b,
          drop_past a e b,
          take-append_exact a (x ∷ b),
          drop-append_exact a (x ∷ b),
        )
        (sym (append_assoc b a (e ∷ []))
          ∙ sym (
              last_of_one room x ((b ++ a) ++ e ∷ [])
                (omega (arith, room_lem, length-append (b ++ a) (e ∷ []), length-append b a))))

module _ (a : List LogEntry) (x : LogEntry) (e : LogEntry) where
  step_last :
      (full : Bool)
      → log_entries (append_entry (at_slot a x [] e full) e)
        ≡ last_of (room a x [] e) (log_entries (at_slot a x [] e full) ++ e ∷ [])
  unfolding append_entry log_entries
  step_last false =
      rw
        (
          next_wraps a x [] e refl,
          set_at a x [] e,
          take-append_exact a (x ∷ []),
          append-nil (a ++ e ∷ []),
        )
        (sym (
          last_of_short (room a x [] e) (a ++ e ∷ [])
            (omega (arith, length-append a (e ∷ []), length-append a (x ∷ [])))))
  step_last true =
      rw
        (
          next_wraps a x [] e refl,
          set_at a x [] e,
          take-append_exact a (x ∷ []),
          drop-append_exact a (x ∷ []),
          append-nil (a ++ e ∷ []),
        )
        (sym (
          last_of_one (room a x [] e) x (a ++ e ∷ [])
            (omega (arith, length-append a (e ∷ []), length-append a (x ∷ [])))))

step_any :
    (a : List LogEntry) (x : LogEntry) (b : List LogEntry) (e : LogEntry) (full : Bool)
    → log_entries (append_entry (at_slot a x b e full) e)
      ≡ last_of (room a x b e) (log_entries (at_slot a x b e full) ++ e ∷ [])
step_any a x [] e full = step_last a x e full
step_any a x (y ∷ b) e full = step_inside a x (y ∷ b) e full (omega arith)

same_log :
    (l : CommandLog) (a : List LogEntry) (x : LogEntry) (b : List LogEntry) (e : LogEntry)
    → l.entries ≡ a ++ x ∷ b
    → length a ≡ l.next
    → length l.entries ≡ l.max
    → l ≡ at_slot a x b e l.full
same_log l a x b e cut at size = λ i. record {
  entries = cut i;
  max = (sym size ∙ ap (length {A = LogEntry}) cut) i;
  next = sym at i;
  full = l.full;
}

-- One more command is one more entry at the end, and the oldest goes when the log is full.
pub log_entries-append_entry :
    (l : CommandLog) (e : LogEntry)
    → IsRing l
    → log_entries (append_entry l e) ≡ last_of l.max (log_entries l ++ e ∷ [])
log_entries-append_entry l e r = go (split_at l.next l.entries (omega (arith, r.size, r.slot)))
  where
    go :
        (a : List LogEntry) × (x : LogEntry) × (b : List LogEntry) × (l.entries ≡ a ++ x ∷ b)
          × (length a ≡ l.next)
        → log_entries (append_entry l e) ≡ last_of l.max (log_entries l ++ e ∷ [])
    go (a, x, b, cut, at) =
        subst (λ k. log_entries (append_entry k e) ≡ last_of k.max (log_entries k ++ e ∷ []))
          (sym (same_log l a x b e cut at r.size)) (step_any a x b e l.full)

pub new_command_log-IsRing : (max : ℕ) → 0 < max → IsRing (new_command_log max)
unfolding new_command_log
new_command_log-IsRing max h = record { size = length-replicate max blank_entry; slot = h }

abbrev pub run : CommandLog → List LogEntry → CommandLog
run l [] = l
run l (e ∷ es) = run (append_entry l e) es

run_lem :
    (es h : List LogEntry) (l : CommandLog) (max : ℕ)
    → 0 < max
    → IsRing l
    → l.max ≡ max
    → log_entries l ≡ last_of max h
    → log_entries (run l es) ≡ last_of max (h ++ es)
run_lem [] h l max k r m seen = seen ∙ ap (last_of max) (sym (append-nil h))
run_lem (e ∷ es) h l max k r m seen =
    run_lem es (h ++ e ∷ []) (append_entry l e) max k (append_entry-IsRing l e r)
      (unfold append_entry in m)
      (log_entries-append_entry l e r
        ∙ ap (λ n. last_of n (log_entries l ++ e ∷ [])) m
        ∙ ap (λ t. last_of max (t ++ e ∷ [])) seen
        ∙ last_of_again max h e k)
    ∙ ap (last_of max) (append_assoc h (e ∷ []) es)

-- However many commands are run on a new log that holds `max` entries, it lists the last `max` of them,
-- the oldest first.
pub log_entries-run :
    (max : ℕ) (es : List LogEntry)
    → 0 < max
    → log_entries (run (new_command_log max) es) ≡ last_of max es
log_entries-run max es k =
    run_lem es [] (new_command_log max) max k (new_command_log-IsRing max k)
      (unfold new_command_log in refl) (unfold new_command_log log_entries in empty max)
  where
    empty : (max : ℕ) → take 0 (replicate max blank_entry) ≡ last_of max []
    empty zero = refl
    empty (suc m) = let e : 0 - suc m ≡ 0 = omega arith in rw e refl
