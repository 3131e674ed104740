-- ===== src/Kosync/Status/Runs.antt =====
-- The status of a book after any sequence of reported percentages.
use ebookfs.Common.{
  ◌≡◌, ap, ◌∙◌, Bool, ◌||◌, List, [], ◌∷◌, Option, none, some, arith, if◌then◌else◌, Text, text_eq,
  text_eq_iff, ℤ, any,
}
use ebookfs.Float.{Float64, float_le}
use ebookfs.Book.{status_unread, status_reading, status_read}
use ebookfs.Kosync.Status.{
  Config, Shelf, target_status, new_status, apply_status, update_current, update_book_status,
}

module _ {ℓ} {S : Type ℓ} where
  -- a library whose edits reach the book
  pub record IsWorking (shelf : Shelf S) : Type ℓ where
    pub edit_sets :
        (s : S) (book_id : ℤ) (t u : Text)
        → shelf.status s book_id ≡ some t
        → shelf.status (shelf.edit_status s book_id u).1 book_id ≡ some u

  abbrev pub report_all : Shelf S → Config → S → ℤ → List Float64 → S
  report_all shelf cfg s book_id [] = s
  report_all shelf cfg s book_id (p ∷ ps) =
      report_all shelf cfg (update_book_status shelf cfg s book_id p).1 book_id ps

-- what the percentages say of a book: it was finished, or at least begun
abbrev pub finished_by : Config → List Float64 → Bool
finished_by cfg ps = any (float_le cfg.read_threshold) ps

abbrev pub begun_by : Config → List Float64 → Bool
begun_by cfg ps = any (float_le cfg.reading_threshold) ps

-- the status that the reports lead to, whatever their order
abbrev pub status_after : Config → Text → List Float64 → Text
status_after cfg current ps =
    if text_eq current status_read || finished_by cfg ps
    then status_read
    else if begun_by cfg ps
    then status_reading
    else current

-- one report
abbrev kept_status : Text → Option Text → Text
kept_status current none = current
kept_status current (some t) = t

one_report :
    (cfg : Config) (current : Text) (p : Float64)
    → kept_status current (new_status current (target_status cfg p))
      ≡ status_after cfg current (p ∷ [])
unfolding new_status target_status
one_report cfg current p = ground (
  arith,
  text_eq_iff current status_unread,
  text_eq_iff current status_reading,
  text_eq_iff current status_read,
)

more_reports :
    (cfg : Config) (current : Text) (p : Float64) (ps : List Float64)
    → status_after cfg (status_after cfg current (p ∷ [])) ps ≡ status_after cfg current (p ∷ ps)
more_reports cfg current p ps = ground (arith, text_eq_iff current status_read)

module _ {ℓ} {S : Type ℓ} (shelf : Shelf S) (cfg : Config) (works : IsWorking shelf) where
  applied :
      (s : S) (book_id : ℤ) (current : Text) (o : Option Text)
      → shelf.status s book_id ≡ some current
      → shelf.status (apply_status shelf s book_id o).1 book_id ≡ some (kept_status current o)
  unfolding apply_status
  applied s book_id current none h = h
  applied s book_id current (some t) h = works.edit_sets s book_id current t h

  updated :
      (s : S) (book_id : ℤ) (current : Text) (p : Float64)
      → shelf.status s book_id ≡ some current
      → shelf.status (update_book_status shelf cfg s book_id p).1 book_id
        ≡ some (status_after cfg current (p ∷ []))
  unfolding update_book_status
  updated s book_id current p h =
      rw (h, update_current)
        (applied s book_id current (new_status current (target_status cfg p)) h
          ∙ ap some (one_report cfg current p))

  pub report_all-status :
      (s : S) (book_id : ℤ) (current : Text) (ps : List Float64)
      → shelf.status s book_id ≡ some current
      → shelf.status (report_all shelf cfg s book_id ps) book_id
        ≡ some (status_after cfg current ps)
  report_all-status s book_id current [] h =
      h ∙ ap some (ground (arith, text_eq_iff current status_read))
  report_all-status s book_id current (p ∷ ps) h =
      report_all-status (update_book_status shelf cfg s book_id p).1 book_id
        (status_after cfg current (p ∷ [])) ps (updated s book_id current p h)
      ∙ ap some (more_reports cfg current p ps)
