-- ===== src/Kosync/Status.antt =====
-- `updateBookStatus` of internal/kosync/kosync.go: the reading status follows the reported percentage.
pub mod Runs
use ebookfs.Common.{
  Bool, true, false, not, ◌&&◌, Option, none, some, if◌then◌else◌, Text, text_eq, ℤ,
}
use ebookfs.Float.{Float64, float_le}
use ebookfs.Book.{status_unread, status_reading, status_read}

pub record Config : Type 0 where
  pub username : Text
  pub password_hash : Text
  pub reading_threshold : Float64
  pub read_threshold : Float64

-- what the handlers use of the library: `Get`, of which only the status is read, and `Edit` with a
-- status alone, which says whether it succeeded
pub record Shelf {ℓ} (S : Type ℓ) : Type ℓ where
  pub status : S → ℤ → Option Text
  pub edit_status : S → ℤ → Text → Bool × S

-- the switch on the percentage
unfoldable pub target_status : Config → Float64 → Text
target_status cfg percentage =
    if float_le cfg.read_threshold percentage
    then status_read
    else if float_le cfg.reading_threshold percentage
    then status_reading
    else status_unread

-- the three guards; `none` leaves the book as it is
unfoldable pub new_status : Text → Text → Option Text
new_status current target =
    if text_eq target status_unread && not (text_eq current status_unread)
    then none
    else if text_eq current status_read && not (text_eq target status_read)
    then none
    else if text_eq current target
    then none
    else some target

module _ {ℓ} {S : Type ℓ} (shelf : Shelf S) where
  apply_status : S → ℤ → Option Text → Bool × S
  apply_status s book_id none = (true, s)
  apply_status s book_id (some target) = shelf.edit_status s book_id target

  update_current : Config → S → ℤ → Float64 → Option Text → Bool × S
  unfolding apply_status
  update_current cfg s book_id percentage none = (false, s)
  update_current cfg s book_id percentage (some current) =
      apply_status s book_id (new_status current (target_status cfg percentage))

  -- whether there was no error, and the library
  unfoldable pub update_book_status : Config → S → ℤ → Float64 → Bool × S
  unfolding update_current
  update_book_status cfg s book_id percentage =
      update_current cfg s book_id percentage (shelf.status s book_id)
