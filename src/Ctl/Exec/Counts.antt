-- ===== src/Ctl/Exec/Counts.antt =====
-- The counts that a command of internal/fs/ctl/exec.go reports.
use ebookfs.Common.{
  ℕ, ◌+◌, ◌≡◌, refl, ap, ◌∙◌, List, [], ◌∷◌, Option, none, some, arith, if◌then◌else◌, contains,
  length, length-append, Text, ℤ, Dict, get, int_comparable, Bool-cases, inl, inr,
}
use ebookfs.Book.{Book, first_of_seen, first_of}
use ebookfs.Book.Edits.{Edits}
use ebookfs.TextFmt.Query.{Query}
use ebookfs.Ctl.Exec.{
  EditFn, Shelves, Tally, no_tally, BookError, count_edit, apply_edit, visit_book, visit_id,
  visit_all, visit_found, by_id, to_visit, edit_selection,
}

abbrev pub total : Tally → ℕ
total t = t.affected + (t.skipped + length t.errors)

abbrev pub total_of : Option Tally → Option ℕ
total_of none = none
total_of (some t) = some (total t)

module _ {ℓ} {S : Type ℓ} (lib : Shelves S) (edit_fn : EditFn) where
  counted : (t : Tally) (id : ℤ) (e : Option Text) → total (count_edit t id e) ≡ total t + 1
  counted t id none = omega arith
  counted t id (some e) = omega (arith, length-append t.errors (BookError.edit_failed id e ∷ []))

  applied_once :
      (s : S) (t : Tally) (id : ℤ) (e : Option Edits)
      → total (apply_edit lib edit_fn s t id e).0 ≡ total t + 1
  applied_once s t id none = omega arith
  applied_once s t id (some e) = counted t id (lib.edit s id e).0

  visited_once :
      (s : S) (t : Tally) (id : ℤ) (b : Option Book)
      → total (visit_book lib edit_fn s t id b).0 ≡ total t + 1
  visited_once s t id none = omega (arith, length-append t.errors (BookError.not_found id ∷ []))
  visited_once s t id (some b) = applied_once s t id (edit_fn b)

  id_once :
      (books : Dict ℤ Book) (seen : List ℤ) (s : S) (t : Tally) (id : ℤ)
      → total (visit_id lib edit_fn books seen s t id).0
        ≡ total t + (if contains seen id then 0 else 1)
  id_once books seen s t id = elim (Bool-cases (contains seen id)) [
    | inl h ↦ rw h (omega arith)
    | inr h ↦ rw h (visited_once s t id (get books id))
  ]

  all_visited :
      (books : Dict ℤ Book) (seen : List ℤ) (s : S) (t : Tally) (ids : List ℤ)
      → total (visit_all lib edit_fn books seen s t ids).0
        ≡ total t + length (first_of_seen (λ id. id) seen ids)
  unfolding first_of_seen
  all_visited books seen s t [] = omega arith
  all_visited books seen s t (id ∷ ids) =
      let (t', s') = visit_id lib edit_fn books seen s t id in
      all_visited books (id ∷ seen) s' t' ids ∙ ground (arith, id_once books seen s t id)

  found_total :
      (s : S) (q : Query) (r : Option (List Book))
      → total_of (visit_found lib edit_fn s q r).0 ≡ elim r [
        | none ↦ none
        | some books ↦ some (length (first_of (to_visit q books) (λ id. id)))
      ]
  unfolding first_of
  found_total s q none = refl
  found_total s q (some books) =
      ap some (all_visited (by_id [] books) [] s no_tally (to_visit q books) ∙ omega arith)

  -- A command counts every book that it addresses exactly once, as affected, skipped or failed: the three
  -- counts add up to the number of distinct ids, which are those given where the selection is a list of ids
  -- and those found otherwise. A search that fails counts nothing.
  pub edit_selection-total :
      (s : S) (q : Query)
      → total_of (edit_selection lib edit_fn s q).0 ≡ elim (lib.search s q) [
        | none ↦ none
        | some books ↦ some (length (first_of (to_visit q books) (λ id. id)))
      ]
  unfolding edit_selection
  edit_selection-total s q = found_total s q (lib.search s q)
