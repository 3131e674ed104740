-- ===== src/Library/Agreement/Runs.antt =====
-- Whole runs of pkg/library, and the reindex that heals what a failure left.
use ebookfs.Common.{
  ℕ, ◌+◌, ◌<◌, ◌≡◌, refl, subst, Bool, not, ◌&&◌, List, [], ◌∷◌, Option, none, some, arith, Text, ℤ,
  pos, negsuc, Dict, get, contains, nat_comparable, int_comparable, Bool-cases, inl, inr,
}
use ebookfs.Book.{Time, Bib, Book}
use ebookfs.Book.Edits.{Edits}
use ebookfs.Library.Facade.{World, Outcome, EpubCode, mark_pending, edit, delete_book, done}
use ebookfs.Library.Ingest.{
  author_names, exists, path_taken, ingest_marked, ingest_bib, hooked, ingest, move_to_canonical,
  reserve_ids, reindex, larger,
}
use ebookfs.Library.Agreement.{IsKept, mark_some}
use ebookfs.Library.Agreement.Steps.{edit-IsKept, delete_book-IsKept, placed-IsKept}

module _ (o : Outcome) (now : Time) (w : World) (k : IsKept w) where
  -- the world in which the next id was given out
  abbrev numbered : World
  numbered = record w { sequence = w.sequence + 1 }

  numbered-IsKept : IsKept numbered
  numbered-IsKept = record { agrees = k.agrees; unused = λ n m. k.unused n (omega arith) }

  ingest_marked-IsKept :
      (bib : Bib) (m : Option World)
      → mark_pending o numbered ≡ m
      → IsKept (ingest_marked o now numbered (pos (w.sequence + 1)) bib m).1
  ingest_marked-IsKept bib none h = numbered-IsKept
  ingest_marked-IsKept bib (some m) h =
      let (same_world, fresh) = mark_some o numbered m h in
      subst (λ x. IsKept (ingest_marked o now numbered (pos (w.sequence + 1)) bib (some x)).1)
        same_world
        (placed-IsKept o now numbered (pos (w.sequence + 1))
          (k.unused (w.sequence + 1) (omega arith)) (λ n m. ground arith) numbered-IsKept bib
          o.files fresh)

  ingest_bib-IsKept : (bib : Option Bib) → IsKept (ingest_bib o now w bib).1
  ingest_bib-IsKept none = k
  ingest_bib-IsKept (some bib) =
      elim (Bool-cases (exists w.rows bib.title (author_names bib.authors))) [
        | inl t ↦ rw t k
        | inr f ↦ elim (Bool-cases (path_taken w bib.authors bib.title)) [
          | inl t ↦ rw (f, t) k
          | inr g ↦ rw (f, g) (ingest_marked-IsKept bib (mark_pending o numbered) refl)
        ]
      ]

  ingest-IsKept :
      (epub : EpubCode) (hooks : List (Bib → Option Bib)) (content : Text)
      → IsKept (ingest epub hooks o now w content).1
  unfolding ingest
  ingest-IsKept epub hooks content = ingest_bib-IsKept (hooked hooks (epub.parse content))

-- every id of the list is within what is reserved
get_reserved :
    (m : ℕ) (books : Dict ℤ Book) (n : ℕ) → reserve_ids m books < n → get books (pos n) ≡ none
unfolding get
get_reserved m [] n h = refl
get_reserved m ((pos i, b) ∷ books) n h = ground (arith, get_reserved m books n)
get_reserved m ((negsuc i, b) ∷ books) n h = get_reserved m books n h

rebuilt-IsKept :
    (moves : ℤ → Bool) (reserved : ℕ) (w : World)
    → (let books = move_to_canonical moves w.disk in
        IsKept (record w {
          rows = books;
          disk = books;
          pending = [];
          sequence = larger w.sequence (reserve_ids reserved books);
        }))
rebuilt-IsKept moves reserved w = record {
  agrees = λ h id. refl;
  unused = λ n m. get_reserved reserved (move_to_canonical moves w.disk) n (ground arith);
}

pub reindex_heals :
    (moves : ℤ → Bool) (reserved : ℕ) (o : Outcome) (w : World)
    → (reindex moves reserved o w).0 ≡ done tt
    → IsKept (reindex moves reserved o w).1 × ((reindex moves reserved o w).1.pending ≡ [])
unfolding reindex
reindex_heals moves reserved o w h =
    elim (Bool-cases (o.marks && not (contains w.pending o.op_id))) [
      | inl t ↦ elim (Bool-cases o.commits) [
        | inl c ↦ rw (t, c) (rebuilt-IsKept moves reserved w, refl)
        | inr c ↦ absurd (ground arith)
      ]
      | inr f ↦ absurd (ground arith)
    ]

-- One operation of the library, with whatever outcome; a reindex only where it succeeds, since one that
-- fails may have moved books that the drift check of the next start finds.
pub data Step (epub : EpubCode) : World → World → Type 0 where
  edited :
      (o : Outcome) (now : Time) (w : World) (id : ℤ) (e : Edits)
      → Step epub w (edit epub o now w id e).1
  deleted : (o : Outcome) (w : World) (id : ℤ) → Step epub w (delete_book o w id).1
  ingested :
      (o : Outcome) (now : Time) (w : World) (hooks : List (Bib → Option Bib)) (content : Text)
      → Step epub w (ingest epub hooks o now w content).1
  reindexed :
      (o : Outcome) (w : World) (moves : ℤ → Bool) (reserved : ℕ)
      → (reindex moves reserved o w).0 ≡ done tt
      → Step epub w (reindex moves reserved o w).1

pub data Run (epub : EpubCode) : World → World → Type 0 where
  start : (w : World) → Run epub w w
  next : (u v w : World) → Run epub u v → Step epub v w → Run epub u w

Step-IsKept : (epub : EpubCode) (v w : World) → Step epub v w → IsKept v → IsKept w
Step-IsKept epub _ _ (edited o now w id e) k = edit-IsKept epub o now w k id e
Step-IsKept epub _ _ (deleted o w id) k = delete_book-IsKept o w k id
Step-IsKept epub _ _ (ingested o now w hooks content) k = ingest-IsKept o now w k epub hooks content
Step-IsKept epub _ _ (reindexed o w moves reserved h) k = (reindex_heals moves reserved o w h).0

pub Run-IsKept : (epub : EpubCode) (v w : World) → Run epub v w → IsKept v → IsKept w
Run-IsKept epub _ _ (start w) k = k
Run-IsKept epub _ _ (next u v w r s) k = Step-IsKept epub v w s (Run-IsKept epub u v r k)
