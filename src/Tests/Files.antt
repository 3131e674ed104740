-- ===== src/Tests/Files.antt =====
-- internal/fs/vfile at concrete buffers.
use ebookfs.Common.{
  ℕ, ◌+◌, ◌<◌, ◌≤◌, ◌≡◌, ◌≢◌, refl, Bool, true, false, List, [], ◌∷◌, Option, none, some, arith,
  take, drop, length, put, nat_comparable, Bool-cases, inl, inr, ◌==◌,
}
use ebookfs.VFile.{Bytes, Error, WriteBuffer, write, SnapshotFile}
use ebookfs.VFile.Writes.{uploaded, IsOverlaid, IsBounded, write_lem, write-IsBounded}

-- a buffer of at most ten bytes, in which fid 7 has written three
abbrev busy : WriteBuffer
busy = record { max = 10; bufs = (7, 1 ∷ 2 ∷ 3 ∷ []) ∷ [] }

busy-IsBounded : IsBounded busy
unfolding ebookfs.Common.get
busy-IsBounded = record {
  at = λ fid buf e. elim (Bool-cases (7 == fid)) [ inl t ↦ ground arith | inr f ↦ ground arith ];
}

write_lem_example :
    (buf : Bytes) × (uploaded (write busy 7 2 (9 ∷ 9 ∷ []) none).1 7 ≡ some buf)
    × IsOverlaid busy 7 2 (9 ∷ 9 ∷ []) none buf
    × (uploaded (write busy 7 2 (9 ∷ 9 ∷ []) none).1 8 ≡ uploaded busy 8)
write_lem_example =
    write_lem busy 7 8 2 (9 ∷ 9 ∷ []) none (omega arith) (cc) (omega arith) (omega arith)

write-IsBounded_example : IsBounded (write busy 8 0 (4 ∷ []) (some (5 ∷ 6 ∷ []))).1
write-IsBounded_example =
    write-IsBounded busy 8 0 (4 ∷ []) (some (5 ∷ 6 ∷ [])) (omega arith)
      (record { fits = λ s e. ground arith }) busy-IsBounded

-- a commit that keeps what it was given
abbrev keep_last : Bytes → Bytes → Option Error × Bytes
keep_last buf s = (none, buf)

abbrev closed : SnapshotFile
closed = record { reads = [] }
