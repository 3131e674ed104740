-- ===== src/VFile/Reads.antt =====
-- Reads of internal/fs/vfile/snapshot.go: the slice that an offset and a count ask for.
use ebookfs.Common.{
  ℕ, ◌+◌, ◌-◌, ◌%◌, ◌^◌, ◌≤◌, ◌<◌, ◌≡◌, ◌≢◌, ap, ◌∙◌, sym, [], none, some, arith, ltb, leb, length,
  length-drop, take, drop, take_all, drop_all, Bool-cases, inl, inr, get, put, delete, get-put,
  get-delete, nat_comparable,
}
use ebookfs.VFile.{
  Bytes, u64, ok, err, not_open, clamp_read, SnapshotFile, snapshot_open, snapshot_read,
  snapshot_close,
}

take-nil : (n : ℕ) → take {A = ℕ} n [] ≡ []
take-nil n = take_all n [] (omega arith)

take_rest : (s : Bytes) (n : ℕ) → take (length s) s ≡ take (length s + n) s
take_rest s n = take_all (length s) s (omega arith) ∙ sym (take_all (length s + n) s (omega arith))

-- a slice that asks for more than is there
clamped : (s : Bytes) (n : ℕ) → length s ≤ n → take (length s) s ≡ take n s
clamped s n h = take_all (length s) s (omega arith) ∙ sym (take_all n s h)

-- A read returns the bytes from the offset on, at most `count` of them, and nothing past the end. The
-- count is a 9P count, below 2^32, and the content is smaller than 2^63, so that no sum wraps around.
pub clamp_read_lem :
    (data' : Bytes) (offset count : ℕ)
    → length data' < 2 ^ 63
    → count < 2 ^ 32
    → clamp_read data' offset count ≡ take count (drop offset data')
unfolding clamp_read
clamp_read_lem data' offset count small c = elim (Bool-cases (leb (length data') offset)) [
  | inl past ↦
      rw past (sym (ap (take count) (drop_all offset data' (ground arith)) ∙ take-nil count))
  | inr inside ↦
      let here : (offset + count) % u64 ≡ offset + count = ground arith in
      rw (inside, here)
        (elim (Bool-cases (ltb (length data') (offset + count))) [
          | inl over ↦
              let whole : (offset + (length data' - offset)) % u64 - offset
                  ≡ length (drop offset data') =
                ground (arith, length-drop offset data') in
              rw (over, whole)
                (clamped (drop offset data') count (ground (arith, length-drop offset data')))
          | inr fits ↦ let e : offset + count - offset ≡ count = omega arith in rw (fits, here, e)
        ])
]

-- An open fid reads the content that its own open loaded, whatever other fids open or close in between,
-- until it is closed; after that it is not open.
pub snapshot_lem :
    (f : SnapshotFile) (fid other : ℕ) (data' later : Bytes) (offset count : ℕ)
    → other ≢ fid
    → (let opened = (snapshot_open f fid (ok data')).1 in
        (snapshot_read opened fid offset count ≡ ok (clamp_read data' offset count))
        × (snapshot_read (snapshot_open opened other (ok later)).1 fid offset count
            ≡ ok (clamp_read data' offset count))
        × (snapshot_read (snapshot_close opened other) fid offset count
            ≡ ok (clamp_read data' offset count))
        × (snapshot_read (snapshot_close opened fid) fid offset count ≡ err not_open))
unfolding snapshot_open snapshot_close snapshot_read
snapshot_lem f fid other data' later offset count ne = (
  found (record f { reads = put f.reads fid data' }) (get-put f.reads fid data' fid ∙ ground arith),
  found (record f { reads = put (put f.reads fid data') other later })
      (get-put (put f.reads fid data') other later fid
        ∙ ground (arith, get-put f.reads fid data' fid)),
  found (record f { reads = delete (put f.reads fid data') other })
      (get-delete (put f.reads fid data') other fid
        ∙ ground (arith, get-put f.reads fid data' fid)),
  missing (record f { reads = delete (put f.reads fid data') fid })
      (get-delete (put f.reads fid data') fid fid ∙ ground arith),
)
  where
    found :
        (g : SnapshotFile)
        → get g.reads fid ≡ some data'
        → snapshot_read g fid offset count ≡ ok (clamp_read data' offset count)
    found g e = rw (e, snapshot_read)

    missing :
        (g : SnapshotFile)
        → get g.reads fid ≡ none
        → snapshot_read g fid offset count ≡ err not_open
    missing g e = rw (e, snapshot_read)
