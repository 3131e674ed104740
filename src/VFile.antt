-- ===== src/VFile.antt =====
-- internal/fs/vfile: the buffers behind synthetic files. Bytes are numbers below 256, a uint64 is a
-- number with its wrap-around written out, and a Go map from fids is a dictionary. Each method runs
-- under the file's own mutex, so it is one step on the state.
pub mod Overlay
pub mod Writes
pub mod Reads
use ebookfs.Common.{
  ℕ, ◌+◌, ◌-◌, ◌%◌, ◌^◌, Bool, true, false, not, ◌||◌, ◌&&◌, List, [], ◌∷◌, ◌++◌, Option, none,
  some, if◌then◌else◌, ◌==◌, ltb, leb, length, take, drop, replicate, Dict, get, put, delete,
  nat_comparable, Text, trim_space,
}

abbrev pub Bytes : Type 0
Bytes = List ℕ

abbrev pub u64 : ℕ
u64 = 2 ^ 64

-- readat.go, writebuffer.go and snapshot.go fail with these.
pub data Error : Type 0 where
  size_limit : ℕ → Error
  not_open : Error
  failed : ℕ → Error

pub data Result {ℓ} (A : Type ℓ) : Type ℓ where
  ok : A → Result A
  err : Error → Result A

pub record WriteBuffer : Type 0 where
  pub max : ℕ
  pub bufs : Dict ℕ Bytes

abbrev pub new_write_buffer : ℕ → WriteBuffer
new_write_buffer max = record { max = max; bufs = [] }

-- `copy(buf[offset:], data)`, for a buffer that is long enough
copy_at : Bytes → ℕ → Bytes → Bytes
copy_at buf offset data' = take offset buf ++ (data' ++ drop (offset + length data') buf)

-- `append(buf, make([]byte, end-len(buf))...)` where the write ends behind the buffer
grow : Bytes → ℕ → Bytes
grow buf end' = if ltb (length buf) end' then buf ++ replicate (end' - length buf) 0 else buf

-- the buffer after one write: `fresh` says that the fid had none
pub write_into : Bool → Bytes → ℕ → Bytes → Bytes
unfolding copy_at grow
write_into fresh buf offset data' =
    let end' = (offset + length data') % u64 in
    let buf' = copy_at (grow buf end') offset data' in
    if fresh && (offset == 0 && ltb end' (length buf')) then take end' buf' else buf'

abbrev pub is_given : Option Bytes → Bool
is_given none = false
is_given (some buf) = true

-- what the fid's buffer holds before the write: its own content, else the seed, else nothing
abbrev pub before : Option Bytes → Option Bytes → Bytes
before (some buf) seed = buf
before none (some s) = s
before none none = []

-- `seed` is none for a nil seed.
unfoldable pub write : WriteBuffer → ℕ → ℕ → Bytes → Option Bytes → Result ℕ × WriteBuffer
unfolding write_into
write w fid offset [] seed = (ok 0, w)
write w fid offset (c ∷ data') seed =
    if ltb w.max offset || ltb (w.max - offset) (length (c ∷ data'))
    then (err (size_limit w.max), w)
    else let exists = is_given (get w.bufs fid) in
      let buf = write_into (not exists) (before (get w.bufs fid) seed) offset (c ∷ data') in
      (ok (length (c ∷ data') % 2 ^ 32), record w { bufs = put w.bufs fid buf })

-- `nil` for a fid that never wrote is the empty buffer.
or_empty : Option Bytes → Bytes
or_empty none = []
or_empty (some buf) = buf

unfoldable pub take_buffer : WriteBuffer → ℕ → Bytes × WriteBuffer
unfolding or_empty
take_buffer w fid = (or_empty (get w.bufs fid), record w { bufs = delete w.bufs fid })

module _ {ℓ} {S : Type ℓ} where
  -- `commit` acts on a state `S`; it is called with a buffer that is not empty.
  commit_buffer : (Bytes → S → Option Error × S) → Bytes → S → Option Error × S
  commit_buffer commit [] s = (none, s)
  commit_buffer commit (c ∷ rest) s = commit (c ∷ rest) s

  unfoldable pub commit_with :
      WriteBuffer → ℕ → (Bytes → S → Option Error × S) → S → Option Error × S × WriteBuffer
  unfolding take_buffer commit_buffer
  commit_with w fid commit s =
      let (buf, w') = take_buffer w fid in let (e, s') = commit_buffer commit buf s in (e, s', w')

  -- The bytes of a command line are its runes.
  unfoldable pub commit_text :
      WriteBuffer → ℕ → (Text → S → Option Error × S) → S → Option Error × S × WriteBuffer
  unfolding commit_with
  commit_text w fid commit s =
      commit_with w fid
        (λ buf s. elim (trim_space buf) [ [] ↦ (none, s) | c ∷ line ↦ commit (c ∷ line) s ]) s

-- `data[offset : offset+count]`
slice : Bytes → ℕ → ℕ → Bytes
slice data' from to = take (to - from) (drop from data')

unfoldable pub clamp_read : Bytes → ℕ → ℕ → Bytes
unfolding slice
clamp_read data' offset count =
    if leb (length data') offset
    then []
    else let count' =
        if ltb (length data') ((offset + count) % u64) then length data' - offset else count in
      slice data' offset ((offset + count') % u64)

-- SnapshotFile: the content that each open fid was given.
pub record SnapshotFile : Type 0 where
  pub reads : Dict ℕ Bytes

-- `load` is the injected function's result at this moment.
unfoldable pub snapshot_open : SnapshotFile → ℕ → Result Bytes → Option Error × SnapshotFile
snapshot_open f fid (err e) = (some e, f)
snapshot_open f fid (ok data') = (none, record f { reads = put f.reads fid data' })

-- A nil slice is a fid that is not open; the loaders here never return nil.
unfoldable pub snapshot_read : SnapshotFile → ℕ → ℕ → ℕ → Result Bytes
unfolding clamp_read
snapshot_read f fid offset count = elim (get f.reads fid) [
  | none ↦ err not_open
  | some data' ↦ ok (clamp_read data' offset count)
]

unfoldable pub snapshot : SnapshotFile → ℕ → Option Bytes
snapshot f fid = get f.reads fid

unfoldable pub snapshot_close : SnapshotFile → ℕ → SnapshotFile
snapshot_close f fid = record f { reads = delete f.reads fid }
