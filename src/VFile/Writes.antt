-- ===== src/VFile/Writes.antt =====
-- `WriteBuffer` of internal/fs/vfile/writebuffer.go: its writes, its limit and its commits.
use ebookfs.Common.{
  ℕ, ◌+◌, ◌-◌, ◌≤◌, ◌<◌, ◌≡◌, ◌≢◌, refl, ap, ◌∙◌, Bool, true, false, ◌||◌, ◌&&◌, not, [], ◌∷◌,
  Option, none, some, arith, if◌then◌else◌, ltb, leb, ◌==◌, length, get, put, get-put, get-delete,
  nat_comparable, Bool-cases, inl, inr,
}
use ebookfs.VFile.{
  Bytes, u64, err, WriteBuffer, write_into, write, size_limit, is_given, before, Error, commit_with,
  or_empty, commit_buffer,
}
use ebookfs.VFile.Overlay.{byte_at, length-write_into, byte_at-write_into}

abbrev pub uploaded : WriteBuffer → ℕ → Option Bytes
uploaded w fid = get w.bufs fid

module _ (w : WriteBuffer) (fid offset : ℕ) (d : Bytes) (seed : Option Bytes) where
  -- whether this is the fid's first write, and at the start of the file
  abbrev pub starts : Bool
  starts = not (is_given (uploaded w fid)) && offset == 0

  abbrev pub old_bytes : Bytes
  old_bytes = before (uploaded w fid) seed

  -- what a buffer holds once the data lies at its offset
  pub record IsOverlaid (buf : Bytes) : Type 0 where
    pub size : length buf ≡ (
        if starts
        then length d
        else if ltb (length old_bytes) (offset + length d)
        then offset + length d
        else length old_bytes)
    pub bytes :
        (i : ℕ)
        → byte_at buf i ≡ (
            if leb offset i && ltb i (offset + length d)
            then byte_at d (i - offset)
            else if starts
            then 0
            else byte_at old_bytes i)

write_fits :
    (w : WriteBuffer) (fid offset : ℕ) (d : Bytes) (seed : Option Bytes)
    → d ≢ []
    → offset + length d ≤ w.max
    → (write w fid offset d seed).1 ≡ record w {
      bufs =
          put w.bufs fid
            (write_into (not (is_given (uploaded w fid))) (before (uploaded w fid) seed) offset d);
    }
write_fits w fid offset [] seed h fits = absurd (h refl)
write_fits w fid offset (c ∷ d) seed h fits =
    let e : (ltb w.max offset || ltb (w.max - offset) (length (c ∷ d))) ≡ false = ground arith in
    unfold write in rw e refl

-- A write that stays within the limit leaves in the fid's buffer the data at its offset and the old bytes
-- elsewhere: the fid's own, or the seed's before its first write. A first write at offset 0 keeps nothing
-- of the seed, and a gap is filled with zeros. No other fid's buffer changes.
pub write_lem :
    (w : WriteBuffer) (fid other offset : ℕ) (d : Bytes) (seed : Option Bytes)
    → other ≢ fid
    → d ≢ []
    → w.max < u64
    → offset + length d ≤ w.max
    → (buf : Bytes) × (uploaded (write w fid offset d seed).1 fid ≡ some buf)
      × IsOverlaid w fid offset d seed buf
      × (uploaded (write w fid offset d seed).1 other ≡ uploaded w other)
write_lem w fid other offset d seed ne h small fits =
    let fresh = not (is_given (uploaded w fid)) in
    let old = before (uploaded w fid) seed in
    let no_wrap : offset + length d < u64 = omega arith in
    rw (write_fits w fid offset d seed h fits) (
      write_into fresh old offset d,
      get-put w.bufs fid (write_into fresh old offset d) fid ∙ ground arith,
      record {
        size = length-write_into fresh old offset d no_wrap;
        bytes = byte_at-write_into fresh old offset d no_wrap;
      },
      get-put w.bufs fid (write_into fresh old offset d) other ∙ ground arith,
    )

-- A write that would pass the limit is refused and changes nothing, also where its offset and length
-- would wrap around as a uint64.
pub write_refused :
    (w : WriteBuffer) (fid offset : ℕ) (d : Bytes) (seed : Option Bytes)
    → d ≢ []
    → w.max < offset + length d
    → write w fid offset d seed ≡ (err (size_limit w.max), w)
unfolding write
write_refused w fid offset [] seed h over = absurd (h refl)
write_refused w fid offset (c ∷ d) seed h over =
    let e : (ltb w.max offset || ltb (w.max - offset) (length (c ∷ d))) ≡ true = ground arith in
    rw e refl

-- every buffer is within the limit
pub record IsBounded (w : WriteBuffer) : Type 0 where
  pub at : (fid : ℕ) (buf : Bytes) → uploaded w fid ≡ some buf → length buf ≤ w.max

pub record IsSeed (w : WriteBuffer) (seed : Option Bytes) : Type 0 where
  pub fits : (s : Bytes) → seed ≡ some s → length s ≤ w.max

before_fits :
    (w : WriteBuffer) (fid : ℕ) (seed : Option Bytes)
    → IsBounded w
    → IsSeed w seed
    → length (before (uploaded w fid) seed) ≤ w.max
before_fits w fid seed b s = bound (uploaded w fid) seed (b.at fid) s.fits
  where
    bound :
        (o seed : Option Bytes)
        → ((buf : Bytes) → o ≡ some buf → length buf ≤ w.max)
        → ((buf : Bytes) → seed ≡ some buf → length buf ≤ w.max)
        → length (before o seed) ≤ w.max
    bound (some buf) seed h k = h buf refl
    bound none (some buf) h k = k buf refl
    bound none none h k = omega arith

write_into_fits :
    (fresh : Bool) (buf : Bytes) (offset : ℕ) (d : Bytes) (max : ℕ)
    → max < u64
    → offset + length d ≤ max
    → length buf ≤ max
    → length (write_into fresh buf offset d) ≤ max
write_into_fits fresh buf offset d max small fits old =
    ground (arith, length-write_into fresh buf offset d (omega arith))

-- No buffer ever grows past the limit: a write, accepted or refused, keeps every buffer within it, given
-- a seed that is within it.
pub write-IsBounded :
    (w : WriteBuffer) (fid offset : ℕ) (d : Bytes) (seed : Option Bytes)
    → w.max < u64
    → IsSeed w seed
    → IsBounded w
    → IsBounded (write w fid offset d seed).1
write-IsBounded w fid offset [] seed small s b = unfold write in b
write-IsBounded w fid offset (c ∷ d) seed small s b =
    elim (Bool-cases (leb (offset + length (c ∷ d)) w.max)) [
      | inl fits ↦ rw (write_fits w fid offset (c ∷ d) seed (cc) (ground arith)) (record {
        at = λ other buf e. ground (
          arith,
          get-put w.bufs fid
              (write_into (not (is_given (uploaded w fid))) (before (uploaded w fid) seed) offset
                (c ∷ d))
              other,
          write_into_fits (not (is_given (uploaded w fid))) (before (uploaded w fid) seed) offset
              (c ∷ d) w.max,
          before_fits w fid seed b s,
          b.at other buf,
        );
      })
      | inr over ↦ rw (write_refused w fid offset (c ∷ d) seed (cc) (ground arith)) b
    ]

commit_filled {ℓ} :
    {S : Type ℓ} (commit : Bytes → S → Option Error × S) (buf : Bytes) (s : S)
    → buf ≢ []
    → commit_buffer commit buf s ≡ commit buf s
unfolding commit_buffer
commit_filled commit [] s h = absurd (h refl)
commit_filled commit (c ∷ rest) s h = refl

-- Committing hands over exactly what the fid has written, once: the buffer is gone afterwards whatever
-- the commit returns, no other fid's buffer changes, and the result is the commit's own.
pub commit_with_lem {ℓ} :
    {S : Type ℓ} (w : WriteBuffer) (fid other : ℕ) (commit : Bytes → S → Option Error × S) (s : S)
    (buf : Bytes)
    → other ≢ fid
    → uploaded w fid ≡ some buf
    → buf ≢ []
    → ((commit_with w fid commit s).0 ≡ (commit buf s).0)
      × ((commit_with w fid commit s).1 ≡ (commit buf s).1)
      × (uploaded (commit_with w fid commit s).2 fid ≡ none)
      × (uploaded (commit_with w fid commit s).2 other ≡ uploaded w other)
unfolding commit_with
commit_with_lem w fid other commit s buf ne e filled =
    let handed : commit_buffer commit (or_empty (get w.bufs fid)) s ≡ commit buf s =
      rw (e, or_empty) (commit_filled commit buf s filled) in
    (
      ap (λ r. r.0) handed,
      ap (λ r. r.1) handed,
      get-delete w.bufs fid fid ∙ ground arith,
      get-delete w.bufs fid other ∙ ground arith,
    )
