-- ===== src/VFile/Overlay.antt =====
-- What a 9P write does to a buffer, byte by byte.
use ebookfs.Common.{
  ℕ, zero, suc, ◌+◌, ◌-◌, ◌%◌, ◌≤◌, ◌<◌, ◌≡◌, refl, ap, ◌∙◌, Bool, ◌&&◌, [], ◌∷◌, ◌++◌, arith,
  if◌then◌else◌, ltb, leb, ◌==◌, length, length-append, length-take, length-drop, length-replicate,
  take, drop, replicate, nat_comparable, Bool-cases, inl, inr,
}
use ebookfs.VFile.{Bytes, u64, copy_at, grow, write_into}

-- the byte at a position, and zero past the end, as in the gap that a write beyond the end leaves
abbrev pub byte_at : Bytes → ℕ → ℕ
byte_at [] i = 0
byte_at (b ∷ s) zero = b
byte_at (b ∷ s) (suc i) = byte_at s i

byte_at-append :
    (s t : Bytes) (i : ℕ)
    → byte_at (s ++ t) i ≡ (if ltb i (length s) then byte_at s i else byte_at t (i - length s))
byte_at-append [] t i = ground arith
byte_at-append (b ∷ s) t zero = ground arith
byte_at-append (b ∷ s) t (suc i) = ground (arith, byte_at-append s t i)

byte_at-take :
    (n : ℕ) (s : Bytes) (i : ℕ) → byte_at (take n s) i ≡ (if ltb i n then byte_at s i else 0)
byte_at-take zero s i = ground arith
byte_at-take (suc n) [] i = ground arith
byte_at-take (suc n) (b ∷ s) zero = ground arith
byte_at-take (suc n) (b ∷ s) (suc i) = ground (arith, byte_at-take n s i)

byte_at-drop : (n : ℕ) (s : Bytes) (i : ℕ) → byte_at (drop n s) i ≡ byte_at s (n + i)
byte_at-drop zero s i = ap (byte_at s) (omega arith)
byte_at-drop (suc n) [] i = refl
byte_at-drop (suc n) (b ∷ s) i =
    let e : suc n + i ≡ suc (n + i) = omega arith in rw e (byte_at-drop n s i)

byte_at-replicate : (n i : ℕ) → byte_at (replicate n 0) i ≡ 0
byte_at-replicate zero i = refl
byte_at-replicate (suc n) zero = refl
byte_at-replicate (suc n) (suc i) = byte_at-replicate n i

pub byte_at-past : (s : Bytes) (i : ℕ) → length s ≤ i → byte_at s i ≡ 0
byte_at-past [] i h = refl
byte_at-past (b ∷ s) zero h = absurd (omega arith)
byte_at-past (b ∷ s) (suc i) h = byte_at-past s i (omega arith)

byte_at-grow : (buf : Bytes) (n i : ℕ) → byte_at (grow buf n) i ≡ byte_at buf i
unfolding grow
byte_at-grow buf n i = ground (
  arith,
  byte_at-append buf (replicate (n - length buf) 0) i,
  byte_at-replicate (n - length buf) (i - length buf),
  byte_at-past buf i,
)

length-grow :
    (buf : Bytes) (n : ℕ)
    → (length buf ≤ length (grow buf n))
      × (n ≤ length (grow buf n))
      × (length (grow buf n) ≤ length buf + n)
unfolding grow
length-grow buf n = ground (
  arith,
  length-append buf (replicate (n - length buf) 0),
  length-replicate {A = ℕ} (n - length buf) 0,
)

length-copy_at :
    (buf : Bytes) (offset : ℕ) (d : Bytes)
    → offset + length d ≤ length buf
    → length (copy_at buf offset d) ≡ length buf
unfolding copy_at
length-copy_at buf offset d h = omega (
  arith,
  length-append (take offset buf) (d ++ drop (offset + length d) buf),
  length-append d (drop (offset + length d) buf),
  length-take offset buf,
  length-drop (offset + length d) buf,
)

three_parts :
    (xs d ys : Bytes) (i : ℕ)
    → byte_at (xs ++ (d ++ ys)) i ≡ (
        if ltb i (length xs)
        then byte_at xs i
        else if ltb i (length xs + length d)
        then byte_at d (i - length xs)
        else byte_at ys (i - (length xs + length d)))
three_parts xs d ys i =
    let e : i - length xs - length d ≡ i - (length xs + length d) = omega arith in
    ground
      (arith, byte_at-append xs (d ++ ys) i, byte_at-append d ys (i - length xs), ap (byte_at ys) e)

-- the bytes after a copy: the data where it lies, and what was there elsewhere
byte_at-copy_at :
    (buf : Bytes) (offset : ℕ) (d : Bytes) (i : ℕ)
    → offset + length d ≤ length buf
    → byte_at (copy_at buf offset d) i ≡ (
        if leb offset i && ltb i (offset + length d) then byte_at d (i - offset) else byte_at buf i)
unfolding copy_at
byte_at-copy_at buf offset d i h =
    let before : length (take offset buf) ≡ offset = omega (arith, length-take offset buf) in
    rw
      (
        three_parts (take offset buf) d (drop (offset + length d) buf) i,
        before,
        byte_at-take offset buf i,
        byte_at-drop (offset + length d) buf (i - (offset + length d)),
      )
      (elim (Bool-cases (ltb i (offset + length d))) [
        | inl t ↦ ground arith
        | inr f ↦
            let e : offset + length d + (i - (offset + length d)) ≡ i = ground arith in
            rw e (ground arith)
      ])

-- `write_into` where nothing wraps around: the copy, cut off behind the data by a first write at 0
write_into_lem :
    (fresh : Bool) (buf : Bytes) (offset : ℕ) (d : Bytes)
    → offset + length d < u64
    → write_into fresh buf offset d ≡ (
        let copied = copy_at (grow buf (offset + length d)) offset d in
        if fresh && (offset == 0 && ltb (offset + length d) (length copied))
        then take (offset + length d) copied
        else copied)
unfolding write_into
write_into_lem fresh buf offset d h =
    let e : (offset + length d) % u64 ≡ offset + length d = omega arith in rw e

module _ (fresh : Bool) (buf : Bytes) (offset : ℕ) (d : Bytes)
    (fits : offset + length d < u64) where
  abbrev copied : Bytes
  copied = copy_at (grow buf (offset + length d)) offset d

  length-copied : length copied ≡ length (grow buf (offset + length d))
  length-copied =
      length-copy_at (grow buf (offset + length d)) offset d (length-grow buf (offset + length d)).1

  byte_at-copied :
      (i : ℕ)
      → byte_at copied i ≡ (
          if leb offset i && ltb i (offset + length d)
          then byte_at d (i - offset)
          else byte_at buf i)
  byte_at-copied i =
      byte_at-copy_at (grow buf (offset + length d)) offset d i
        (length-grow buf (offset + length d)).1
      ∙ ap (λ b. if leb offset i && ltb i (offset + length d) then byte_at d (i - offset) else b)
          (byte_at-grow buf (offset + length d) i)

  -- whether the write starts the file afresh
  abbrev restarts : Bool
  restarts = fresh && offset == 0

  pub length-write_into : length (write_into fresh buf offset d) ≡ (
      if restarts
      then length d
      else if ltb (length buf) (offset + length d)
      then offset + length d
      else length buf)
  length-write_into = rw (write_into_lem fresh buf offset d fits) (
      unfold grow in
      ground (
        arith,
        length-copied,
        length-take (offset + length d) copied,
        length-append buf (replicate (offset + length d - length buf) 0),
        length-replicate {A = ℕ} (offset + length d - length buf) 0,
      ))

  pub byte_at-write_into :
      (i : ℕ)
      → byte_at (write_into fresh buf offset d) i ≡ (
          if leb offset i && ltb i (offset + length d)
          then byte_at d (i - offset)
          else if restarts
          then 0
          else byte_at buf i)
  byte_at-write_into i = rw (write_into_lem fresh buf offset d fits) (
      ground (
        arith,
        length-copied,
        byte_at-copied i,
        byte_at-take (offset + length d) copied i,
        byte_at-past copied i,
        length-grow buf (offset + length d),
      ))
