-- ===== src/Kosync/Hash.antt =====
-- internal/kosync/hash.go: KOReader's partial MD5, which samples a file at exponentially spaced offsets.
pub mod Samples
use ebookfs.Common.{
  ℕ, zero, suc, ◌+◌, ◌-◌, ◌*◌, ◌^◌, Bool, List, [], ◌∷◌, ◌++◌, Option, none, some, if◌then◌else◌,
  ◌==◌, ltb, leb, length, Text,
}
use ebookfs.VFile.{Bytes}

abbrev pub sample_size : ℕ
sample_size = 1024

-- `1024 << (2 * i)` for the next eleven shifts
abbrev offsets_from : ℕ → ℕ → List ℕ
offsets_from zero i = []
offsets_from (suc n) i = 1024 * 2 ^ (2 * i) ∷ offsets_from n (i + 1)

abbrev pub offsets : List ℕ
offsets = 0 ∷ offsets_from 11 0

abbrev pub to_read : ℕ → ℕ → ℕ
to_read size offset = if ltb (size - offset) sample_size then size - offset else sample_size

-- one sample, if it is read in full
abbrev pub sampled : Option Bytes → ℕ → Option Bytes
sampled none wanted = none
sampled (some buf) wanted = if length buf == wanted then some buf else none

abbrev pub prepend : Option Bytes → Option Bytes → Option Bytes
prepend none rest = none
prepend (some buf) none = none
prepend (some buf) (some rest) = some (buf ++ rest)

-- The loop, on what the hash is given. `read_at offset n` is what `ReadAt` puts into a buffer of `n`
-- bytes, and none for an error other than the end of the file.
unfoldable pub samples : (ℕ → ℕ → Option Bytes) → ℕ → List ℕ → Option Bytes
samples read_at size [] = some []
samples read_at size (offset ∷ rest) =
    let later = samples read_at size rest in
    if leb size offset
    then some []
    else prepend (sampled (read_at offset (to_read size offset)) (to_read size offset)) later

abbrev pub hashed : (Bytes → Text) → Option Bytes → Option Text
hashed md5 none = none
hashed md5 (some buf) = some (md5 buf)

-- `md5` is crypto/md5 with the hexadecimal form of its sum.
unfoldable pub partial_md5 : (Bytes → Text) → (ℕ → ℕ → Option Bytes) → ℕ → Option Text
unfolding samples
partial_md5 md5 read_at size = hashed md5 (samples read_at size offsets)
