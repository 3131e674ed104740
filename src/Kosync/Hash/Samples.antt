-- ===== src/Kosync/Hash/Samples.antt =====
-- Which bytes of a file the partial MD5 of internal/kosync/hash.go is taken of.
use ebookfs.Common.{
  ℕ, ◌-◌, ◌≤◌, ◌<◌, ◌≡◌, refl, sym, ap, ◌∙◌, List, [], ◌∷◌, ◌++◌, Option, some, arith, ltb, leb,
  length, take, drop, All, Text, length-take, length-drop, take_all, drop_all, Bool-cases, inl, inr,
}
use ebookfs.VFile.{Bytes}
use ebookfs.Kosync.Hash.{
  sample_size, offsets, to_read, sampled, prepend, samples, hashed, partial_md5,
}

-- the bytes at the given offsets, 1024 of each as far as the file has them
abbrev pub pieces : Bytes → List ℕ → Bytes
pieces content [] = []
pieces content (offset ∷ rest) = take 1024 (drop offset content) ++ pieces content rest

-- a reader of the whole content, as io.ReaderAt documents it
abbrev pub reads_from : Bytes → ℕ → ℕ → Option Bytes
reads_from content offset n = some (take n (drop offset content))

-- no offset is below the one before it
abbrev Rising : List ℕ → Type 0
Rising [] = Unit
Rising (a ∷ as') = All (λ b. a ≤ b) as' × Rising as'

pieces_past :
    (content : Bytes) (l : List ℕ) → All (λ b. length content ≤ b) l → pieces content l ≡ []
pieces_past content [] h = refl
pieces_past content (o ∷ l) h = rw (drop_all o content h.0) (pieces_past content l h.1)

past_of_rising : (size o : ℕ) (l : List ℕ) → size ≤ o → All (λ b. o ≤ b) l → All (λ b. size ≤ b) l
past_of_rising size o [] k h = tt
past_of_rising size o (b ∷ l) k h = (omega (arith, h.0), past_of_rising size o l k h.1)

one_sample :
    (content : Bytes) (o : ℕ)
    → o < length content
    → sampled (reads_from content o (to_read (length content) o)) (to_read (length content) o)
      ≡ some (take 1024 (drop o content))
one_sample content o h =
    let full : length (take (to_read (length content) o) (drop o content))
        ≡ to_read (length content) o =
      ground
        (arith, length-take (to_read (length content) o) (drop o content), length-drop o content) in
    rw full (elim (Bool-cases (ltb (length content - o) sample_size)) [
      | inl short ↦
          let rest : take (length content - o) (drop o content) ≡ take 1024 (drop o content) =
            take_all (length content - o) (drop o content) (omega (arith, length-drop o content))
            ∙ sym (take_all 1024 (drop o content) (ground (arith, length-drop o content))) in
          rw (short, rest) (ground arith)
      | inr long ↦ rw long (ground arith)
    ])

samples-pieces :
    (content : Bytes) (l : List ℕ)
    → Rising l
    → samples (reads_from content) (length content) l ≡ some (pieces content l)
unfolding samples
samples-pieces content [] h = refl
samples-pieces content (o ∷ l) h = elim (Bool-cases (leb (length content) o)) [
  | inl past ↦
      let gone : length content ≤ o = ground arith in
      rw
        (
          past,
          drop_all o content gone,
          pieces_past content l (past_of_rising (length content) o l gone h.0),
        )
        refl
  | inr inside ↦
      let later : samples (reads_from content) (length content) l ≡ some (pieces content l) =
        samples-pieces content l h.1 in
      rw inside (
        ap (λ x. prepend x (samples (reads_from content) (length content) l))
          (one_sample content o (ground arith))
        ∙ ap (prepend (some (take 1024 (drop o content)))) later)
]

offsets-Rising : Rising offsets
offsets-Rising = omega arith

-- Of a file that can be read, the partial MD5 is the hash of the bytes at offset 0 and at 1024, 4096 and so
-- on up to 2 to the 30, 1024 from each as far as the file has them; it never fails, and the samples past
-- the end, which the code leaves out, add nothing.
pub partial_md5_lem :
    (md5 : Bytes → Text) (content : Bytes)
    → partial_md5 md5 (reads_from content) (length content)
      ≡ some (
          md5 (
            pieces content (
              0 ∷ 1024 ∷ 4096 ∷ 16384 ∷ 65536 ∷ 262144 ∷ 1048576 ∷ 4194304 ∷ 16777216 ∷ 67108864
              ∷ 268435456 ∷ 1073741824 ∷ [])))
unfolding partial_md5
partial_md5_lem md5 content = ap (hashed md5) (samples-pieces content offsets offsets-Rising)
