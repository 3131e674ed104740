-- ===== src/Common/Fields.antt =====
-- `strings.FieldsFunc`: the longest runs of runes that are no separators.
use Prim.Native.Nat.{ℕ}
use mathlib.Core.Path.{◌≡◌, refl}
use mathlib.Core.Logic.{◌≢◌, inl, inr}
use mathlib.Core.Bool.{Bool, true, false}
use mathlib.Core.List.{List, [], ◌∷◌, ◌++◌}
use native.Mathlib.Omega.{arith}
use ebookfs.Common.Tests.{if◌then◌else◌, Bool-cases}
use ebookfs.Common.Lists.{All}
use ebookfs.Common.Strings.{Text, split_on}

abbrev pub first_field : Text → List Text → List Text
first_field [] fields = fields
first_field (c ∷ s) fields = (c ∷ s) ∷ fields

module _ (separates : ℕ → Bool) where
  -- the field that the text begins with, and the fields after it
  fields_from : Text → Text × List Text
  fields_from [] = ([], [])
  fields_from (r ∷ s) =
      let (field, rest) = fields_from s in
      if separates r then ([], first_field field rest) else (r ∷ field, rest)

  unfoldable pub fields_by : Text → List Text
  unfolding fields_from
  fields_by s = let (field, rest) = fields_from s in first_field field rest

  whole_field : (w : Text) → All (λ c. separates c ≡ false) w → fields_from w ≡ (w, [])
  unfolding fields_from
  whole_field [] h = refl
  whole_field (c ∷ w) h = ground (arith, whole_field w h.1)

  next_field :
      (w : Text) (c : ℕ) (s : Text)
      → All (λ c. separates c ≡ false) w
      → separates c ≡ true
      → fields_from (w ++ c ∷ s) ≡ (w, fields_by s)
  unfolding fields_from fields_by
  next_field [] c s h k = rw k refl
  next_field (d ∷ w) c s h k = ground (arith, next_field w c s h.1 k)

  first_filled : (w : Text) (l : List Text) → w ≢ [] → first_field w l ≡ w ∷ l
  first_filled [] l h = absurd (h refl)
  first_filled (c ∷ w) l h = refl

  -- one field that is not empty
  pub fields_one : (w : Text) → w ≢ [] → All (λ c. separates c ≡ false) w → fields_by w ≡ w ∷ []
  unfolding fields_by
  fields_one w f h = rw (whole_field w h) (first_filled w [] f)

  -- a field that is not empty, before a separator
  pub fields_more :
      (w : Text) (c : ℕ) (s : Text)
      → w ≢ []
      → All (λ c. separates c ≡ false) w
      → separates c ≡ true
      → fields_by (w ++ c ∷ s) ≡ w ∷ fields_by s
  unfolding fields_by
  fields_more w c s f h k = rw (next_field w c s h k) (first_filled w (fields_by s) f)

  -- a field: it is not empty, and no separator is in it
  abbrev pub IsField : Text → Type 0
  IsField w = (w ≢ []) × All (λ c. separates c ≡ false) w

  first_field-IsField :
      (w : Text) (fields : List Text)
      → All (λ c. separates c ≡ false) w
      → All IsField fields
      → All IsField (first_field w fields)
  first_field-IsField [] fields h k = k
  first_field-IsField (c ∷ w) fields h k = ((λ e. absurd (cc), h), k)

  fields_from-IsField :
      (s : Text) → All (λ c. separates c ≡ false) (fields_from s).0 × All IsField (fields_from s).1
  unfolding fields_from
  fields_from-IsField [] = (tt, tt)
  fields_from-IsField (r ∷ s) =
      let (h, k) = fields_from-IsField s in
      elim (Bool-cases (separates r)) [
        | inl e ↦ rw e (tt, first_field-IsField (fields_from s).0 (fields_from s).1 h k)
        | inr e ↦ rw e ((e, h), k)
      ]

  pub fields_by-IsField : (s : Text) → All IsField (fields_by s)
  unfolding fields_by
  fields_by-IsField s =
      let (h, k) = fields_from-IsField s in
      first_field-IsField (fields_from s).0 (fields_from s).1 h k

  -- a separator in front adds no field
  pub fields_after : (c : ℕ) (s : Text) → separates c ≡ true → fields_by (c ∷ s) ≡ fields_by s
  unfolding fields_by fields_from
  fields_after c s h = rw h refl

  pub fields_none : fields_by [] ≡ []
  unfolding fields_by fields_from
  fields_none = refl

-- one piece, and a piece before a separator
pub split_one : (sep : ℕ) (s : Text) → All (λ c. c ≢ sep) s → split_on sep s ≡ s ∷ []
unfolding split_on
split_one sep [] h = refl
split_one sep (c ∷ s) h = ground (arith, split_one sep s h.1)

pub split_more :
    (sep : ℕ) (s t : Text) → All (λ c. c ≢ sep) s → split_on sep (s ++ sep ∷ t) ≡ s ∷ split_on sep t
unfolding split_on
split_more sep [] t h = ground arith
split_more sep (c ∷ s) t h = ground (arith, split_more sep s t h.1)
