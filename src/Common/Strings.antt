-- ===== src/Common/Strings.antt =====
-- Go strings as lists of code points (their bytes, for ASCII), and the functions of package
-- strings that the program uses.
use Prim.Native.Nat.{ℕ}
use Prim.Native.Char.{code}
use Prim.Native.String.{String}
use mathlib.Core.Bool.{Bool, true, false, ◌||◌, ◌&&◌}
use mathlib.Core.List.{List, [], ◌∷◌, ◌++◌}
use ebookfs.Common.Tests.{◌==◌, leb, if◌then◌else◌}

abbrev pub Text : Type 0
Text = List ℕ

abbrev pub codes : String → Text
codes String.[] = []
codes (String.◌∷◌ c s) = code c ∷ codes s

-- `unicode.IsSpace`
unfoldable pub is_space : ℕ → Bool
is_space c =
    (leb 9 c && leb c 13)
    || c == 32
    || c == 0x85
    || c == 0xa0
    || c == 0x1680
    || (leb 0x2000 c && leb c 0x200a)
    || c == 0x2028
    || c == 0x2029
    || c == 0x202f
    || c == 0x205f
    || c == 0x3000

module _ (cut : ℕ → Bool) where
  -- `strings.TrimLeftFunc`
  abbrev pub trim_left : Text → Text
  trim_left [] = []
  trim_left (c ∷ s) = if cut c then trim_left s else c ∷ s

  -- `strings.TrimRightFunc`: a trailing run that passes is dropped
  abbrev pub trim_right : Text → Text
  trim_right [] = []
  trim_right (c ∷ s) = elim (trim_right s) [ [] ↦ if cut c then [] else c ∷ [] | d ∷ t ↦ c ∷ d ∷ t ]

  -- `strings.Trim` with a set given by its test
  abbrev pub trim : Text → Text
  trim s = trim_right (trim_left s)

unfoldable pub trim_space : Text → Text
unfolding is_space
trim_space = trim is_space

-- `strings.Cut` at one separator: what stands before it, what stands after, and whether it occurs
unfoldable pub cut_at : ℕ → Text → Text × Text × Bool
cut_at sep [] = ([], [], false)
cut_at sep (c ∷ s) =
    let (a, b, found) = cut_at sep s in if c == sep then ([], s, true) else (c ∷ a, b, found)

-- `strings.Split` at one separator: the pieces, of which there is always one
abbrev pub onto_first : ℕ → List Text → List Text
onto_first c [] = (c ∷ []) ∷ []
onto_first c (p ∷ ps) = (c ∷ p) ∷ ps

unfoldable pub split_on : ℕ → Text → List Text
split_on sep [] = [] ∷ []
split_on sep (c ∷ s) =
    let rest = split_on sep s in if c == sep then [] ∷ rest else onto_first c rest

-- `strings.Join`
unfoldable pub join : List Text → Text → Text
join [] sep = []
join (p ∷ ps) sep = elim ps [ [] ↦ p | q ∷ qs ↦ p ++ (sep ++ join ps sep) ]
