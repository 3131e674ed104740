-- ===== src/Naming.antt =====
-- internal/util/naming/naming.go: text made safe as one component of a path.
pub mod Safety
use ebookfs.Common.{
  ℕ, ◌≡◌, Bool, true, ◌||◌, not, [], ◌∷◌, map, ltb, ◌==◌, if◌then◌else◌, keep, contains, Text,
  codes, trim, nat_comparable,
}

abbrev pub fat_forbidden : Text
fat_forbidden = codes "/\\:*?\"<>|"

-- the cut set `". \t"`
abbrev pub trimmed : ℕ → Bool
trimmed c = c == b'.' || c == 32 || c == 9

-- one round of the loop of `fatComponent`, for every rune of the text
abbrev pub fat_runes : Text → Text
fat_runes [] = []
fat_runes (r ∷ s) =
    if contains fat_forbidden r
    then b'-' ∷ fat_runes s
    else if ltb r 0x20
    then fat_runes s
    else r ∷ fat_runes s

pub fat_component : Text → Text
fat_component s = trim trimmed (fat_runes s)

-- `strings.ReplaceAll` of a slash by a dash
abbrev pub dash_slashes : Text → Text
dash_slashes s = map (λ c. if c == b'/' then b'-' else c) s

pub path_component : Text → Text
path_component s = trim trimmed (dash_slashes (keep (λ c. not (c == 0)) s))

abbrev pub or_placeholder : Text → Text
or_placeholder [] = b'_' ∷ []
or_placeholder (c ∷ s) = c ∷ s

unfoldable pub for_fat : Text → Text
unfolding fat_component
for_fat s = or_placeholder (fat_component s)

unfoldable pub path_safe : Text → Text
unfolding path_component
path_safe s = or_placeholder (path_component s)

unfoldable pub names_nothing : Text → Bool
unfolding path_component
names_nothing s = elim (path_component s) [ [] ↦ true | c ∷ t ↦ Bool.false ]
