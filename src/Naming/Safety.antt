-- ===== src/Naming/Safety.antt =====
-- What `PathSafe`, `ForFAT` and `NamesNothing` of internal/util/naming/naming.go promise.
use ebookfs.Common.{
  ℕ, ◌≤◌, ◌≡◌, ◌≢◌, refl, Bool, true, false, not, ◌||◌, [], ◌∷◌, arith, ltb, ◌==◌, keep, all,
  contains, All, Text, codes, head_kept, last_kept, nat_comparable, head_kept-trim, last_kept-trim,
  trim_fixed, trim-eq-nil, all_of_trim, All-trim, Bool-cases, inl, inr,
}
use ebookfs.Naming.{
  fat_forbidden, trimmed, fat_runes, fat_component, dash_slashes, path_component, or_placeholder,
  for_fat, path_safe, names_nothing,
}

-- a rune that POSIX and 9P accept inside a path component
abbrev pub InPath : ℕ → Type 0
InPath c = (c ≢ b'/') × (c ≢ 0)

-- one component of a path: never empty, never a dot entry, and no separator inside
pub record IsComponent (t : Text) : Type 0 where
  pub filled : t ≢ []
  pub runes : All InPath t
  pub not_dot : t ≢ codes "."
  pub not_dot_dot : t ≢ codes ".."

-- a rune that FAT accepts inside a file name
abbrev pub InFat : ℕ → Type 0
InFat c = (contains fat_forbidden c ≡ false) × (0x20 ≤ c)

pub record IsFatName (t : Text) : Type 0 where
  pub filled : t ≢ []
  pub runes : All InFat t
  pub starts : head_kept trimmed t ≡ true
  pub ends : last_kept trimmed t ≡ true

dash_slashes-InPath : (s : Text) → All InPath (dash_slashes (keep (λ c. not (c == 0)) s))
dash_slashes-InPath [] = tt
dash_slashes-InPath (c ∷ s) = elim (Bool-cases (c == 0)) [
  | inl e ↦ rw e (dash_slashes-InPath s)
  | inr e ↦ rw e (ground arith, dash_slashes-InPath s)
]

head_kept-path_component : (s : Text) → head_kept trimmed (path_component s) ≡ true
unfolding path_component
head_kept-path_component s = head_kept-trim trimmed (dash_slashes (keep (λ c. not (c == 0)) s))

last_kept-path_component : (s : Text) → last_kept trimmed (path_component s) ≡ true
unfolding path_component
last_kept-path_component s = last_kept-trim trimmed (dash_slashes (keep (λ c. not (c == 0)) s))

path_component-InPath : (s : Text) → All InPath (path_component s)
unfolding path_component
path_component-InPath s = All-trim trimmed InPath _ (dash_slashes-InPath s)

or_placeholder-IsComponent :
    (t : Text) → head_kept trimmed t ≡ true → All InPath t → IsComponent (or_placeholder t)
or_placeholder-IsComponent [] h runes = record {
  filled = cc;
  runes = omega arith;
  not_dot = ground arith;
  not_dot_dot = cc;
}
or_placeholder-IsComponent (c ∷ s) h runes = record {
  filled = cc;
  runes = runes;
  not_dot = ground arith;
  not_dot_dot = ground arith;
}

-- For every text, `PathSafe` returns one path component: it is not empty, holds no slash and no NUL,
-- and is neither "." nor "..".
pub path_safe-IsComponent : (s : Text) → IsComponent (path_safe s)
unfolding path_safe
path_safe-IsComponent s =
    or_placeholder-IsComponent (path_component s) (head_kept-path_component s)
      (path_component-InPath s)

keep-InPath : (t : Text) → All InPath t → keep (λ c. not (c == 0)) t ≡ t
keep-InPath [] h = refl
keep-InPath (c ∷ t) h = ground (arith, keep-InPath t h.1)

dash_InPath : (t : Text) → All InPath t → dash_slashes t ≡ t
dash_InPath [] h = refl
dash_InPath (c ∷ t) h = ground (arith, dash_InPath t h.1)

path_component_fixed :
    (t : Text)
    → All InPath t
    → head_kept trimmed t ≡ true
    → last_kept trimmed t ≡ true
    → path_component t ≡ t
unfolding path_component
path_component_fixed t runes h k =
    rw (keep-InPath t runes, dash_InPath t runes) (trim_fixed trimmed t h k)

path_component_idem : (s : Text) → path_component (path_component s) ≡ path_component s
path_component_idem s =
    path_component_fixed (path_component s) (path_component-InPath s) (head_kept-path_component s)
      (last_kept-path_component s)

or_placeholder_again :
    (t : Text)
    → path_component t ≡ t
    → or_placeholder (path_component (or_placeholder t)) ≡ or_placeholder t
or_placeholder_again [] h = unfold path_component in refl
or_placeholder_again (c ∷ s) h = rw h

-- A name that `PathSafe` has made is left as it is by a second pass, for every text.
pub path_safe_idem : (s : Text) → path_safe (path_safe s) ≡ path_safe s
unfolding path_safe
path_safe_idem s = or_placeholder_again (path_component s) (path_component_idem s)

fat_runes-InFat : (s : Text) → All InFat (fat_runes s)
fat_runes-InFat [] = tt
fat_runes-InFat (c ∷ s) = elim (Bool-cases (contains fat_forbidden c)) [
  | inl e ↦ rw e ((refl, omega arith), fat_runes-InFat s)
  | inr e ↦ elim (Bool-cases (ltb c 0x20)) [
    | inl f ↦ rw (e, f) (fat_runes-InFat s)
    | inr f ↦ rw (e, f) ((e, ground arith), fat_runes-InFat s)
  ]
]

or_placeholder-IsFatName :
    (t : Text)
    → head_kept trimmed t ≡ true
    → last_kept trimmed t ≡ true
    → All InFat t
    → IsFatName (or_placeholder t)
or_placeholder-IsFatName [] h k runes = record {
  filled = cc;
  runes = ((refl, omega arith), tt);
  starts = refl;
  ends = refl;
}
or_placeholder-IsFatName (c ∷ s) h k runes = record {
  filled = cc;
  runes = runes;
  starts = h;
  ends = k;
}

-- For every text, `ForFAT` returns a name that FAT accepts: not empty, no forbidden rune, no control
-- character, and no dot, space or tab at either end.
pub for_fat-IsFatName : (s : Text) → IsFatName (for_fat s)
unfolding for_fat
for_fat-IsFatName s =
    or_placeholder-IsFatName (fat_component s) (head_kept-trim trimmed (fat_runes s))
      (last_kept-trim trimmed (fat_runes s)) (All-trim trimmed InFat _ (fat_runes-InFat s))

-- the runes of which nothing is left: NUL and what is trimmed
abbrev pub vanishes : ℕ → Bool
vanishes c = c == 0 || trimmed c

all-dash_slashes :
    (s : Text) → all trimmed (dash_slashes (keep (λ c. not (c == 0)) s)) ≡ all vanishes s
all-dash_slashes [] = refl
all-dash_slashes (c ∷ s) = ground (arith, all-dash_slashes s)

-- `NamesNothing` holds exactly of the texts that consist of NULs, dots, spaces and tabs alone.
pub names_nothing-eq-all : (s : Text) → names_nothing s ≡ all vanishes s
unfolding names_nothing
names_nothing-eq-all s = ground (
  arith,
  all-dash_slashes s,
  trim-eq-nil trimmed (dash_slashes (keep (λ c. not (c == 0)) s)),
  all_of_trim trimmed (dash_slashes (keep (λ c. not (c == 0)) s)),
)
