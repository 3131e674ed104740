-- ===== src/FilePath.antt =====
-- `filepath.Join`, `Base` and `Dir` of Go on slash-separated paths.
pub mod Clean
use mathlib.Core.List.{reverse}
use ebookfs.Common.{
  ◌≡◌, Bool, true, false, ◌||◌, List, [], ◌∷◌, ◌++◌, ◌==◌, if◌then◌else◌, text_eq, Text, codes,
  split_on, join,
}

abbrev pub slash : Text
slash = b'/' ∷ []

-- an element `..`: the element before it goes, unless there is none to go
climb : Bool → List Text → List Text
climb true [] = []
climb false [] = codes ".." ∷ []
climb rooted (q ∷ qs) = if text_eq q (codes "..") then codes ".." ∷ q ∷ qs else qs

-- one element after those kept so far, the last first
clean_elem : Bool → Text → List Text → List Text
unfolding climb
clean_elem rooted p out =
    if text_eq p [] || text_eq p (codes ".")
    then out
    else if text_eq p (codes "..")
    then climb rooted out
    else p ∷ out

clean_elems : Bool → List Text → List Text → List Text
unfolding clean_elem
clean_elems rooted [] out = reverse out
clean_elems rooted (p ∷ ps) out = clean_elems rooted ps (clean_elem rooted p out)

abbrev or_dot : Text → Text
or_dot [] = codes "."
or_dot (c ∷ t) = c ∷ t

is_rooted : Text → Bool
is_rooted [] = false
is_rooted (c ∷ s) = c == b'/'

-- `filepath.Clean`
unfoldable pub clean : Text → Text
unfolding clean_elems is_rooted split_on join
clean s =
    let body = join (clean_elems (is_rooted s) (split_on b'/' s) []) slash in
    if is_rooted s then b'/' ∷ body else or_dot body

-- `filepath.Join(a, b)`
unfoldable pub join_path : Text → Text → Text
unfolding clean
join_path [] [] = []
join_path [] (d ∷ b) = clean (d ∷ b)
join_path (c ∷ a) [] = clean (c ∷ a)
join_path (c ∷ a) (d ∷ b) = clean ((c ∷ a) ++ (slash ++ d ∷ b))

-- what stands behind the last slash
after_slash : Text → Text → Text
after_slash [] part = part
after_slash (c ∷ s) part = after_slash s (if c == b'/' then [] else part ++ c ∷ [])

drop_slashes : Text → Text
drop_slashes [] = []
drop_slashes (c ∷ s) = elim (drop_slashes s) [
  | [] ↦ if c == b'/' then [] else c ∷ []
  | d ∷ t ↦ c ∷ d ∷ t
]

unfoldable pub base : Text → Text
unfolding after_slash drop_slashes
base [] = codes "."
base (c ∷ s) = elim (after_slash (drop_slashes (c ∷ s)) []) [ [] ↦ slash | d ∷ t ↦ d ∷ t ]

-- everything up to the last slash, the slash included
up_to_slash : Text → Text
up_to_slash [] = []
up_to_slash (c ∷ s) = elim (up_to_slash s) [
  | [] ↦ if c == b'/' then c ∷ [] else []
  | d ∷ t ↦ c ∷ d ∷ t
]

unfoldable pub dir : Text → Text
unfolding up_to_slash clean
dir s = clean (up_to_slash s)
