-- ===== src/FilePath/Clean.antt =====
-- How `filepath.Join`, `Dir` and `Base` treat a path of two clean components.
use ebookfs.Common.{
  ℕ, ◌≡◌, ◌≢◌, refl, ap, ◌∙◌, Bool, false, List, [], ◌∷◌, ◌++◌, append_assoc, append-nil, arith,
  ◌==◌, if◌then◌else◌, All, text_eq, text_eq_iff, Text, codes, split_on, join,
}
use ebookfs.FilePath.{
  clean_elem, clean_elems, or_dot, is_rooted, clean, join_path, after_slash, drop_slashes, base,
  up_to_slash, dir,
}

abbrev pub NoSlash : Text → Type 0
NoSlash = All (λ c. c ≢ b'/')

-- a component that `Clean` keeps as it is
pub record IsElement (t : Text) : Type 0 where
  pub filled : t ≢ []
  pub no_slash : NoSlash t
  pub not_dot : t ≢ codes "."
  pub not_dot_dot : t ≢ codes ".."

split_on-NoSlash : (s : Text) → NoSlash s → split_on b'/' s ≡ s ∷ []
unfolding split_on
split_on-NoSlash [] h = refl
split_on-NoSlash (c ∷ s) h = ground (arith, split_on-NoSlash s h.1)

split_on-append : (a b : Text) → NoSlash a → split_on b'/' (a ++ b'/' ∷ b) ≡ a ∷ split_on b'/' b
unfolding split_on
split_on-append [] b h = refl
split_on-append (c ∷ a) b h = ground (arith, split_on-append a b h.1)

text_eq_ne : (s t : Text) → s ≢ t → text_eq s t ≡ false
text_eq_ne s t h = ground (arith, text_eq_iff s t)

clean_element :
    (rooted : Bool) (p : Text) (out : List Text) → IsElement p → clean_elem rooted p out ≡ p ∷ out
unfolding clean_elem
clean_element rooted p out e = rw (
  text_eq_ne p [] e.filled,
  text_eq_ne p (codes ".") e.not_dot,
  text_eq_ne p (codes "..") e.not_dot_dot,
)

clean_blank : (rooted : Bool) (out : List Text) → clean_elem rooted [] out ≡ out
unfolding clean_elem
clean_blank rooted out = refl

is_rooted-append : (a b : Text) → IsElement a → is_rooted (a ++ b) ≡ false
unfolding is_rooted
is_rooted-append [] b e = absurd (e.filled refl)
is_rooted-append (c ∷ a) b e = ground (arith, e.no_slash.0)

after_slash_none : (b part : Text) → NoSlash b → after_slash b part ≡ part ++ b
unfolding after_slash
after_slash_none [] part h = ground (arith, append-nil part)
after_slash_none (c ∷ b) part h =
    ground (arith, after_slash_none b (part ++ c ∷ []) h.1, append_assoc part (c ∷ []) b)

after_slash-append : (a b part : Text) → NoSlash b → after_slash (a ++ b'/' ∷ b) part ≡ b
unfolding after_slash
after_slash-append [] b part h = after_slash_none b [] h
after_slash-append (c ∷ a) b part h =
    after_slash-append a b (if c == b'/' then [] else part ++ c ∷ []) h

drop_slashes_none : (b : Text) → NoSlash b → drop_slashes b ≡ b
unfolding drop_slashes
drop_slashes_none [] h = refl
drop_slashes_none (c ∷ b) h = ground (arith, drop_slashes_none b h.1)

drop_slashes_cons : (c : ℕ) (s : Text) → drop_slashes s ≡ s → s ≢ [] → drop_slashes (c ∷ s) ≡ c ∷ s
unfolding drop_slashes
drop_slashes_cons c [] h k = absurd (k refl)
drop_slashes_cons c (d ∷ s) h k = ground arith

drop_slashes-append :
    (a b : Text) → NoSlash b → b ≢ [] → drop_slashes (a ++ b'/' ∷ b) ≡ a ++ b'/' ∷ b
drop_slashes-append [] b h k = drop_slashes_cons b'/' b (drop_slashes_none b h) k
drop_slashes-append (c ∷ a) b h k =
    drop_slashes_cons c (a ++ b'/' ∷ b) (drop_slashes-append a b h k) (tail_filled a)
  where
    tail_filled : (a : Text) → a ++ b'/' ∷ b ≢ []
    tail_filled [] = cc
    tail_filled (c ∷ a) = cc

up_to_slash_none : (b : Text) → NoSlash b → up_to_slash b ≡ []
unfolding up_to_slash
up_to_slash_none [] h = refl
up_to_slash_none (c ∷ b) h = ground (arith, up_to_slash_none b h.1)

up_to_slash-append : (a b : Text) → NoSlash b → up_to_slash (a ++ b'/' ∷ b) ≡ a ++ b'/' ∷ []
unfolding up_to_slash
up_to_slash-append [] b h = ground (arith, up_to_slash_none b h)
up_to_slash-append (c ∷ []) b h = ground (arith, up_to_slash-append [] b h)
up_to_slash-append (c ∷ d ∷ a) b h = ground (arith, up_to_slash-append (d ∷ a) b h)

-- A joined path of two elements has the second as its base.
pub base-join : (a b : Text) → IsElement b → base (a ++ b'/' ∷ b) ≡ b
unfolding base
base-join [] b e = ground (
  arith,
  drop_slashes-append [] b e.no_slash e.filled,
  after_slash-append [] b [] e.no_slash,
  e.filled,
)
base-join (c ∷ a) b e = ground (
  arith,
  drop_slashes-append (c ∷ a) b e.no_slash e.filled,
  after_slash-append (c ∷ a) b [] e.no_slash,
  e.filled,
)

or_dot-append : (a b : Text) → a ≢ [] → or_dot (a ++ b) ≡ a ++ b
or_dot-append [] b h = absurd (h refl)
or_dot-append (c ∷ a) b h = refl

or_dot-filled : (a : Text) → a ≢ [] → or_dot a ≡ a
or_dot-filled [] h = absurd (h refl)
or_dot-filled (c ∷ a) h = refl

abbrev two : Text → Text → List Text
two a b = a ∷ b ∷ []

split_two : (a b : Text) → IsElement a → NoSlash b → split_on b'/' (a ++ b'/' ∷ b) ≡ two a b
split_two a b ea hb = split_on-append a b ea.no_slash ∙ ap (λ r. a ∷ r) (split_on-NoSlash b hb)

kept_two : (a b : Text) → IsElement a → IsElement b → clean_elems false (two a b) [] ≡ two a b
unfolding clean_elems
kept_two a b ea eb = rw (clean_element false a [] ea, clean_element false b (a ∷ []) eb)

kept_first : (a : Text) → IsElement a → clean_elems false (two a []) [] ≡ a ∷ []
unfolding clean_elems
kept_first a ea = rw (clean_element false a [] ea, clean_blank false (a ∷ []))

clean_two : (a b : Text) → IsElement a → IsElement b → clean (a ++ b'/' ∷ b) ≡ a ++ b'/' ∷ b
unfolding clean
clean_two a b ea eb =
    rw (is_rooted-append a (b'/' ∷ b) ea, split_two a b ea eb.no_slash, kept_two a b ea eb)
      (unfold join in or_dot-append a (b'/' ∷ b) ea.filled)

clean_first : (a : Text) → IsElement a → clean (a ++ b'/' ∷ []) ≡ a
unfolding clean
clean_first a ea =
    rw (is_rooted-append a (b'/' ∷ []) ea, split_two a [] ea tt, kept_first a ea)
      (unfold join in or_dot-filled a ea.filled)

-- Two elements are joined by one slash.
pub join_path_elements : (a b : Text) → IsElement a → IsElement b → join_path a b ≡ a ++ b'/' ∷ b
unfolding join_path
join_path_elements [] b ea eb = absurd (ea.filled refl)
join_path_elements (c ∷ a) [] ea eb = absurd (eb.filled refl)
join_path_elements (c ∷ a) (d ∷ b) ea eb = clean_two (c ∷ a) (d ∷ b) ea eb

-- The directory of a joined path is its first element.
pub dir-join : (a b : Text) → IsElement a → IsElement b → dir (a ++ b'/' ∷ b) ≡ a
unfolding dir
dir-join a b ea eb = rw (up_to_slash-append a b eb.no_slash) (clean_first a ea)
