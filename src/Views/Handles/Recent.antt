-- ===== src/Views/Handles/Recent.antt =====
-- The cap takes the handles whose last query is the longest ago.
use ebookfs.Common.{
  ℕ, zero, suc, ◌+◌, ◌-◌, ◌≤◌, ◌<◌, ◌≡◌, subst, Bool, true, false, List, [], ◌∷◌, arith,
  if◌then◌else◌, ltb, leb, length, take, drop, take-append-drop, contains, nat_comparable,
  Bool-cases, inl, inr, All, All-append,
}
use ebookfs.Views.Handles.{Handle, SearchDir, ids, insert_by_query, sort_by_query, surplus, evict}
use ebookfs.Views.Handles.Cap.{spared, contains_ids, remove_handles_lem}

abbrev pub AllBefore : List Handle → Handle → Type 0
AllBefore gone k = All (λ g. g.last_query ≤ k.last_query) gone

abbrev IsSorted : List Handle → Type 0
IsSorted [] = Unit
IsSorted (h ∷ hs) = All (λ k. h.last_query ≤ k.last_query) hs × IsSorted hs

All-insert {ℓ} :
    (P : Handle → Type ℓ) (h : Handle) (ks : List Handle)
    → P h
    → All P ks
    → All P (insert_by_query h ks)
All-insert P h [] p k = (p, tt)
All-insert P h (j ∷ ks) p k = elim (Bool-cases (leb h.last_query j.last_query)) [
  | inl e ↦ rw e (p, k)
  | inr e ↦ rw e (k.0, All-insert P h ks p k.1)
]

All-branch {ℓ} :
    (P : Handle → Type ℓ) (h j : Handle) (ks later : List Handle) (b : Bool)
    → (All P later → P h × All P ks)
    → All P (if b then h ∷ j ∷ ks else j ∷ later)
    → P h × P j × All P ks
All-branch P h j ks later true rest k = (k.0, k.1.0, k.1.1)
All-branch P h j ks later false rest k = let (p, q) = rest k.1 in (p, k.0, q)

All-of_insert {ℓ} :
    (P : Handle → Type ℓ) (h : Handle) (ks : List Handle)
    → All P (insert_by_query h ks)
    → P h × All P ks
All-of_insert P h [] k = k
All-of_insert P h (j ∷ ks) k =
    let (p, q, r) =
      All-branch P h j ks (insert_by_query h ks) (leb h.last_query j.last_query)
        (All-of_insert P h ks) k in
    (p, (q, r))

wider :
    (h j : Handle) (ks : List Handle)
    → h.last_query ≤ j.last_query
    → All (λ k. j.last_query ≤ k.last_query) ks
    → All (λ k. h.last_query ≤ k.last_query) ks
wider h j [] e k = tt
wider h j (i ∷ ks) e k = (omega (arith, k.0), wider h j ks e k.1)

insert-IsSorted : (h : Handle) (ks : List Handle) → IsSorted ks → IsSorted (insert_by_query h ks)
insert-IsSorted h [] s = (tt, tt)
insert-IsSorted h (j ∷ ks) s = elim (Bool-cases (leb h.last_query j.last_query)) [
  | inl e ↦ rw e ((ground arith, wider h j ks (ground arith) s.0), s)
  | inr e ↦ rw e (
    All-insert (λ k. j.last_query ≤ k.last_query) h ks (ground arith) s.0,
    insert-IsSorted h ks s.1,
  )
]

sort-IsSorted : (hs : List Handle) → IsSorted (sort_by_query hs)
sort-IsSorted [] = tt
sort-IsSorted (h ∷ hs) = insert-IsSorted h (sort_by_query hs) (sort-IsSorted hs)

-- a handle that is not among the first is not before them
abbrev Stays : List Handle → Handle → Type 0
Stays gone k = contains (ids gone) k.id ≡ false → AllBefore gone k

All-of_sort {ℓ} : (P : Handle → Type ℓ) (hs : List Handle) → All P (sort_by_query hs) → All P hs
All-of_sort P [] k = tt
All-of_sort P (h ∷ hs) k =
    let (p, q) = All-of_insert P h (sort_by_query hs) k in (p, All-of_sort P hs q)

first_before :
    (h : Handle) (hs : List Handle) (n : ℕ)
    → All (λ k. h.last_query ≤ k.last_query) hs
    → All (λ k. AllBefore (take n hs) k) (drop n hs)
    → All (λ k. AllBefore (h ∷ take n hs) k) (drop n hs)
first_before h hs n p q = both (drop n hs) (dropped n hs p) q
  where
    dropped :
        (n : ℕ) (hs : List Handle)
        → All (λ k. h.last_query ≤ k.last_query) hs
        → All (λ k. h.last_query ≤ k.last_query) (drop n hs)
    dropped zero hs p = p
    dropped (suc n) [] p = tt
    dropped (suc n) (k ∷ hs) p = dropped n hs p.1

    both :
        (ks : List Handle)
        → All (λ k. h.last_query ≤ k.last_query) ks
        → All (λ k. AllBefore (take n hs) k) ks
        → All (λ k. AllBefore (h ∷ take n hs) k) ks
    both [] p q = tt
    both (k ∷ ks) p q = ((p.0, q.0), both ks p.1 q.1)

drop_after_take :
    (n : ℕ) (hs : List Handle) → IsSorted hs → All (λ k. AllBefore (take n hs) k) (drop n hs)
drop_after_take zero hs s = none_before hs
  where
    none_before : (hs : List Handle) → All (λ k. AllBefore [] k) hs
    none_before [] = tt
    none_before (h ∷ hs) = (tt, none_before hs)
drop_after_take (suc n) [] s = tt
drop_after_take (suc n) (h ∷ hs) s = first_before h hs n s.0 (drop_after_take n hs s.1)

taken-Stays :
    (gone hs : List Handle)
    → ((i : ℕ) → contains (ids hs) i ≡ true → contains (ids gone) i ≡ true)
    → All (Stays gone) hs
taken-Stays gone [] h = tt
taken-Stays gone (k ∷ hs) h =
    (λ e. absurd (cc (h k.id (contains_ids k hs))), taken-Stays gone hs (λ i e. h i (ground arith)))

dropped-Stays : (gone hs : List Handle) → All (AllBefore gone) hs → All (Stays gone) hs
dropped-Stays gone [] h = tt
dropped-Stays gone (k ∷ hs) h = ((λ e. h.0), dropped-Stays gone hs h.1)

spared-AllBefore :
    (gone hs : List Handle) → All (Stays gone) hs → All (AllBefore gone) (spared (ids gone) hs)
spared-AllBefore gone [] h = tt
spared-AllBefore gone (k ∷ hs) h = elim (Bool-cases (contains (ids gone) k.id)) [
  | inl e ↦ rw e (spared-AllBefore gone hs h.1)
  | inr e ↦ rw e (h.0 e, spared-AllBefore gone hs h.1)
]

-- Where there are more handles than the cap and the room that is asked for allow, none that is left was
-- queried before one that goes, whatever the order in which they were made.
pub evict_recent :
    (d : SearchDir) (headroom : ℕ)
    → 0 < d.max_handles
    → d.max_handles < length d.handles + headroom
    → All (AllBefore (surplus d headroom)) (evict d headroom).handles
unfolding evict
evict_recent d headroom on more =
    let gone = surplus d headroom in
    let n = length d.handles + headroom - d.max_handles in
    let sorted = sort_by_query d.handles in
    let stays : All (Stays gone) sorted = subst (All (Stays gone)) (take-append-drop n sorted) (
      All-append (Stays gone) (take n sorted) (drop n sorted)
        (taken-Stays gone (take n sorted) (λ i e. e))
        (dropped-Stays gone (drop n sorted)
          (drop_after_take n sorted (sort-IsSorted d.handles)))) in
    let off : ltb 0 d.max_handles ≡ true = ground arith in
    let over : ltb d.max_handles (length d.handles + headroom) ≡ true = ground arith in
    rw (off, over, remove_handles_lem d gone)
      (spared-AllBefore gone d.handles (All-of_sort (Stays gone) d.handles stays))
