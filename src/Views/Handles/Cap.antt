-- ===== src/Views/Handles/Cap.antt =====
-- What a sweep and an allocation leave of the search handles.
use ebookfs.Common.{
  ℕ, suc, ◌+◌, ◌-◌, ◌==◌, ==_iff, ◌≤◌, ◌<◌, ◌≡◌, refl, sym, ap, ◌∙◌, Bool, true, false, not, List,
  [], ◌∷◌, ◌++◌, arith, ltb, length, length-drop, take, drop, take-append-drop, keep, keep-append,
  length-keep_le, contains, nat_comparable, Bool-cases, inl, inr,
}
use ebookfs.Views.Handles.{
  Handle, SearchDir, ids, remove_handle, remove_handles, insert_by_query, sort_by_query, expired,
  expire, surplus, evict,
}

-- what is left when the handles of some ids are gone
abbrev pub spared : List ℕ → List Handle → List Handle
spared gone hs = keep (λ h. not (contains gone h.id)) hs

pub contains_ids : (h : Handle) (hs : List Handle) → contains (ids (h ∷ hs)) h.id ≡ true
contains_ids h hs = ground (arith, ==_iff h.id h.id)

pub spared_absent :
    (hs : List Handle) (id : ℕ)
    → contains (ids hs) id ≡ false
    → keep (λ h. not (h.id == id)) hs ≡ hs
spared_absent [] id e = refl
spared_absent (h ∷ hs) id e = ground (arith, spared_absent hs id)

spared_twice :
    (hs : List Handle) (id : ℕ) (gone : List ℕ)
    → spared gone (keep (λ h. not (h.id == id)) hs) ≡ spared (id ∷ gone) hs
spared_twice [] id gone = refl
spared_twice (h ∷ hs) id gone =
    ground (arith, spared_twice hs id gone, ==_iff h.id id, ==_iff id h.id)

spared_none : (hs : List Handle) → spared [] hs ≡ hs
spared_none [] = refl
spared_none (h ∷ hs) = ap (λ l. h ∷ l) (spared_none hs)

pub remove_handle_lem :
    (d : SearchDir) (id : ℕ) → (remove_handle d id).handles ≡ keep (λ h. not (h.id == id)) d.handles
remove_handle_lem d id = elim (Bool-cases (contains (ids d.handles) id)) [
  | inl e ↦ rw e refl
  | inr e ↦ rw e (sym (spared_absent d.handles id e))
]

pub remove_handle_max : (d : SearchDir) (id : ℕ) → (remove_handle d id).max_handles ≡ d.max_handles
remove_handle_max d id = ground arith

pub remove_handles_lem :
    (d : SearchDir) (hs : List Handle) → (remove_handles d hs).handles ≡ spared (ids hs) d.handles
remove_handles_lem d [] = sym (spared_none d.handles)
remove_handles_lem d (h ∷ hs) =
    remove_handles_lem (remove_handle d h.id) hs
    ∙ ap (spared (ids hs)) (remove_handle_lem d h.id)
    ∙ spared_twice d.handles h.id (ids hs)

pub remove_handles_max :
    (d : SearchDir) (hs : List Handle) → (remove_handles d hs).max_handles ≡ d.max_handles
remove_handles_max d [] = refl
remove_handles_max d (h ∷ hs) =
    remove_handles_max (remove_handle d h.id) hs ∙ remove_handle_max d h.id

-- sorting keeps as many handles of each kind
length-insert :
    (p : Handle → Bool) (h : Handle) (ks : List Handle)
    → length (keep p (insert_by_query h ks)) ≡ length (keep p (h ∷ ks))
length-insert p h [] = refl
length-insert p h (k ∷ ks) = ground (arith, length-insert p h ks)

length-sort :
    (p : Handle → Bool) (hs : List Handle) → length (keep p (sort_by_query hs)) ≡ length (keep p hs)
length-sort p [] = refl
length-sort p (h ∷ hs) = length-insert p h (sort_by_query hs) ∙ ground (arith, length-sort p hs)

length-insert_one :
    (h : Handle) (ks : List Handle) → length (insert_by_query h ks) ≡ suc (length ks)
length-insert_one h [] = refl
length-insert_one h (k ∷ ks) = ground (arith, length-insert_one h ks)

length_sorted : (hs : List Handle) → length (sort_by_query hs) ≡ length hs
length_sorted [] = refl
length_sorted (h ∷ hs) = length-insert_one h (sort_by_query hs) ∙ ap suc (length_sorted hs)

spared-own :
    (hs : List Handle) (gone : List ℕ)
    → ((h : ℕ) → contains (ids hs) h ≡ true → contains gone h ≡ true)
    → spared gone hs ≡ []
spared-own [] gone h = refl
spared-own (k ∷ hs) gone h =
    rw (h k.id (contains_ids k hs)) (spared-own hs gone (λ i e. h i (ground arith)))

-- the first ones of a list are gone, so no more than the others are left
pub length-spared :
    (n : ℕ) (hs : List Handle) → length (spared (ids (take n hs)) hs) ≤ length hs - n
length-spared n hs =
    let gone = ids (take n hs) in
    let cut : length (spared gone (take n hs ++ drop n hs)) ≡ length (spared gone (drop n hs)) =
      ap length (keep-append (λ h. not (contains gone h.id)) (take n hs) (drop n hs))
      ∙ rw (spared-own (take n hs) gone (λ i e. e)) refl in
    omega (
      arith,
      sym (ap (λ l. length (spared gone l)) (take-append-drop n hs)) ∙ cut,
      length-keep_le (λ h. not (contains gone h.id)) (drop n hs),
      length-drop n hs,
    )

pub evict-le :
    (d : SearchDir) (headroom : ℕ)
    → 0 < d.max_handles
    → headroom ≤ d.max_handles
    → length (evict d headroom).handles + headroom ≤ d.max_handles
unfolding evict
evict-le d headroom on fits = elim (Bool-cases (ltb d.max_handles (length d.handles + headroom))) [
  | inr e ↦ let off : ltb 0 d.max_handles ≡ true = ground arith in rw (off, e) (ground arith)
  | inl e ↦
      let off : ltb 0 d.max_handles ≡ true = ground arith in
      let more : d.max_handles < length d.handles + headroom = ground arith in
      let n = length d.handles + headroom - d.max_handles in
      rw (off, e)
        (omega (
          arith,
          ap length (remove_handles_lem d (surplus d headroom)),
          length-sort (λ h. not (contains (ids (surplus d headroom)) h.id)) d.handles,
          length-spared n (sort_by_query d.handles),
          length_sorted d.handles,
        ))
]

pub expire_max : (d : SearchDir) (now : ℕ) → (expire d now).max_handles ≡ d.max_handles
unfolding expire
expire_max d now = elim (Bool-cases (ltb 0 d.ttl)) [
  | inl e ↦ rw e (remove_handles_max d (expired now d.ttl d.handles))
  | inr e ↦ rw e refl
]
