-- ===== src/Views/Handles/Runs.antt =====
-- The handles of search/ through every run of clones, queries, closes and sweeps.
use ebookfs.Common.{
  ℕ, suc, ◌+◌, ◌==◌, ◌≤◌, ◌<◌, ◌≡◌, refl, sym, ap, ◌∙◌, not, ◌&&◌, List, [], ◌∷◌, ◌++◌, none, arith,
  ltb, length, length-append, length-keep_le, keep, contains, without, nat_comparable, Bool-cases,
  inl, inr, All, All-append, Text, codes, text_eq,
}
use ebookfs.TextFmt.Query.{Query, Parsed, parsed, rejected, parse_query}
use ebookfs.Views.Handles.{
  Handle, SearchDir, ids, remove_handle, remove_handles, expired, expire, surplus, evict, cleanup,
  add_handle, allocate_handle, query_at, execute_search, new_search_dir, ctl_query, ctl_command,
}
use ebookfs.Views.Handles.Cap.{evict-le, remove_handles_max}

-- Each handle is listed, and its results are followed by the registry, and nothing else is; the ids are
-- those that have been given out, and there are no more handles than the cap allows.
pub record IsTracked (d : SearchDir) : Type 0 where
  pub views_lem : d.views ≡ ids d.handles
  pub listed_lem : d.listed ≡ ids d.handles
  pub given_out : All (λ i. (0 < i) × (i < d.next_id)) (ids d.handles)
  pub next_pos : 0 < d.next_id
  pub capped : 0 < d.max_handles → length d.handles ≤ d.max_handles

ids_keep : (hs : List Handle) (id : ℕ) → ids (keep (λ h. not (h.id == id)) hs) ≡ without (ids hs) id
ids_keep [] id = refl
ids_keep (h ∷ hs) id = ground (arith, ids_keep hs id)

All-without {ℓ} : (P : ℕ → Type ℓ) (is' : List ℕ) (id : ℕ) → All P is' → All P (without is' id)
All-without P [] id h = tt
All-without P (i ∷ is') id h = elim (Bool-cases (i == id)) [
  | inl e ↦ rw e (All-without P is' id h.1)
  | inr e ↦ rw e (h.0, All-without P is' id h.1)
]

removed : SearchDir → ℕ → SearchDir
removed d id = record d {
  handles = keep (λ h. not (h.id == id)) d.handles;
  views = without d.views id;
  listed = without d.listed id;
}

removed-IsTracked : (d : SearchDir) (id : ℕ) → IsTracked d → IsTracked (removed d id)
unfolding removed
removed-IsTracked d id t = record {
  views_lem = ap (λ l. without l id) t.views_lem ∙ sym (ids_keep d.handles id);
  listed_lem = ap (λ l. without l id) t.listed_lem ∙ sym (ids_keep d.handles id);
  given_out = rw (ids_keep d.handles id) (All-without _ (ids d.handles) id t.given_out);
  next_pos = t.next_pos;
  capped = λ on. omega (arith, length-keep_le (λ h. not (h.id == id)) d.handles, t.capped on);
}

pub remove_handle-IsTracked :
    (d : SearchDir) (id : ℕ) → IsTracked d → IsTracked (remove_handle d id)
unfolding removed
remove_handle-IsTracked d id t = elim (Bool-cases (contains (ids d.handles) id)) [
  | inl e ↦ rw e (removed-IsTracked d id t)
  | inr e ↦ rw e t
]

remove_handles-IsTracked :
    (d : SearchDir) (hs : List Handle) → IsTracked d → IsTracked (remove_handles d hs)
remove_handles-IsTracked d [] t = t
remove_handles-IsTracked d (h ∷ hs) t =
    remove_handles-IsTracked (remove_handle d h.id) hs (remove_handle-IsTracked d h.id t)

expire-IsTracked : (d : SearchDir) (now : ℕ) → IsTracked d → IsTracked (expire d now)
unfolding expire
expire-IsTracked d now t = elim (Bool-cases (ltb 0 d.ttl)) [
  | inl e ↦ rw e (remove_handles-IsTracked d (expired now d.ttl d.handles) t)
  | inr e ↦ rw e t
]

evict-IsTracked : (d : SearchDir) (headroom : ℕ) → IsTracked d → IsTracked (evict d headroom)
unfolding evict
evict-IsTracked d headroom t =
    elim (Bool-cases (ltb 0 d.max_handles && ltb d.max_handles (length d.handles + headroom))) [
      | inl e ↦ rw e (remove_handles-IsTracked d (surplus d headroom) t)
      | inr e ↦ rw e t
    ]

pub cleanup-IsTracked :
    (d : SearchDir) (headroom now : ℕ) → IsTracked d → IsTracked (cleanup d headroom now)
cleanup-IsTracked d headroom now t =
    unfold cleanup in evict-IsTracked (expire d now) headroom (expire-IsTracked d now t)

evict_max : (d : SearchDir) (headroom : ℕ) → (evict d headroom).max_handles ≡ d.max_handles
unfolding evict
evict_max d headroom =
    elim (Bool-cases (ltb 0 d.max_handles && ltb d.max_handles (length d.handles + headroom))) [
      | inl e ↦ rw e (remove_handles_max d (surplus d headroom))
      | inr e ↦ rw e refl
    ]

pub ids-append : (hs : List Handle) (h : Handle) → ids (hs ++ h ∷ []) ≡ ids hs ++ h.id ∷ []
ids-append [] h = refl
ids-append (k ∷ hs) h = ap (λ l. k.id ∷ l) (ids-append hs h)

wider :
    (is' : List ℕ) (n : ℕ) → All (λ i. (0 < i) × (i < n)) is' → All (λ i. (0 < i) × (i < n + 1)) is'
wider [] n h = tt
wider (i ∷ is') n h = ((h.0.0, omega (arith, h.0.1)), wider is' n h.1)

add_handle-IsTracked :
    (d : SearchDir) (now : ℕ)
    → IsTracked d
    → (0 < d.max_handles → length d.handles + 1 ≤ d.max_handles)
    → IsTracked (add_handle d now)
add_handle-IsTracked d now t room =
    let h : Handle = record { id = d.next_id; query_text = []; query = none; last_query = now } in
    let same = ids-append d.handles h in
    record {
      views_lem = ap (λ l. l ++ d.next_id ∷ []) t.views_lem ∙ sym same;
      listed_lem = ap (λ l. l ++ d.next_id ∷ []) t.listed_lem ∙ sym same;
      given_out = rw same (
          All-append _ (ids d.handles) (d.next_id ∷ [])
            (wider (ids d.handles) d.next_id t.given_out) ((t.next_pos, omega arith), tt));
      next_pos = omega arith;
      capped = λ on. omega (arith, length-append d.handles (h ∷ []), room on);
    }

pub allocate_handle-IsTracked :
    (d : SearchDir) (now : ℕ) → IsTracked d → IsTracked (allocate_handle d now)
unfolding allocate_handle
allocate_handle-IsTracked d now t =
    let same : (evict (expire d now) 1).max_handles ≡ (expire d now).max_handles =
      evict_max (expire d now) 1 in
    unfold cleanup in
    add_handle-IsTracked (evict (expire d now) 1) now
      (evict-IsTracked (expire d now) 1 (expire-IsTracked d now t))
      (λ on. omega (arith, evict-le (expire d now) 1 (omega arith) (omega arith), same))

ids-query_at :
    (id : ℕ) (q : Query) (text : Text) (now : ℕ) (hs : List Handle)
    → ids (query_at id q text now hs) ≡ ids hs
ids-query_at id q text now [] = refl
ids-query_at id q text now (h ∷ hs) = ground (arith, ids-query_at id q text now hs)

length_ids : (hs : List Handle) → length (ids hs) ≡ length hs
length_ids [] = refl
length_ids (h ∷ hs) = ap suc (length_ids hs)

pub execute_search-IsTracked :
    (d : SearchDir) (id : ℕ) (q : Query) (text : Text) (now : ℕ)
    → IsTracked d
    → IsTracked (execute_search d id q text now)
unfolding execute_search
execute_search-IsTracked d id q text now t =
    let same = ids-query_at id q text now d.handles in
    record {
      views_lem = t.views_lem ∙ sym same;
      listed_lem = t.listed_lem ∙ sym same;
      given_out = rw same t.given_out;
      next_pos = t.next_pos;
      capped = λ on. omega (
        arith,
        t.capped on,
        sym (length_ids (query_at id q text now d.handles)) ∙ ap length same ∙ length_ids d.handles,
      );
    }

ctl_query-IsTracked :
    (d : SearchDir) (id now : ℕ) (s : Text) (p : Parsed)
    → IsTracked d
    → IsTracked (ctl_query d id now s p).1
ctl_query-IsTracked d id now s (rejected e) t = t
ctl_query-IsTracked d id now s (parsed q) t = execute_search-IsTracked d id q s now t

ctl_command-IsTracked :
    (d : SearchDir) (id now : ℕ) (s : Text) → IsTracked d → IsTracked (ctl_command d id now s).1
unfolding ctl_command
ctl_command-IsTracked d id now s t = elim (Bool-cases (text_eq s (codes "close"))) [
  | inl e ↦ rw e (remove_handle-IsTracked d id t)
  | inr e ↦ rw e (ctl_query-IsTracked d id now s (parse_query s) t)
]

-- what can happen to the handles, at any time `now`
pub data Step : SearchDir → SearchDir → Type 0 where
  clone : (d : SearchDir) (now : ℕ) → Step d (allocate_handle d now)
  sweep : (d : SearchDir) (now : ℕ) → Step d (cleanup d 0 now)
  command : (d : SearchDir) (id now : ℕ) (s : Text) → Step d (ctl_command d id now s).1

pub data Run (d : SearchDir) : SearchDir → Type 0 where
  start : Run d d
  next : {e f : SearchDir} → Run d e → Step e f → Run d f

Step-IsTracked : {d e : SearchDir} → Step d e → IsTracked d → IsTracked e
Step-IsTracked (clone d now) t = allocate_handle-IsTracked d now t
Step-IsTracked (sweep d now) t = cleanup-IsTracked d 0 now t
Step-IsTracked (command d id now s) t = ctl_command-IsTracked d id now s t

pub new_search_dir-IsTracked : (ttl max : ℕ) → IsTracked (new_search_dir ttl max)
unfolding new_search_dir
new_search_dir-IsTracked ttl max = record {
  views_lem = refl;
  listed_lem = refl;
  given_out = tt;
  next_pos = omega arith;
  capped = λ on. omega arith;
}

Run-IsTracked_from : {d e : SearchDir} → Run d e → IsTracked d → IsTracked e
Run-IsTracked_from start t = t
Run-IsTracked_from (next r s) t = Step-IsTracked s (Run-IsTracked_from r t)

-- Whatever is cloned, written to a handle's ctl file and swept, and when: there are never more handles than the cap, if it
-- is on; every handle is listed and followed, and no handle that is gone still is; and no id is one
-- that has not been given out.
pub Run-IsTracked : (ttl max : ℕ) (d : SearchDir) → Run (new_search_dir ttl max) d → IsTracked d
Run-IsTracked ttl max d r = Run-IsTracked_from r (new_search_dir-IsTracked ttl max)
