-- ===== src/Views/Handles/Clones.antt =====
-- What a client reads from search/clone of internal/fs/views/view_search.go.
use ebookfs.Common.{
  ℕ, ◌+◌, ◌==◌, ==_iff, ◌<◌, ◌≡◌, refl, sym, ap, ◌∙◌, true, false, ◌&&◌, List, [], ◌∷◌, ◌++◌, none,
  some, arith, ltb, length, contains, contains-append, nat_comparable, get, put, get-put,
  Bool-cases, inl, inr, All,
}
use ebookfs.VFile.{clamp_read}
use ebookfs.Views.Handles.{
  Handle, SearchDir, ids, remove_handle, remove_handles, expired, expire, surplus, evict, cleanup,
  allocate_handle, CloneFile, id_line, clone_read_at, clone_read,
}
use ebookfs.Views.Handles.Runs.{IsTracked, allocate_handle-IsTracked, ids-append}

remove_handle_next : (d : SearchDir) (id : ℕ) → (remove_handle d id).next_id ≡ d.next_id
remove_handle_next d id = ground arith

remove_handles_next : (d : SearchDir) (hs : List Handle) → (remove_handles d hs).next_id ≡ d.next_id
remove_handles_next d [] = refl
remove_handles_next d (h ∷ hs) =
    remove_handles_next (remove_handle d h.id) hs ∙ remove_handle_next d h.id

expire_next : (d : SearchDir) (now : ℕ) → (expire d now).next_id ≡ d.next_id
unfolding expire
expire_next d now = elim (Bool-cases (ltb 0 d.ttl)) [
  | inl e ↦ rw e (remove_handles_next d (expired now d.ttl d.handles))
  | inr e ↦ rw e refl
]

evict_next : (d : SearchDir) (headroom : ℕ) → (evict d headroom).next_id ≡ d.next_id
unfolding evict
evict_next d headroom =
    elim (Bool-cases (ltb 0 d.max_handles && ltb d.max_handles (length d.handles + headroom))) [
      | inl e ↦ rw e (remove_handles_next d (surplus d headroom))
      | inr e ↦ rw e refl
    ]

cleanup_next : (d : SearchDir) (headroom now : ℕ) → (cleanup d headroom now).next_id ≡ d.next_id
unfolding cleanup
cleanup_next d headroom now = evict_next (expire d now) headroom ∙ expire_next d now

not_given_out : (is' : List ℕ) (n : ℕ) → All (λ i. (0 < i) × (i < n)) is' → contains is' n ≡ false
not_given_out [] n a = refl
not_given_out (i ∷ is') n a =
    let later = not_given_out is' n a.1 in let less = a.0.1 in ground (arith, ==_iff i n)

allocated_is_there :
    (d : SearchDir) (now : ℕ) → contains (ids (allocate_handle d now).handles) d.next_id ≡ true
allocated_is_there d now =
    let c = cleanup d 1 now in
    let h : Handle = record { id = c.next_id; query_text = []; query = none; last_query = now } in
    let there : contains (ids c.handles ++ c.next_id ∷ []) c.next_id ≡ true =
      contains-append (ids c.handles) (c.next_id ∷ []) c.next_id
      ∙ ground (arith, ==_iff c.next_id c.next_id) in
    unfold allocate_handle in
    ap (contains (ids (c.handles ++ h ∷ []))) (sym (cleanup_next d 1 now))
    ∙ ap (λ l. contains l c.next_id) (ids-append c.handles h)
    ∙ there

-- A fid that has been opened and not read is given, at its first read, the id of a new handle, which
-- no handle there had; that handle is then there and nothing is left untracked; and a later read of the
-- fid, whatever the handles are by then, gives the same id and makes no other.
pub clone_read_lem :
    (f : CloneFile) (d e : SearchDir) (fid offset count now offset' count' now' : ℕ)
    → get f.fids fid ≡ some 0
    → IsTracked d
    → ((clone_read f d fid offset count now).0 ≡ some (clamp_read (id_line d.next_id) offset count))
      × (contains (ids d.handles) d.next_id ≡ false)
      × (contains (ids (clone_read f d fid offset count now).2.handles) d.next_id ≡ true)
      × IsTracked (clone_read f d fid offset count now).2
      × (clone_read (clone_read f d fid offset count now).1 e fid offset' count' now' ≡ (
        some (clamp_read (id_line d.next_id) offset' count'),
        (clone_read f d fid offset count now).1,
        e,
      ))
unfolding clone_read
clone_read_lem f d e fid offset count now offset' count' now' g t =
    let f' : CloneFile = record f { fids = put f.fids fid d.next_id } in
    let kept : get f'.fids fid ≡ some d.next_id =
      get-put f.fids fid d.next_id fid ∙ ground (arith, ==_iff fid fid) in
    let old : (d.next_id == 0) ≡ false = ground (arith, ==_iff d.next_id 0, t.next_pos) in
    rw (g, cleanup_next d 1 now)
      (
        refl,
        not_given_out (ids d.handles) d.next_id t.given_out,
        allocated_is_there d now,
        allocate_handle-IsTracked d now t,
        ap (clone_read_at f' e fid offset' count' now') kept ∙ rw old refl,
      )
