-- ===== src/Kosync/Handlers/Sync.antt =====
-- What a device that sends its progress finds when it, or another, asks for it.
use ebookfs.Common.{
  ℕ, ◌≡◌, refl, ap, ◌∙◌, true, Option, none, some, Text, ℤ, put, get-put, same_refl, ◌==◌,
  text_comparable, int_comparable, ◌⊎◌, inl, inr, Bool-cases,
}
use ebookfs.Kosync.Mapping.{book_of}
use ebookfs.Kosync.Hook.{Progress, SidecarData, holding, State, Outcome, sidecar_of, read_sidecar}
use ebookfs.Kosync.Status.{Config, Shelf, update_book_status}
use ebookfs.Kosync.Handlers.{
  Credentials, Response, position, acknowledged, respond, unauthorized, authenticate,
  is_document_id, get_progress, progress_in, progress_of, ProgressRequest, progress_sent,
  write_progress, store_progress, put_progress, acknowledge, accept, checked,
}

get_allowed :
    (cfg : Config) (c : Credentials) (s : State) (d : Text)
    → authenticate cfg c ≡ true
    → is_document_id d ≡ true
    → get_progress cfg c s d ≡ progress_in s d (book_of s.mapping d)
unfolding get_progress
get_allowed cfg c s d a i = rw (a, i) refl

module _ {ℓ} {S : Type ℓ} (shelf : Shelf S) (cfg : Config) where
  put_allowed :
      (o : Outcome) (c : Credentials) (now : ℕ) (r : ProgressRequest) (s : State) (lib : S)
      → authenticate cfg c ≡ true
      → is_document_id r.document ≡ true
      → put_progress shelf cfg o c now (some r) s lib
        ≡ checked shelf cfg o s lib r.document (progress_sent r now)
  unfolding put_progress
  put_allowed o c now r s lib a i = rw (a, i) refl

  stored :
      (o : Outcome) (s : State) (book_id : ℤ) (p : Progress) (data' : SidecarData)
      → read_sidecar (sidecar_of s book_id) ≡ some data'
      → o.writes book_id ≡ true
      → store_progress o s book_id p
        ≡ some (record s {
          sidecars = put s.sidecars book_id (holding (record data' { progress = p }));
        })
  unfolding store_progress
  stored o s book_id p data' e w = rw (e, write_progress, w) refl

  pub get_progress-put_progress :
      (o : Outcome) (c : Credentials) (now : ℕ) (r : ProgressRequest) (s : State) (lib : S)
      (p : Progress) (book_id : ℤ) (data' : SidecarData) (other : Text)
      → authenticate cfg c ≡ true
      → is_document_id r.document ≡ true
      → is_document_id other ≡ true
      → progress_sent r now ≡ some p
      → book_of s.mapping r.document ≡ some book_id
      → book_of s.mapping other ≡ some book_id
      → read_sidecar (sidecar_of s book_id) ≡ some data'
      → o.writes book_id ≡ true
      → (let (answer, s', lib') = put_progress shelf cfg o c now (some r) s lib in
          (answer ≡ respond 200 (acknowledged r.document p.timestamp))
          × (get_progress cfg c s' other ≡ respond 200 (position other p))
          × (sidecar_of s' book_id ≡ some (holding (record data' { progress = p })))
          × (s'.mapping ≡ s.mapping)
          × (lib' ≡ (update_book_status shelf cfg lib book_id p.percentage).1))
  get_progress-put_progress o c now r s lib p book_id data' other a i i' sent known known' readable
        writes =
      let s' : State = record s {
        sidecars = put s.sidecars book_id (holding (record data' { progress = p }));
      } in
      let found : sidecar_of s' book_id ≡ some (holding (record data' { progress = p })) =
        get-put s.sidecars book_id (holding (record data' { progress = p })) book_id
        ∙ rw (same_refl book_id) refl in
      let answered : put_progress shelf cfg o c now (some r) s lib ≡ (
        respond 200 (acknowledged r.document p.timestamp),
        s',
        (update_book_status shelf cfg lib book_id p.percentage).1,
      ) =
        put_allowed o c now r s lib a i
        ∙ ap (checked shelf cfg o s lib r.document) sent
        ∙ ap (accept shelf cfg o s lib r.document p) known
        ∙ ap (acknowledge shelf cfg s lib book_id r.document p)
            (stored o s book_id p data' readable writes) in
      rw answered (
        refl,
        get_allowed cfg c s' other a i'
            ∙ ap (progress_in s' other) known'
            ∙ ap (progress_of other) found,
        found,
        refl,
        refl,
      )

module _ {ℓ} {S : Type ℓ} (shelf : Shelf S) (cfg : Config) where
  -- what a handler leaves behind, unless it answered 200
  abbrev pub KeepsUnless200 : State → S → Response × State × S → Type ℓ
  KeepsUnless200 s lib (answer, s', lib') =
      ((answer.status == 200) ≡ true) ⊎ ((s' ≡ s) × (lib' ≡ lib))

  acknowledge_keeps :
      (s : State) (lib : S) (book_id : ℤ) (d : Text) (p : Progress) (o : Option State)
      → KeepsUnless200 s lib (acknowledge shelf cfg s lib book_id d p o)
  acknowledge_keeps s lib book_id d p none = inr (refl, refl)
  acknowledge_keeps s lib book_id d p (some s') = inl refl

  accept_keeps :
      (out : Outcome) (s : State) (lib : S) (d : Text) (p : Progress) (o : Option ℤ)
      → KeepsUnless200 s lib (accept shelf cfg out s lib d p o)
  accept_keeps out s lib d p none = inr (refl, refl)
  accept_keeps out s lib d p (some book_id) =
      acknowledge_keeps s lib book_id d p (store_progress out s book_id p)

  checked_keeps :
      (out : Outcome) (s : State) (lib : S) (d : Text) (o : Option Progress)
      → KeepsUnless200 s lib (checked shelf cfg out s lib d o)
  checked_keeps out s lib d none = inr (refl, refl)
  checked_keeps out s lib d (some p) = accept_keeps out s lib d p (book_of s.mapping d)

  -- A PUT answers 401 to wrong credentials, whatever else it holds; and every PUT that is not answered 200,
  -- for its credentials, its body or its sidecar, leaves the mapping, the sidecars and the library as
  -- they were.
  pub put_progress_refused :
      (o : Outcome) (c : Credentials) (now : ℕ) (r : Option ProgressRequest) (s : State) (lib : S)
      → KeepsUnless200 s lib (put_progress shelf cfg o c now r s lib)
        × ((authenticate cfg c ≡ true)
            ⊎ ((put_progress shelf cfg o c now r s lib).0 ≡ unauthorized))
  unfolding put_progress
  put_progress_refused o c now none s lib = elim (Bool-cases (authenticate cfg c)) [
    | inl a ↦ rw a (inr (refl, refl), inl refl)
    | inr a ↦ rw a (inr (refl, refl), inr refl)
  ]
  put_progress_refused o c now (some r) s lib = elim (Bool-cases (authenticate cfg c)) [
    | inl a ↦ elim (Bool-cases (is_document_id r.document)) [
      | inl i ↦ rw (a, i) (checked_keeps o s lib r.document (progress_sent r now), inl refl)
      | inr i ↦ rw (a, i) (inr (refl, refl), inl refl)
    ]
    | inr a ↦ rw a (inr (refl, refl), inr refl)
  ]
