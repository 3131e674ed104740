-- ===== src/Kosync/Handlers.antt =====
-- The HTTP handlers of internal/kosync/kosync.go, from a request's decoded parts to a response's. A
-- response is a status with its JSON body; the numbers are the codes of the kosync specification.
pub mod Sync
use ebookfs.Common.{
  ℕ, Bool, true, false, not, ◌&&◌, ◌||◌, List, [], ◌∷◌, ◌++◌, Option, none, some, if◌then◌else◌,
  ◌==◌, Text, codes, text_eq, any, all, is_digit, ℤ, Dict, get, put, text_comparable,
  int_comparable,
}
use ebookfs.Float.{Float64}
use ebookfs.Kosync.Mapping.{MappingFile, book_of}
use ebookfs.Kosync.Hook.{
  Progress, SidecarData, Sidecar, unreadable, holding, State, Outcome, sidecar_of, read_sidecar,
}
use ebookfs.Kosync.Status.{Config, Shelf, update_book_status}

-- the bodies that the handlers write: an error with its code, the empty object, a progress, the
-- acknowledgement of a progress, and two fixed objects
pub data Body : Type 0 where
  error : ℕ → Body
  nothing : Body
  position : Text → Progress → Body
  acknowledged : Text → ℕ → Body
  authorized : Body
  healthy : Body

pub record Response : Type 0 where
  pub status : ℕ
  pub body : Body

abbrev pub respond : ℕ → Body → Response
respond status body = record { status = status; body = body }

abbrev pub unauthorized : Response
unauthorized = respond 401 (error 2001)

abbrev pub document_missing : Response
document_missing = respond 403 (error 2004)

abbrev pub server_error : Response
server_error = respond 502 (error 2000)

-- the headers X-Auth-User and X-Auth-Key
pub record Credentials : Type 0 where
  pub user : Text
  pub key : Text

abbrev pub authenticate : Config → Credentials → Bool
authenticate cfg c = text_eq c.user cfg.username && text_eq c.key cfg.password_hash

abbrev pub is_document_id : Text → Bool
is_document_id d = not (text_eq d [] || any (λ c. c == b':') d)

unfoldable pub auth : Config → Credentials → Response
auth cfg c = if authenticate cfg c then respond 200 authorized else unauthorized

abbrev pub healthcheck : Response
healthcheck = respond 200 healthy

abbrev pub users_create : Response
users_create = respond 402 (error 2005)

-- the answer for a sidecar: none that is there, one that fails, or its progress
abbrev pub progress_of : Text → Option Sidecar → Response
progress_of document_id none = respond 200 nothing
progress_of document_id (some unreadable) = server_error
progress_of document_id (some (holding data')) = respond 200 (position document_id data'.progress)

abbrev pub progress_in : State → Text → Option ℤ → Response
progress_in s document_id none = respond 200 nothing
progress_in s document_id (some book_id) = progress_of document_id (sidecar_of s book_id)

unfoldable pub get_progress : Config → Credentials → State → Text → Response
get_progress cfg c s document_id =
    if not (authenticate cfg c)
    then unauthorized
    else if not (is_document_id document_id)
    then document_missing
    else progress_in s document_id (book_of s.mapping document_id)

-- the decoded body of a PUT, in which three fields may be missing
pub record ProgressRequest : Type 0 where
  pub document : Text
  pub percentage : Option Float64
  pub progress : Option Text
  pub device : Option Text
  pub device_id : Text

-- the progress of a request that has every field, at the server's time
abbrev pub progress_sent : ProgressRequest → ℕ → Option Progress
progress_sent r now = elim r.percentage [
  | none ↦ none
  | some percentage ↦ elim r.progress [
    | none ↦ none
    | some progress ↦ elim r.device [
      | none ↦ none
      | some device ↦ some (record {
        percentage = percentage;
        progress = progress;
        device = device;
        device_id = r.device_id;
        timestamp = now;
      })
    ]
  ]
]

-- what runs under the book's lock; `none` is an error
abbrev pub write_progress : Outcome → State → ℤ → Progress → Option SidecarData → Option State
write_progress o s book_id progress none = none
write_progress o s book_id progress (some data') =
    if o.writes book_id
    then some (record s {
      sidecars = put s.sidecars book_id (holding (record data' { progress = progress }));
    })
    else none

unfoldable pub store_progress : Outcome → State → ℤ → Progress → Option State
store_progress o s book_id progress =
    write_progress o s book_id progress (read_sidecar (sidecar_of s book_id))

module _ {ℓ} {S : Type ℓ} (shelf : Shelf S) (cfg : Config) where
  -- A status that cannot be set does not fail the request.
  abbrev pub acknowledge : State → S → ℤ → Text → Progress → Option State → Response × State × S
  acknowledge s lib book_id document_id progress none = (server_error, s, lib)
  acknowledge s lib book_id document_id progress (some s') = (
    respond 200 (acknowledged document_id progress.timestamp),
    s',
    (update_book_status shelf cfg lib book_id progress.percentage).1,
  )

  abbrev pub accept : Outcome → State → S → Text → Progress → Option ℤ → Response × State × S
  accept o s lib document_id progress none =
      (respond 200 (acknowledged document_id progress.timestamp), s, lib)
  accept o s lib document_id progress (some book_id) =
      acknowledge s lib book_id document_id progress (store_progress o s book_id progress)

  abbrev pub checked : Outcome → State → S → Text → Option Progress → Response × State × S
  checked o s lib document_id none = (respond 403 (error 2003), s, lib)
  checked o s lib document_id (some progress) =
      accept o s lib document_id progress (book_of s.mapping document_id)

  -- `none` is a body that is not JSON.
  unfoldable pub put_progress :
      Outcome → Credentials → ℕ → Option ProgressRequest → State → S → Response × State × S
  put_progress o c now none s lib =
      if not (authenticate cfg c) then (unauthorized, s, lib) else (respond 400 (error 103), s, lib)
  put_progress o c now (some r) s lib =
      if not (authenticate cfg c)
      then (unauthorized, s, lib)
      else if not (is_document_id r.document)
      then (document_missing, s, lib)
      else checked o s lib r.document (progress_sent r now)
