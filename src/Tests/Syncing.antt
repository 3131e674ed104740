-- ===== src/Tests/Syncing.antt =====
-- internal/kosync at one book and one device.
use ebookfs.Common.{
  ℕ, ◌≡◌, refl, Bool, true, false, ◌⊎◌, List, [], ◌∷◌, ◌++◌, contains, Option, none, some, arith,
  if◌then◌else◌, Text, codes, text_eq, ℤ, pos, Dict, get, put, get-nil, get-put, int_comparable,
  text_comparable, ◌==◌,
}
use ebookfs.Float.{of_nat, float_le}
use ebookfs.Kosync.Mapping.{missing, new_empty_mapping, book_of}
use ebookfs.Kosync.Hook.{
  Progress, SidecarData, holding, State, Outcome, sidecar_of, on_ingested, on_edited, first_sidecar,
}
use ebookfs.Kosync.Status.{Config, Shelf, update_book_status}
use ebookfs.Kosync.Status.Runs.{IsWorking, report_all, status_after, report_all-status}
use ebookfs.Kosync.Handlers.{
  Credentials, position, acknowledged, respond, unauthorized, authenticate, get_progress,
  ProgressRequest, put_progress,
}
use ebookfs.Kosync.Handlers.Sync.{get_progress-put_progress, KeepsUnless200, put_progress_refused}
use ebookfs.Kosync.Backed.{IsBacked}
use ebookfs.Kosync.Backed.Events.{
  Events, done, after, ingested, edited, Events-IsBacked, get_progress-Events,
}
use ebookfs.Kosync.Hash.{partial_md5}
use ebookfs.Kosync.Hash.Samples.{pieces, reads_from, partial_md5_lem}

-- a library that keeps the statuses in a map
abbrev map_shelf : Shelf (Dict ℤ Text)
map_shelf = record { status = get; edit_status = λ s book_id t. (true, put s book_id t) }

map_shelf-IsWorking : IsWorking map_shelf
map_shelf-IsWorking = record {
  edit_sets = λ s book_id t u h.
      ground (arith, get-put s book_id u book_id, int_comparable.beq_iff book_id book_id);
}

abbrev config : Config
config = record {
  username = codes "reader";
  password_hash = codes "d41d8cd9";
  reading_threshold = of_nat 5;
  read_threshold = of_nat 95;
}

abbrev shelved : Dict ℤ Text
shelved = (pos 1, codes "unread") ∷ []

report_all-status_example :
    map_shelf.status
      (report_all map_shelf config shelved (pos 1) (of_nat 96 ∷ of_nat 3 ∷ []))
      (pos 1)
    ≡ some (status_after config (codes "unread") (of_nat 96 ∷ of_nat 3 ∷ []))
unfolding ebookfs.Common.get
report_all-status_example =
    report_all-status map_shelf config map_shelf-IsWorking shelved (pos 1) (codes "unread")
      (of_nat 96 ∷ of_nat 3 ∷ []) refl

finished_stays : status_after config (codes "unread") (of_nat 96 ∷ of_nat 3 ∷ []) ≡ codes "read"
unfolding float_le of_nat
finished_stays = refl

-- everything succeeds, and every epub has the same hash
abbrev smooth : Outcome
smooth = record {
  document_id = λ book_id. some (codes "abc");
  writes = λ book_id. true;
  saves = true;
}

abbrev fresh : State
fresh = record { mapping = new_empty_mapping missing; sidecars = [] }

abbrev arrived : State
arrived = record {
  mapping = record { entries = (codes "abc", pos 1) ∷ []; disk = missing };
  sidecars = (pos 1, holding (first_sidecar (codes "abc"))) ∷ [];
}

fresh-IsBacked : IsBacked fresh
unfolding ebookfs.Common.get
fresh-IsBacked = record { listed = λ d book_id h. absurd (cc) }

ingest_and_edit : Events fresh (on_edited smooth (on_ingested smooth fresh (pos 1)) (pos 1))
unfolding ebookfs.Common.get
ingest_and_edit =
    after fresh (on_ingested smooth fresh (pos 1)) _
      (after fresh fresh _ (done fresh) (ingested smooth fresh (pos 1) refl))
      (edited smooth (on_ingested smooth fresh (pos 1)) (pos 1))

Events-IsBacked_example : IsBacked (on_edited smooth (on_ingested smooth fresh (pos 1)) (pos 1))
Events-IsBacked_example =
    Events-IsBacked fresh (on_edited smooth (on_ingested smooth fresh (pos 1)) (pos 1))
      ingest_and_edit fresh-IsBacked

abbrev reader : Credentials
reader = record { user = codes "reader"; key = codes "d41d8cd9" }

abbrev page_nine : ProgressRequest
page_nine = record {
  document = codes "abc";
  percentage = some (of_nat 50);
  progress = some (codes "p9");
  device = some (codes "Kobo");
  device_id = [];
}

abbrev page_nine_sent : Progress
page_nine_sent = record {
  percentage = of_nat 50;
  progress = codes "p9";
  device = codes "Kobo";
  device_id = [];
  timestamp = 77;
}

get_progress-put_progress_example :
    (let (answer, s', lib') =
        put_progress map_shelf config smooth reader 77 (some page_nine) arrived shelved in
      (answer ≡ respond 200 (acknowledged (codes "abc") 77))
      × (get_progress config reader s' (codes "abc")
          ≡ respond 200 (position (codes "abc") page_nine_sent))
      × (sidecar_of s' (pos 1)
          ≡ some (holding (record (first_sidecar (codes "abc")) { progress = page_nine_sent })))
      × (s'.mapping ≡ arrived.mapping)
      × (lib' ≡ (update_book_status map_shelf config shelved (pos 1) (of_nat 50)).1))
unfolding ebookfs.Common.get
get_progress-put_progress_example =
    get_progress-put_progress map_shelf config smooth reader 77 page_nine arrived shelved
      page_nine_sent (pos 1) (first_sidecar (codes "abc")) (codes "abc") refl refl refl refl refl
      refl refl refl

abbrev stranger : Credentials
stranger = record { user = codes "reader"; key = [] }

put_progress_refused_example :
    KeepsUnless200 map_shelf config arrived shelved
      (put_progress map_shelf config smooth stranger 77 (some page_nine) arrived shelved)
    × ((authenticate config stranger ≡ true)
        ⊎ ((put_progress map_shelf config smooth stranger 77 (some page_nine) arrived shelved).0
            ≡ unauthorized))
put_progress_refused_example =
    put_progress_refused map_shelf config smooth stranger 77 (some page_nine) arrived shelved

arrive : Events fresh (on_ingested smooth fresh (pos 1))
unfolding ebookfs.Common.get
arrive = after fresh fresh _ (done fresh) (ingested smooth fresh (pos 1) refl)

ingested_position :
    get_progress config reader (on_ingested smooth fresh (pos 1)) (codes "abc")
    ≡ respond 200 (position (codes "abc") (first_sidecar (codes "abc")).progress)
unfolding ebookfs.Common.get get_progress on_ingested ebookfs.Kosync.Mapping.set_document put
ingested_position = refl

get_progress-Events_example :
    (book_id : ℤ) × (data' : SidecarData) × (sidecar_of (on_ingested smooth fresh (pos 1)) book_id
      ≡ some (holding data'))
    × (contains data'.document_ids (codes "abc") ≡ true)
    × (data'.progress ≡ (first_sidecar (codes "abc")).progress)
get_progress-Events_example =
    get_progress-Events config reader fresh (on_ingested smooth fresh (pos 1)) (codes "abc")
      (first_sidecar (codes "abc")).progress arrive fresh-IsBacked ingested_position

partial_md5_lem_example :
    partial_md5 (λ b. b) (reads_from (codes "hello")) 5
    ≡ some (
        pieces (codes "hello") (
          0 ∷ 1024 ∷ 4096 ∷ 16384 ∷ 65536 ∷ 262144 ∷ 1048576 ∷ 4194304 ∷ 16777216 ∷ 67108864
          ∷ 268435456 ∷ 1073741824 ∷ []))
partial_md5_lem_example = partial_md5_lem (λ b. b) (codes "hello")
