-- ===== src/Views/Handles.antt =====
-- internal/fs/views/view_search.go and search_handle.go: the handles of search/, which a clone makes and a
-- sweep reclaims. A handle is told by its id; `views` are the handles whose results the registry follows,
-- and `listed` those that search/ shows. Times are numbers, and a limit of 0 is off.
pub mod Cap
pub mod Runs
pub mod Recent
pub mod Clones
use ebookfs.Common.{
  ℕ, suc, ◌+◌, ◌-◌, ◌==◌, Bool, not, ◌&&◌, List, [], ◌∷◌, ◌++◌, map, Option, none, some,
  if◌then◌else◌, ltb, leb, length, take, keep, contains, without, nat_comparable, Dict, get, put,
  delete, Text, codes, text_eq, format_nat,
}
use ebookfs.TextFmt.Query.{Query, QueryError, Parsed, parsed, rejected, parse_query}
use ebookfs.VFile.{clamp_read, Bytes}

pub record Handle : Type 0 where
  pub id : ℕ
  pub query_text : Text
  pub query : Option Query
  pub last_query : ℕ

pub record SearchDir : Type 0 where
  pub handles : List Handle
  pub next_id : ℕ
  pub ttl : ℕ
  pub max_handles : ℕ
  pub views : List ℕ
  pub listed : List ℕ

abbrev pub ids : List Handle → List ℕ
ids hs = map (λ h. h.id) hs

unfoldable pub new_search_dir : ℕ → ℕ → SearchDir
new_search_dir ttl max = record {
  handles = [];
  next_id = 1;
  ttl = ttl;
  max_handles = max;
  views = [];
  listed = [];
}

-- `removeHandleLocked`
abbrev pub remove_handle : SearchDir → ℕ → SearchDir
remove_handle d id =
    if contains (ids d.handles) id
    then record d {
      handles = keep (λ h. not (h.id == id)) d.handles;
      views = without d.views id;
      listed = without d.listed id;
    }
    else d

abbrev pub remove_handles : SearchDir → List Handle → SearchDir
remove_handles d [] = d
remove_handles d (h ∷ hs) = remove_handles (remove_handle d h.id) hs

-- `slices.SortFunc` by the last query
abbrev pub insert_by_query : Handle → List Handle → List Handle
insert_by_query h [] = h ∷ []
insert_by_query h (k ∷ ks) =
    if leb h.last_query k.last_query then h ∷ k ∷ ks else k ∷ insert_by_query h ks

abbrev pub sort_by_query : List Handle → List Handle
sort_by_query [] = []
sort_by_query (h ∷ hs) = insert_by_query h (sort_by_query hs)

-- the handles that have been idle for longer than the limit
abbrev pub expired : ℕ → ℕ → List Handle → List Handle
expired now ttl hs = keep (λ h. ltb ttl (now - h.last_query)) hs

unfoldable pub expire : SearchDir → ℕ → SearchDir
expire d now = if ltb 0 d.ttl then remove_handles d (expired now d.ttl d.handles) else d

-- the handles that a cap takes, the least recently queried first
abbrev pub surplus : SearchDir → ℕ → List Handle
surplus d headroom = take (length d.handles + headroom - d.max_handles) (sort_by_query d.handles)

unfoldable pub evict : SearchDir → ℕ → SearchDir
evict d headroom =
    if ltb 0 d.max_handles && ltb d.max_handles (length d.handles + headroom)
    then remove_handles d (surplus d headroom)
    else d

-- `cleanupLocked`
unfoldable pub cleanup : SearchDir → ℕ → ℕ → SearchDir
unfolding expire evict
cleanup d headroom now = evict (expire d now) headroom

-- `allocateHandle`, whose handle is the last
abbrev pub add_handle : SearchDir → ℕ → SearchDir
add_handle d now = record d {
  handles =
      d.handles ++ record { id = d.next_id; query_text = []; query = none; last_query = now } ∷ [];
  next_id = d.next_id + 1;
  views = d.views ++ d.next_id ∷ [];
  listed = d.listed ++ d.next_id ∷ [];
}

unfoldable pub allocate_handle : SearchDir → ℕ → SearchDir
unfolding cleanup
allocate_handle d now = add_handle (cleanup d 1 now) now

-- `executeSearch` on one handle
abbrev pub query_at : ℕ → Query → Text → ℕ → List Handle → List Handle
query_at id q text now [] = []
query_at id q text now (h ∷ hs) =
    (if h.id == id then record h { query_text = text; query = some q; last_query = now } else h)
    ∷ query_at id q text now hs

unfoldable pub execute_search : SearchDir → ℕ → Query → Text → ℕ → SearchDir
execute_search d id q text now = record d { handles = query_at id q text now d.handles }

-- `currentQueryText`, which the handle's ctl file reads
unfoldable pub current_query_text : List Handle → ℕ → Option Text
current_query_text [] id = none
current_query_text (h ∷ hs) id = if h.id == id then some h.query_text else current_query_text hs id

abbrev pub ctl_query : SearchDir → ℕ → ℕ → Text → Parsed → Option QueryError × SearchDir
ctl_query d id now s (rejected e) = (some e, d)
ctl_query d id now s (parsed q) = (none, execute_search d id q s now)

-- what a line that is written to a handle's ctl file does when the file is closed
unfoldable pub ctl_command : SearchDir → ℕ → ℕ → Text → Option QueryError × SearchDir
ctl_command d id now s =
    if text_eq s (codes "close")
    then (none, remove_handle d id)
    else ctl_query d id now s (parse_query s)

-- cloneFile: the handle of each open fid, 0 for one that has not been read
pub record CloneFile : Type 0 where
  pub fids : Dict ℕ ℕ

unfoldable pub clone_open : CloneFile → ℕ → CloneFile
clone_open f fid = elim (get f.fids fid) [
  | some id ↦ f
  | none ↦ record f { fids = put f.fids fid 0 }
]

unfoldable pub clone_close : CloneFile → ℕ → CloneFile
clone_close f fid = record f { fids = delete f.fids fid }

abbrev pub id_line : ℕ → Bytes
id_line id = format_nat id ++ 10 ∷ []

-- `none` is the error of a fid that is not open.
abbrev pub clone_read_at :
    CloneFile → SearchDir → ℕ → ℕ → ℕ → ℕ → Option ℕ → Option Bytes × CloneFile × SearchDir
clone_read_at f d fid offset count now none = (none, f, d)
clone_read_at f d fid offset count now (some id) =
    if id == 0
    then (
      some (clamp_read (id_line (cleanup d 1 now).next_id) offset count),
      record f { fids = put f.fids fid (cleanup d 1 now).next_id },
      allocate_handle d now,
    )
    else (some (clamp_read (id_line id) offset count), f, d)

unfoldable pub clone_read :
    CloneFile → SearchDir → ℕ → ℕ → ℕ → ℕ → Option Bytes × CloneFile × SearchDir
clone_read f d fid offset count now = clone_read_at f d fid offset count now (get f.fids fid)
