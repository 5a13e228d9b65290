-- ===== src/Events/Log.antt =====
-- src/domain/event/eventlog.go. The log and its indexes hold pointers to events, whose status changes
-- through them, so events stand on a heap, and `r` is an address. The limits are whole numbers: the
-- code takes a negative one as 0. Each call is one step under the mutex; the ticker is left out.
pub mod Index
pub mod Views
pub mod Writes
pub mod Steps
pub mod Runs
mod Examples
use agent_collab.Common.{
  ℕ, zero, suc, ◌+◌, ◌-◌, ◌*◌, String, Bool, true, false, not, ◌&&◌, ◌||◌, if◌then◌else◌, ltb, leb,
  ◌==◌, str_eq, Option, none, some, List, [], ◌∷◌, ◌++◌, length, take, drop, keep, some_of, reverse,
}
use agent_collab.Common.Dict.{Dict, lookup, insert, delete, has, keys}
use agent_collab.Events.{
  Event, EventStatus, active, completed, archived, is_expired, is_archived, mark_completed,
  default_event_ttl,
}

pub record EventLogConfig : Type 0 where
  pub max_size : ℕ
  pub event_ttl : ℕ
  pub compact_interval : ℕ
  pub max_events_per_file : ℕ

abbrev pub default_event_log_config : EventLogConfig
default_event_log_config = record {
  max_size = 10000;
  event_ttl = default_event_ttl;
  compact_interval = 300 * 1_000_000_000;
  max_events_per_file = 10;
}

pub record EventLog : Type 0 where
  pub heap : ℕ → Event
  pub config : EventLogConfig
  pub events : List ℕ
  pub by_id : Dict ℕ
  pub by_type : Dict (List ℕ)
  pub by_source : Dict (List ℕ)
  pub by_file : Dict (List ℕ)

unfoldable pub new_event_log : (ℕ → Event) → Option EventLogConfig → EventLog
new_event_log heap cfg =
    let config : EventLogConfig = elim cfg [ none ↦ default_event_log_config | some c ↦ c ] in
    record {
      heap = heap;
      config = record config { max_size = if config.max_size == 0 then 10000 else config.max_size };
      events = [];
      by_id = [];
      by_type = [];
      by_source = [];
      by_file = [];
    }

-- `m[k]` of a map of slices, and `m[k] = append(m[k], r)`.
unfoldable pub listed : String → Dict (List ℕ) → List ℕ
listed k m = elim (lookup k m) [ none ↦ [] | some rs ↦ rs ]

unfoldable pub push : String → ℕ → Dict (List ℕ) → Dict (List ℕ)
unfolding listed
push k r m = insert k (listed k m ++ r ∷ []) m

-- `append(events[:i], events[i+1:]...)` for the first event with the identifier.
unfoldable pub remove_first : (ℕ → Event) → String → List ℕ → List ℕ
remove_first heap id [] = []
remove_first heap id (r ∷ rs) = if str_eq (heap r).id id then rs else r ∷ remove_first heap id rs

unfoldable pub has_event : (ℕ → Event) → String → List ℕ → Bool
has_event heap id rs = some_of (λ r. str_eq (heap r).id id) rs

unfoldable pub remove_from_type_index : (ℕ → Event) → Event → Dict (List ℕ) → Dict (List ℕ)
unfolding remove_first has_event listed
remove_from_type_index heap e m =
    if has_event heap e.id (listed e.kind m)
    then insert e.kind (remove_first heap e.id (listed e.kind m)) m
    else m

-- The source's and the file's index drop a key that has no event left.
unfoldable pub remove_from_index : (ℕ → Event) → String → String → Dict (List ℕ) → Dict (List ℕ)
unfolding remove_first has_event listed
remove_from_index heap key id m =
    let rest = remove_first heap id (listed key m) in
    if has_event heap id (listed key m)
    then (if length rest == 0 then delete key m else insert key rest m)
    else m

unfoldable pub remove_from_source_index : (ℕ → Event) → Event → Dict (List ℕ) → Dict (List ℕ)
unfolding remove_from_index
remove_from_source_index heap e m = remove_from_index heap e.source_id e.id m

unfoldable pub remove_from_file_index : (ℕ → Event) → Event → Dict (List ℕ) → Dict (List ℕ)
unfolding remove_from_index
remove_from_file_index heap e m =
    if str_eq e.file_path "" then m else remove_from_index heap e.file_path e.id m

unfoldable pub remove_from_indexes : EventLog → Event → EventLog
unfolding remove_from_type_index remove_from_source_index remove_from_file_index
remove_from_indexes el e = record el {
  by_id = delete e.id el.by_id;
  by_type = remove_from_type_index el.heap e el.by_type;
  by_source = remove_from_source_index el.heap e el.by_source;
  by_file = remove_from_file_index el.heap e el.by_file;
}

unfoldable pub remove_oldest : EventLog → EventLog
unfolding remove_from_indexes
remove_oldest el = elim (el.events) [
  | [] ↦ el
  | oldest ∷ rest ↦ remove_from_indexes (record el { events = rest }) (el.heap oldest)
]

-- `for len(el.events) > el.config.MaxSize`, with the rounds that are left.
unfoldable pub enforce_rounds : ℕ → EventLog → EventLog
unfolding remove_oldest
enforce_rounds zero el = el
enforce_rounds (suc n) el =
    let rest = enforce_rounds n (remove_oldest el) in
    if ltb el.config.max_size (length el.events) then rest else el

unfoldable pub enforce_size_limit : EventLog → EventLog
unfolding enforce_rounds
enforce_size_limit el = enforce_rounds (length el.events) el

-- Writes through the pointers.
unfoldable pub archive_all : String → List ℕ → (ℕ → Event) → ℕ → Event
archive_all newest [] heap = heap
archive_all newest (r ∷ rs) heap =
    archive_all newest rs (λ q.
      if q == r then record (heap r) { status = archived; superseded_by = newest } else heap q)

abbrev pub last_of : List ℕ → Option ℕ
last_of [] = none
last_of (r ∷ []) = some r
last_of (r ∷ q ∷ rs) = last_of (q ∷ rs)

abbrev pub id_of : (ℕ → Event) → Option ℕ → String
id_of heap none = ""
id_of heap (some r) = (heap r).id

unfoldable pub compact_file_events : EventLog → String → EventLog
unfolding archive_all listed
compact_file_events el path =
    let file_events = listed path el.by_file in
    let limit = el.config.max_events_per_file in
    if limit == 0 || leb (length file_events) limit then el else record el {
      heap =
          archive_all (id_of el.heap (last_of file_events))
            (take (length file_events - limit) file_events) el.heap;
      by_file = insert path (drop (length file_events - limit) file_events) el.by_file;
    }

unfoldable pub append : EventLog → ℕ → EventLog
unfolding compact_file_events enforce_size_limit push
append el r =
    let e = el.heap r in
    let entered = record el {
      events = el.events ++ r ∷ [];
      by_id = insert e.id r el.by_id;
      by_type = push e.kind r el.by_type;
      by_source = push e.source_id r el.by_source;
    } in
    if has e.id el.by_id
    then el
    else enforce_size_limit (
        if str_eq e.file_path ""
        then entered
        else compact_file_events (record entered { by_file = push e.file_path r entered.by_file })
            e.file_path)

unfoldable pub should_keep : Event → ℕ → Bool
should_keep e now = if is_expired e now then false else if is_archived e then false else true

-- The range loop of `Compact` over the events, which leaves those that are kept.
unfoldable pub compact_events : List ℕ → ℕ → EventLog → EventLog × List ℕ
unfolding remove_from_indexes should_keep
compact_events [] now el = (el, [])
compact_events (r ∷ rs) now el =
    let keeps = should_keep (el.heap r) now in
    let rest = compact_events rs now (if keeps then el else remove_from_indexes el (el.heap r)) in
    if keeps then (rest.0, r ∷ rest.1) else rest

unfoldable pub compact : EventLog → ℕ → EventLog
unfolding compact_events
compact el now =
    let (el', active_events) = compact_events el.events now el in
    record el' { events = active_events }

unfoldable pub get : EventLog → String → Option ℕ
get el id = lookup id el.by_id

unfoldable pub is_active : Event → ℕ → Bool
is_active e now = not (is_archived e) && not (is_expired e now)

unfoldable pub filter_active : EventLog → List ℕ → ℕ → List ℕ
unfolding is_active
filter_active el rs now = keep (λ r. is_active (el.heap r) now) rs

unfoldable pub get_by_type : EventLog → String → ℕ → List ℕ
unfolding filter_active listed
get_by_type el kind now = filter_active el (listed kind el.by_type) now

unfoldable pub get_by_source : EventLog → String → ℕ → List ℕ
unfolding filter_active listed
get_by_source el source now = filter_active el (listed source el.by_source) now

unfoldable pub get_by_file : EventLog → String → ℕ → List ℕ
unfolding filter_active listed
get_by_file el path now = filter_active el (listed path el.by_file) now

-- The loop of `GetLatestByFile`, from the newest on.
unfoldable pub latest_of : (ℕ → Event) → List ℕ → Option ℕ
latest_of heap [] = none
latest_of heap (r ∷ rs) = if is_archived (heap r) then latest_of heap rs else some r

unfoldable pub get_latest_by_file : EventLog → String → Option ℕ
unfolding latest_of listed
get_latest_by_file el path = latest_of el.heap (reverse (listed path el.by_file))

unfoldable pub get_recent : EventLog → ℕ → ℕ → List ℕ
unfolding filter_active
get_recent el count now =
    let found = filter_active el el.events now in
    let n = if count == 0 || ltb (length found) count then length found else count in
    drop (length found - n) found

unfoldable pub get_since : EventLog → ℕ → List ℕ
get_since el since =
    keep (λ r. not (is_archived (el.heap r)) && leb since (el.heap r).timestamp) el.events

unfoldable pub size : EventLog → ℕ → ℕ
unfolding filter_active
size el now = length (filter_active el el.events now)

unfoldable pub total_size : EventLog → ℕ
total_size el = length el.events

unfoldable pub clear : EventLog → EventLog
clear el = record el { events = []; by_id = []; by_type = []; by_source = []; by_file = [] }

unfoldable pub complete_all : List ℕ → (ℕ → Event) → ℕ → Event
unfolding mark_completed
complete_all [] heap = heap
complete_all (r ∷ rs) heap =
    complete_all rs (λ q. if q == r then mark_completed (heap r) else heap q)

unfoldable pub mark_file_events_completed : EventLog → String → EventLog
unfolding complete_all listed
mark_file_events_completed el path = record el {
  heap = complete_all (listed path el.by_file) el.heap;
}

abbrev has_active : (ℕ → Event) → List ℕ → Bool
has_active heap rs =
    some_of (λ r. elim ((heap r).status) [ active ↦ true | completed ↦ false | archived ↦ false ])
      rs

unfoldable pub active_files : (ℕ → Event) → Dict (List ℕ) → List String
active_files heap [] = []
active_files heap ((path, rs) ∷ rest) =
    if has_active heap rs then path ∷ active_files heap rest else active_files heap rest

unfoldable pub get_active_files : EventLog → List String
unfolding active_files
get_active_files el = active_files el.heap el.by_file

pub record EventLogSummary : Type 0 where
  pub total_events : ℕ
  pub active_events : ℕ
  pub archived_events : ℕ
  pub unique_files : ℕ
  pub unique_sources : ℕ
  pub events_by_type : Dict ℕ

unfoldable pub count_types : (ℕ → Event) → List ℕ → Dict ℕ → Dict ℕ
count_types heap [] counts = counts
count_types heap (r ∷ rs) counts =
    let before : ℕ = elim (lookup (heap r).kind counts) [ none ↦ 0 | some n ↦ n ] in
    count_types heap rs (insert (heap r).kind (before + 1) counts)

unfoldable pub get_summary : EventLog → EventLogSummary
unfolding count_types
get_summary el = record {
  total_events = length el.events;
  active_events = length (keep (λ r. not (is_archived (el.heap r))) el.events);
  archived_events = length (keep (λ r. is_archived (el.heap r)) el.events);
  unique_files = length el.by_file;
  unique_sources = length el.by_source;
  events_by_type = count_types el.heap el.events [];
}
