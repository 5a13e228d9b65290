-- ===== src/Events/Log/Examples.antt =====
-- Tests of src/domain/event/eventlog.go, and its theorems at concrete inputs.
use agent_collab.Common.{
  ℕ, ◌+◌, ◌-◌, ◌≤◌, String, ◌≡◌, refl, ◌&&◌, if◌then◌else◌, ◌==◌, str_eq, some, List, [], ◌∷◌,
  length, drop, keep,
}
use agent_collab.Common.Dict.{lookup, insert, delete, has}
use agent_collab.Events.{Event, file_change, is_expired, mark_completed, new_event}
use agent_collab.Events.Log.{
  EventLog, EventLogConfig, new_event_log, listed, push, remove_first, has_event,
  remove_from_type_index, remove_from_index, remove_from_source_index, remove_from_file_index,
  remove_from_indexes, remove_oldest, enforce_rounds, enforce_size_limit, archive_all,
  compact_file_events, append, should_keep, compact_events, compact, clear, complete_all,
  mark_file_events_completed, get, get_by_type, get_by_source, get_by_file, get_latest_by_file,
  latest_of, get_recent, size, filter_active, is_active,
}
use agent_collab.Events.Log.Views.{search, Unique, IsEventLog}
use agent_collab.Events.Log.Steps.{append-IsEventLog}
use agent_collab.Events.Log.Runs
use agent_collab.Events.Log.Runs.{Action, appends, compacts, completes, clears, run}

program : Unit {0}
unfolding lookup insert delete has new_event is_expired mark_completed new_event_log listed push
    remove_first has_event remove_from_type_index remove_from_index remove_from_source_index
    remove_from_file_index remove_from_indexes remove_oldest enforce_rounds enforce_size_limit
    archive_all compact_file_events append should_keep compact_events compact clear complete_all
    mark_file_events_completed get get_by_type get_by_source get_by_file get_latest_by_file
    latest_of get_recent size filter_active is_active search run
program = tt

abbrev event_of : String → String → String → ℕ → Event
event_of id source path now = record (new_event file_change source source id now) {
  file_path = path;
  expires_at = now + 10;
}

abbrev heap : ℕ → Event
heap r =
    if r == 0
    then event_of "e0" "ann" "a.go" 1
    else if r == 1
    then event_of "e1" "bob" "a.go" 2
    else if r == 2
    then event_of "e2" "ann" "b.go" 3
    else event_of "e3" "ann" "a.go" 4

-- Room for three events, and for one of each file.
abbrev config : EventLogConfig
config = record { max_size = 3; event_ttl = 10; compact_interval = 0; max_events_per_file = 1 }

abbrev acts : List (ℕ × Action)
acts = (1, appends 0) ∷ (2, appends 1) ∷ (3, appends 2) ∷ (4, appends 2) ∷ (5, appends 3) ∷ []

abbrev used : EventLog
used = run (new_event_log heap (some config)) acts

newest_three : used.events ≡ 1 ∷ 2 ∷ 3 ∷ []
unfolding program
newest_three = refl

-- The second event of a file archives the first.
of_ann : (get_by_source used "ann" 5 ≡ 2 ∷ 3 ∷ []) × (get_by_source used "bob" 5 ≡ [])
unfolding program
of_ann = (refl, refl)

latest : (get_latest_by_file used "a.go" ≡ some 3) × ((compact used 5).events ≡ 2 ∷ 3 ∷ [])
unfolding program
latest = (refl, refl)

run-Reads_example :
    (length used.events ≤ used.config.max_size)
    × Unique used.heap used.events
    × ((i : String) → get used i ≡ search used.heap i used.events)
    × ((k : String) (now : ℕ)
        → get_by_type used k now
          ≡ keep (λ r. str_eq (used.heap r).kind k && is_active (used.heap r) now) used.events)
    × ((k : String) (now : ℕ)
        → get_by_source used k now
          ≡ keep (λ r. str_eq (used.heap r).source_id k && is_active (used.heap r) now) used.events)
run-Reads_example = Runs.run-Reads heap (some config) acts

abbrev two : EventLog
two = append (append (new_event_log heap (some config)) 0) 2

two-IsEventLog : IsEventLog two
two-IsEventLog = append-IsEventLog (append (new_event_log heap (some config)) 0) 2 (
    append-IsEventLog (new_event_log heap (some config)) 0 (
      unfold program in
      record { unique = tt; ids = λ i. refl; kinds = λ k. refl; sources = λ k. refl }))

compact-Reads_example :
    ((k : String) → get_by_type (compact two 12) k 12 ≡ get_by_type two k 12)
    × ((k : String) → get_by_source (compact two 12) k 12 ≡ get_by_source two k 12)
    × ((n : ℕ) → get_recent (compact two 12) n 12 ≡ get_recent two n 12)
    × (size (compact two 12) 12 ≡ size two 12)
compact-Reads_example = Runs.compact-Reads two 12 two-IsEventLog

enforce_size_limit-events_example :
    let el = record two { events = 0 ∷ 1 ∷ 2 ∷ 3 ∷ [] } in
    ((enforce_size_limit el).events ≡ drop (length el.events - el.config.max_size) el.events)
    × (length (enforce_size_limit el).events ≤ el.config.max_size)
enforce_size_limit-events_example =
    Runs.enforce_size_limit-events (record two { events = 0 ∷ 1 ∷ 2 ∷ 3 ∷ [] })
