-- ===== src/Events/Router/Examples.antt =====
-- Tests of src/domain/event/router.go, and its theorems at concrete inputs.
use agent_collab.Common.{
  ℕ, ◌-◌, ◌*◌, ◌≤◌, ◌<◌, String, ◌≡◌, refl, ◌⊎◌, Bool, true, false, ◌&&◌, ◌||◌, if◌then◌else◌, ◌==◌,
  str_eq, none, some, [], ◌∷◌, map, keep, take, drop, length, some_of, In, arith,
}
use agent_collab.Common.Dict.{lookup, insert, delete, has, values}
use agent_collab.Events.{Event, file_change, is_expired, new_event}
use agent_collab.Events.Log.{
  listed, push, remove_first, has_event, enforce_rounds, enforce_size_limit, compact_file_events,
  append, new_event_log, get_recent, filter_active, is_active,
}
use agent_collab.Interests.{
  Interest, Manager, level_all, is_expired as has_run_out, ids_of, is_member, found_among,
  get_agent_interests, first_pattern, match_patterns, match_proximity, match_one, match_each,
  match_path,
}
use agent_collab.Interests.Matching.{hears}
use agent_collab.Events.Router.{
  Router, new_router, is_lock_event, should_notify, add_targets, offer, notify_subscribers,
  subscribe, unsubscribe, passes_type_filter, passes_time_filter, passes_file_path_filter,
  passes_source_filter, passes_filters, apply_filters, apply_limit, collect_notify_targets,
  publish_local, publish, matches_any_interest, filter_by_interests, get_events,
  default_event_filter,
}
use agent_collab.Events.Router.Delivery
use agent_collab.Events.Router.Queries
use agent_collab.Events.Router.Queries.{no_filter}

program : Unit {0}
unfolding lookup insert delete has is_expired has_run_out new_event listed push remove_first
    has_event enforce_rounds enforce_size_limit compact_file_events append new_event_log get_recent
    filter_active is_active ids_of is_member found_among get_agent_interests first_pattern
    match_patterns match_proximity match_one match_each match_path new_router is_lock_event
    should_notify add_targets offer notify_subscribers subscribe unsubscribe passes_type_filter
    passes_time_filter passes_file_path_filter passes_source_filter passes_filters apply_filters
    apply_limit collect_notify_targets publish_local publish matches_any_interest
    filter_by_interests get_events
program = tt

-- For the tests, a pattern matches itself, and each path is its own directory.
covers : String → String → Bool
covers pattern path = str_eq pattern path

dir_of : String → String
dir_of path = path

abbrev heap : ℕ → Event
heap r =
    if r == 0
    then record (new_event file_change "ann" "ann" "e0" 1) { file_path = "a.go" }
    else if r == 1
    then record (new_event file_change "ann" "ann" "e1" 2) { file_path = "b.go" }
    else new_event file_change "ann" "ann" "e2" 3

abbrev manager : Manager
manager = record {
  interests =
      (
        "i1",
        record {
          id = "i1";
          agent_id = "bob";
          agent_name = "bob";
          patterns = "a.go" ∷ [];
          track_dependencies = false;
          level = level_all;
          expires_at = 0;
          created_at = 0;
          remote = false;
          node_id = "";
        },
      )
      ∷ [];
  by_agent = ("bob", "i1" ∷ []) ∷ [];
  pattern_cache = ("i1", "a.go" ∷ []) ∷ [];
  changes = [];
}

abbrev start : Router
start = subscribe (subscribe (new_router heap manager none) "bob") "eve"

abbrev used : Router
used = publish covers dir_of (publish covers dir_of (publish covers dir_of start 0 1) 1 2) 2 3

-- Bob gets the event of a.go and the one without a path; Eve the latter only.
delivered :
    (lookup "bob" used.subscribers ≡ some (record { queue = 0 ∷ 2 ∷ [] } ∷ []))
    × (lookup "eve" used.subscribers ≡ some (record { queue = 2 ∷ [] } ∷ []))
unfolding program covers dir_of
delivered = (refl, refl)

asked : get_events covers dir_of used "bob" none 4 ≡ 0 ∷ 2 ∷ []
unfolding program covers dir_of
asked = refl

publish_local-subscribers_example :
    lookup "bob" (publish_local covers dir_of start 0 1).subscribers
    ≡ some (
        if str_eq (heap 0).file_path ""
          || some_of
              (λ (i : Interest). should_notify i (heap 0) && str_eq i.agent_id "bob")
              (keep (hears covers dir_of (heap 0).file_path 1) (values manager.interests))
        then map (offer 0) (record { queue = [] } ∷ [])
        else record { queue = [] } ∷ [])
unfolding program
publish_local-subscribers_example =
    Delivery.publish_local-subscribers covers dir_of start 0 1 "bob" (record { queue = [] } ∷ [])
      (refl, (refl, tt)) refl

get_events_sound_example :
    ((r : ℕ)
      → In r (get_events covers dir_of used "bob" (some default_event_filter) 4)
      → In r used.event_log.events
        × (is_active (used.event_log.heap r) 4 ≡ true)
        × (passes_filters (used.event_log.heap r) default_event_filter ≡ true)
        × ((default_event_filter.include_all ≡ true)
            ⊎ (matches_any_interest covers dir_of used.interests
                  (used.event_log.heap r)
                  (get_agent_interests used.interests "bob")
                  4
                ≡ true)))
    × (0 < default_event_filter.limit
        → length (get_events covers dir_of used "bob" (some default_event_filter) 4)
          ≤ default_event_filter.limit)
get_events_sound_example = Queries.get_events_sound covers dir_of used "bob" default_event_filter 4

-- Of three events and a limit of one, the middle one.
get_events_older_half_example :
    get_events covers dir_of used "bob" (some (no_filter 1)) 4
    ≡ take 1 (
        drop
          (length (filter_active used.event_log used.event_log.events 4) - 1 * 2)
          (filter_active used.event_log used.event_log.events 4))
unfolding program covers dir_of
get_events_older_half_example =
    Queries.get_events_older_half covers dir_of used "bob" 1 4 (omega arith) (omega arith)

middle : get_events covers dir_of used "bob" (some (no_filter 1)) 4 ≡ 1 ∷ []
unfolding program covers dir_of
middle = refl
