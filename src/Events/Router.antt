-- ===== src/Events/Router.antt =====
-- src/domain/event/router.go. A subscription is a channel of a hundred places; `queue` is what waits in
-- it. The events that were broadcast are collected, if a broadcast function is set. The store of
-- vectors and the encoding of events are left out. `covers` and `dir_of` are those of the interests.
pub mod Delivery
pub mod Queries
mod Examples
use agent_collab.Common.{
  ℕ, ◌+◌, ◌*◌, String, Bool, true, false, not, ◌&&◌, ◌||◌, if◌then◌else◌, ltb, leb, ◌==◌, str_eq,
  Option, none, some, List, [], ◌∷◌, ◌++◌, length, take, keep, some_of, map,
}
use agent_collab.Common.Dict.{Dict, lookup, insert, delete, keys}
use agent_collab.Events.{Event, lock_acquired, lock_released, lock_conflict, default_event_ttl}
use agent_collab.Events.Log.{EventLog, EventLogConfig, new_event_log, append, get_recent}
use agent_collab.Interests.{
  Interest, InterestLevel, level_all, level_direct, level_locks_only, level_none, InterestMatch,
  Manager, match_path, get_agent_interests, is_member,
}

pub record Channel : Type 0 where
  pub queue : List ℕ

pub record Router : Type 0 where
  pub interests : Manager
  pub event_log : EventLog
  pub subscribers : Dict (List Channel)
  pub broadcasts : Bool
  pub outbox : List ℕ
  pub node_id : String
  pub node_name : String

pub record RouterConfig : Type 0 where
  pub node_id : String
  pub node_name : String
  pub max_events : ℕ
  pub event_ttl : ℕ

abbrev pub default_router_config : RouterConfig
default_router_config = record {
  node_id = "";
  node_name = "";
  max_events = 10000;
  event_ttl = default_event_ttl;
}

-- The log's limit for a file stays 0.
unfoldable pub new_router : (ℕ → Event) → Manager → Option RouterConfig → Router
unfolding new_event_log
new_router heap interests cfg =
    let c : RouterConfig = elim cfg [ none ↦ default_router_config | some c ↦ c ] in
    record {
      interests = interests;
      event_log = new_event_log heap (
          some (record {
            max_size = c.max_events;
            event_ttl = c.event_ttl;
            compact_interval = 300 * 1_000_000_000;
            max_events_per_file = 0;
          }));
      subscribers = [];
      broadcasts = false;
      outbox = [];
      node_id = c.node_id;
      node_name = c.node_name;
    }

unfoldable pub is_lock_event : String → Bool
is_lock_event t = str_eq t lock_acquired || str_eq t lock_released || str_eq t lock_conflict

unfoldable pub should_notify : Interest → Event → Bool
unfolding is_lock_event
should_notify i e = elim (i.level) [
  | level_none ↦ false
  | level_locks_only ↦ is_lock_event e.kind
  | level_all ↦ true
  | level_direct ↦ true
]

-- `targets[agent] = struct{}{}` for the matches that are notified.
unfoldable pub add_targets : Event → List InterestMatch → List String → List String
unfolding should_notify is_member
add_targets e [] targets = targets
add_targets e (f ∷ rest) targets = add_targets e rest (
    if should_notify f.interest e && not (is_member f.interest.agent_id targets)
    then targets ++ f.interest.agent_id ∷ []
    else targets)

-- A channel that is full is skipped.
unfoldable pub offer : ℕ → Channel → Channel
offer r c = if ltb (length c.queue) 100 then record { queue = c.queue ++ r ∷ [] } else c

unfoldable pub notify_subscribers : ℕ → List String → Dict (List Channel) → Dict (List Channel)
unfolding offer
notify_subscribers r [] subs = subs
notify_subscribers r (agent ∷ agents) subs = elim (lookup agent subs) [
  | none ↦ notify_subscribers r agents subs
  | some channels ↦ notify_subscribers r agents (insert agent (map (offer r) channels) subs)
]

unfoldable pub subscribe : Router → String → Router
subscribe ro agent =
    let channels : List Channel = elim (lookup agent ro.subscribers) [ none ↦ [] | some cs ↦ cs ] in
    record ro { subscribers = insert agent (channels ++ record { queue = [] } ∷ []) ro.subscribers }

unfoldable pub unsubscribe : Router → String → Router
unsubscribe ro agent = record ro { subscribers = delete agent ro.subscribers }

pub record EventFilter : Type 0 where
  pub types : List String
  pub since : ℕ
  pub file_path : String
  pub source_id : String
  pub limit : ℕ
  pub include_all : Bool

abbrev pub default_event_filter : EventFilter
default_event_filter = record {
  types = [];
  since = 0;
  file_path = "";
  source_id = "";
  limit = 50;
  include_all = false;
}

unfoldable pub passes_type_filter : Event → List String → Bool
passes_type_filter e types =
    if length types == 0 then true else some_of (λ t. str_eq e.kind t) types

unfoldable pub passes_time_filter : Event → ℕ → Bool
passes_time_filter e since = if since == 0 then true else not (ltb e.timestamp since)

unfoldable pub passes_file_path_filter : Event → String → Bool
passes_file_path_filter e path = if str_eq path "" then true else str_eq e.file_path path

unfoldable pub passes_source_filter : Event → String → Bool
passes_source_filter e source = if str_eq source "" then true else str_eq e.source_id source

unfoldable pub passes_filters : Event → EventFilter → Bool
unfolding passes_type_filter passes_time_filter passes_file_path_filter passes_source_filter
passes_filters e filter =
    if not (passes_type_filter e filter.types)
    then false
    else if not (passes_time_filter e filter.since)
    then false
    else if not (passes_file_path_filter e filter.file_path)
    then false
    else if not (passes_source_filter e filter.source_id)
    then false
    else true

unfoldable pub apply_filters : (ℕ → Event) → List ℕ → EventFilter → List ℕ
unfolding passes_filters
apply_filters heap rs filter = keep (λ r. passes_filters (heap r) filter) rs

unfoldable pub apply_limit : List ℕ → ℕ → List ℕ
apply_limit rs limit = if limit == 0 || leb (length rs) limit then rs else take limit rs

module _ (covers : (pattern path : String) → Bool) (dir_of : String → String) where
  unfoldable pub collect_notify_targets : Router → Event → ℕ → List String
  unfolding add_targets
  collect_notify_targets ro e now =
      if str_eq e.file_path ""
      then keys ro.subscribers
      else add_targets e (match_path covers dir_of ro.interests e.file_path now) []

  -- `PublishLocal`, and `routeToSubscribers` within it.
  unfoldable pub publish_local : Router → ℕ → ℕ → Router
  unfolding collect_notify_targets notify_subscribers
  publish_local ro r now =
      let e = ro.event_log.heap r in
      record ro {
        event_log = append ro.event_log r;
        subscribers = notify_subscribers r (collect_notify_targets ro e now) ro.subscribers;
      }

  unfoldable pub publish : Router → ℕ → ℕ → Router
  unfolding publish_local
  publish ro r now =
      let ro' = publish_local ro r now in
      if ro'.broadcasts then record ro' { outbox = ro'.outbox ++ r ∷ [] } else ro'

  unfoldable pub matches_any_interest : Manager → Event → List Interest → ℕ → Bool
  matches_any_interest m e interests now =
      if str_eq e.file_path ""
      then true
      else some_of
          (λ (f : InterestMatch). some_of (λ (i : Interest). str_eq f.interest.id i.id) interests)
          (match_path covers dir_of m e.file_path now)

  unfoldable pub filter_by_interests : Manager → (ℕ → Event) → List ℕ → List Interest → ℕ → List ℕ
  unfolding matches_any_interest
  filter_by_interests m heap rs interests now =
      if length interests == 0
      then []
      else keep (λ r. matches_any_interest m (heap r) interests now) rs

  unfoldable pub get_events : Router → String → Option EventFilter → ℕ → List ℕ
  unfolding filter_by_interests apply_filters apply_limit
  get_events ro agent filter now =
      let f : EventFilter = elim filter [ none ↦ default_event_filter | some f ↦ f ] in
      let recent = get_recent ro.event_log (f.limit * 2) now in
      let heap = ro.event_log.heap in
      let found =
        if f.include_all
        then recent
        else filter_by_interests ro.interests heap recent (get_agent_interests ro.interests agent)
            now in
      apply_limit (apply_filters heap found f) f.limit
