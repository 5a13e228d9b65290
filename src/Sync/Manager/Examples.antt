-- ===== src/Sync/Manager/Examples.antt =====
-- The calls of src/domain/ctxsync/sync.go at concrete inputs.
use agent_collab.Common.{
  ℕ, String, ◌≡◌, ◌↔◌, refl, true, none, some, List, [], ◌∷◌, In, arith, length, eq_iff,
}
use agent_collab.Common.Dict.{lookup, insert, delete}
use agent_collab.Sync.Clock.{
  VectorClock, time_of, increment, merge_entry, merge, flags, compare, happens_before,
  happens_after, is_concurrent,
}
use agent_collab.Sync.Clock.Order.{Leq}
use agent_collab.Sync.Delta.{
  Delta, empty_payload, new_delta_log, get, get_by_source, without_first, set_source, evict_oldest,
  append, get_since, new_delta, new_file_change_delta, new_agent_status_delta,
}
use agent_collab.Sync.Delta.Log.{IsLog}
use agent_collab.Sync.Manager.{
  SyncManager, PeerState, FileChange, modified, new_sync_manager, set_callbacks, broadcast,
  local_delta, handle_local_change, clashes, detect_conflicts, notify_conflicts, update_peer_state,
  receive_delta, check_peer, check_peer_health, request_sync, handle_sync_request,
  broadcast_heartbeat,
}
use agent_collab.Sync.Manager.Causality
use agent_collab.Sync.Manager.Causality.{IsCausal}
use agent_collab.Sync.Manager.Run
use agent_collab.Sync.Manager.Run.{Event, changes, hears, beats, run, perform}
use agent_collab.Sync.Manager.Conflicts

program : Unit {0}
unfolding lookup insert delete time_of increment merge_entry merge flags compare happens_before
    happens_after is_concurrent new_delta_log get get_by_source without_first set_source
    evict_oldest append get_since new_delta new_file_change_delta new_agent_status_delta
    new_sync_manager set_callbacks broadcast local_delta handle_local_change clashes
    detect_conflicts notify_conflicts update_peer_state receive_delta check_peer check_peer_health
    request_sync handle_sync_request broadcast_heartbeat run perform
program = tt

abbrev delta_of : String → String → VectorClock → Delta
delta_of id source vc = record {
  id = id;
  kind = "file_change";
  source_id = source;
  source_name = source;
  vector_clock = vc;
  timestamp = 5;
  payload = record empty_payload { file_path = "a.go" };
}

abbrev remote : Delta
remote = delta_of "delta-r" "b" (("b", 1) ∷ [])

abbrev edit : FileChange
edit = record { file_path = "a.go"; kind = modified; diff = none }

abbrev start : SyncManager
start = set_callbacks (new_sync_manager "a" "ann") (some (λ d. none)) (some (λ c. none))

start-IsCausal : IsCausal start
start-IsCausal = Run.new_sync_manager-IsCausal "a" "ann" (some (λ d. none)) (some (λ c. none))

abbrev events : List (ℕ × Event)
events = (1, changes edit "delta-l") ∷ (2, hears remote) ∷ (3, beats "delta-h") ∷ []

ending_clock : (run start events).vector_clock ≡ ("a", 2) ∷ ("b", 1) ∷ []
unfolding program
ending_clock = refl

run-IsCausal_example :
    IsCausal (run start events) × Leq start.vector_clock (run start events).vector_clock
unfolding program
run-IsCausal_example =
    Run.run-IsCausal start events (omega arith, (((refl, tt), omega arith), (tt, tt)))
      start-IsCausal

-- The manager after its own change.
abbrev edited : SyncManager
unfolding program
edited = (handle_local_change start edit "delta-l" 1).0

edited-IsLog : IsLog edited.delta_log
unfolding program
edited-IsLog =
    (Run.run-IsCausal start ((1, changes edit "delta-l") ∷ []) (omega arith, tt)
      start-IsCausal).0.log

abbrev second_edit : Delta
second_edit = new_file_change_delta "a" "ann" (("a", 2) ∷ []) "a.go" none "delta-2" 2

handle_local_change-after_example :
    ((handle_local_change edited edit "delta-2" 2).0.delta_log
      ≡ append second_edit edited.delta_log)
    × ((x : Delta)
        → In x edited.delta_log.deltas
        → happens_before x.vector_clock second_edit.vector_clock ≡ true)
unfolding program
handle_local_change-after_example =
    Causality.handle_local_change-after edited edit "delta-2" 2 second_edit
      ((Run.run-IsCausal start ((1, changes edit "delta-l") ∷ []) (omega arith, tt)
        start-IsCausal).0)
      (omega arith) refl

heard : SyncManager
unfolding program
heard = (receive_delta edited remote 2).0

receive_delta-after_example :
    (happens_before remote.vector_clock heard.vector_clock ≡ true)
    × (happens_before edited.vector_clock heard.vector_clock ≡ true)
    × (heard.delta_log ≡ append remote edited.delta_log)
unfolding program heard
receive_delta-after_example =
    Causality.receive_delta-after edited heard remote 2 (refl, tt) (omega arith) refl refl

one_conflict : length (detect_conflicts edited remote 2) ≡ 1
unfolding program
one_conflict = refl

detect_conflicts_iff_example :
    In
      (record {
        file_path = "a.go";
        local_delta = new_file_change_delta "a" "ann" (("a", 1) ∷ []) "a.go" none "delta-l" 1;
        remote_delta = remote;
        detected_at = 2;
      })
      (detect_conflicts edited remote 2)
    ↔ (In
          (new_file_change_delta "a" "ann" (("a", 1) ∷ []) "a.go" none "delta-l" 1)
          edited.delta_log.deltas
        × ("a" ≡ edited.node_id)
        × ("file_change" ≡ remote.kind)
        × ("a.go" ≡ remote.payload.file_path)
        × (is_concurrent (("a", 1) ∷ []) remote.vector_clock ≡ true))
unfolding program
detect_conflicts_iff_example =
    Conflicts.detect_conflicts_iff edited remote
      (new_file_change_delta "a" "ann" (("a", 1) ∷ []) "a.go" none "delta-l" 1) 2 edited-IsLog refl
      (λ e. ground (arith, eq_iff "a.go" ""))

abbrev strict : SyncManager
strict = record edited { on_conflict = some (λ c. some "stop") }

abbrev quiet : PeerState
quiet = record {
  id = "b";
  name = "b";
  vector_clock = ("b", 1) ∷ [];
  last_seen = 2;
  is_online = true;
}
