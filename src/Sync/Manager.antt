-- ===== src/Sync/Manager.antt =====
-- src/domain/ctxsync/sync.go: the manager of a node. The callbacks are arguments that return the
-- text of an error, if any; what is handed to the broadcast function is collected. The file watcher
-- calls `handle_local_change`, and the ticker the two steps of a heartbeat.
pub mod Causality
pub mod Run
pub mod Conflicts
pub mod Peers
mod Examples
use agent_collab.Common.{
  ℕ, ◌+◌, ◌*◌, ◌^◌, String, ◌<>◌, Bool, true, false, not, ◌&&◌, ◌||◌, if◌then◌else◌, ltb, str_eq,
  Option, none, some, List, [], ◌∷◌, ◌++◌, map, length, keep, ℤ, pos, Result, ok, err, ◌>>=◌,
}
use agent_collab.Common.Dict.{Dict, lookup, insert, values}
use agent_collab.Sync.Clock.{VectorClock, new_vector_clock, increment, merge, is_concurrent}
use agent_collab.Sync.Delta.{
  Delta, DeltaLog, FileDiff, empty_payload, new_delta, new_file_change_delta,
  new_agent_status_delta, new_delta_log, get, get_by_source, append, get_since, get_recent, size,
}

pub record PeerState : Type 0 where
  pub id : String
  pub name : String
  pub vector_clock : VectorClock
  pub last_seen : ℕ
  pub is_online : Bool

pub record Conflict : Type 0 where
  pub file_path : String
  pub local_delta : Delta
  pub remote_delta : Delta
  pub detected_at : ℕ

pub record SyncManager : Type 0 where
  pub node_id : String
  pub node_name : String
  pub vector_clock : VectorClock
  pub delta_log : DeltaLog
  pub peers : Dict PeerState
  pub broadcast_fn : Option (Delta → Option String)
  pub on_conflict : Option (Conflict → Option String)
  pub sent : List Delta

unfoldable pub new_sync_manager : String → String → SyncManager
unfolding new_delta_log
new_sync_manager node_id node_name = record {
  node_id = node_id;
  node_name = node_name;
  vector_clock = new_vector_clock;
  delta_log = new_delta_log (pos 1000);
  peers = [];
  broadcast_fn = none;
  on_conflict = none;
  sent = [];
}

-- `SetBroadcastFn` and `SetConflictHandler`.
unfoldable pub set_callbacks :
    SyncManager → Option (Delta → Option String) → Option (Conflict → Option String) → SyncManager
set_callbacks sm broadcast on_conflict = record sm {
  broadcast_fn = broadcast;
  on_conflict = on_conflict;
}

pub data ChangeType : Type 0 where
  created modified deleted : ChangeType
  other_change : String → ChangeType

-- `ast.FileChange`, which the watcher reports.
pub record FileChange : Type 0 where
  pub file_path : String
  pub kind : ChangeType
  pub diff : Option FileDiff

-- `broadcastFn(delta)`, if it is set.
unfoldable pub broadcast : SyncManager → Delta → SyncManager × Option String
broadcast sm d = elim (sm.broadcast_fn) [
  | none ↦ (sm, none)
  | some fn ↦ (record sm { sent = sm.sent ++ d ∷ [] }, fn d)
]

-- The delta of a change; `none` is the source's nil.
unfoldable pub local_delta :
    ChangeType → SyncManager → FileChange → VectorClock → (id : String) → (now : ℕ) → Option Delta
unfolding new_delta new_file_change_delta
local_delta modified sm change vc id now =
    some (new_file_change_delta sm.node_id sm.node_name vc change.file_path change.diff id now)
local_delta created sm change vc id now =
    some (new_file_change_delta sm.node_id sm.node_name vc change.file_path none id now)
local_delta deleted sm change vc id now =
    some (record (new_delta "file_change" sm.node_id sm.node_name vc id now) {
      payload = record empty_payload { file_path = change.file_path };
    })
local_delta (other_change kind) sm change vc id now = none

unfoldable pub handle_local_change :
    SyncManager → FileChange → (id : String) → (now : ℕ) → SyncManager × Option String
unfolding local_delta broadcast
handle_local_change sm change id now =
    let vc = increment sm.node_id sm.vector_clock in
    let ticked = record sm { vector_clock = vc } in
    elim (local_delta change.kind sm change vc id now) [
      | none ↦ (ticked, none)
      | some d ↦ broadcast (record ticked { delta_log = append d sm.delta_log }) d
    ]

-- The test of the loop of `detectConflicts`.
unfoldable pub clashes : Delta → Delta → Bool
clashes remote l =
    str_eq l.kind "file_change"
    && (str_eq l.payload.file_path remote.payload.file_path
        && is_concurrent l.vector_clock remote.vector_clock)

unfoldable pub detect_conflicts : SyncManager → Delta → ℕ → List Conflict
unfolding clashes
detect_conflicts sm remote now =
    if not (str_eq remote.kind "file_change") || str_eq remote.payload.file_path ""
    then []
    else map
        (λ l. record {
          file_path = remote.payload.file_path;
          local_delta = l;
          remote_delta = remote;
          detected_at = now;
        })
        (keep (clashes remote) (get_by_source sm.delta_log sm.node_id))

-- The handler is called for one conflict after another, until it fails.
unfoldable pub notify_conflicts : Option (Conflict → Option String) → List Conflict → Option String
notify_conflicts none cs = none
notify_conflicts (some handler) [] = none
notify_conflicts (some handler) (c ∷ cs) =
    let rest = notify_conflicts (some handler) cs in
    elim (handler c) [ some e ↦ some ("conflict handler failed: " <> e) | none ↦ rest ]

unfoldable pub update_peer_state :
    Dict PeerState → String → String → VectorClock → ℕ → Dict PeerState
update_peer_state peers id name vc now =
    let known : PeerState = elim (lookup id peers) [
      | some p ↦ p
      | none ↦ record { id = id; name = name; vector_clock = []; last_seen = 0; is_online = false }
    ] in
    insert id (record known { vector_clock = vc; last_seen = now; is_online = true }) peers

unfoldable pub receive_delta : SyncManager → Delta → ℕ → SyncManager × Option String
unfolding notify_conflicts update_peer_state
receive_delta sm d now = elim (get sm.delta_log d.id) [
  | some _ ↦ (sm, none)
  | none ↦ elim (notify_conflicts sm.on_conflict (detect_conflicts sm d now)) [
    | some e ↦ (sm, some e)
    | none ↦ (
      record sm {
        vector_clock = increment sm.node_id (merge sm.vector_clock d.vector_clock);
        delta_log = append d sm.delta_log;
        peers = update_peer_state sm.peers d.source_id d.source_name d.vector_clock now;
      },
      none,
    )
  ]
]

abbrev pub peer_timeout : ℕ
peer_timeout = 30 * 10 ^ 9

unfoldable pub check_peer : ℕ → PeerState → PeerState
check_peer now p =
    if ltb (p.last_seen + peer_timeout) now then record p { is_online = false } else p

abbrev pub check_peers : ℕ → Dict PeerState → Dict PeerState
check_peers now [] = []
check_peers now ((id, p) ∷ ps) = (id, check_peer now p) ∷ check_peers now ps

unfoldable pub check_peer_health : SyncManager → ℕ → SyncManager
unfolding check_peer
check_peer_health sm now = record sm { peers = check_peers now sm.peers }

unfoldable pub broadcast_heartbeat : SyncManager → (id : String) → (now : ℕ) → SyncManager
unfolding broadcast new_agent_status_delta
broadcast_heartbeat sm id now =
    (broadcast sm
      (new_agent_status_delta sm.node_id sm.node_name sm.vector_clock sm.node_id "online" id now)).0

pub record SyncRequest : Type 0 where
  pub requestor_id : String
  pub requestor_name : String
  pub target_id : String
  pub last_known_clock : VectorClock
  pub timestamp : ℕ

pub record SyncResponse : Type 0 where
  pub responder_id : String
  pub responder_name : String
  pub deltas : List Delta
  pub current_clock : VectorClock
  pub timestamp : ℕ

unfoldable pub request_sync : SyncManager → String → ℕ → Result String SyncRequest
request_sync sm id now = elim (lookup id sm.peers) [
  | none ↦ err ("peer not found: " <> id)
  | some p ↦ ok (record {
    requestor_id = sm.node_id;
    requestor_name = sm.node_name;
    target_id = id;
    last_known_clock = p.vector_clock;
    timestamp = now;
  })
]

unfoldable pub handle_sync_request : SyncManager → SyncRequest → ℕ → SyncResponse
handle_sync_request sm req now = record {
  responder_id = sm.node_id;
  responder_name = sm.node_name;
  deltas = get_since sm.delta_log req.last_known_clock;
  current_clock = sm.vector_clock;
  timestamp = now;
}

pub record SyncStats : Type 0 where
  pub total_deltas : ℕ
  pub total_peers : ℕ
  pub online_peers : ℕ
  pub watched_files : ℕ
  pub vector_clock : VectorClock

-- The number of watched files is the watcher's.
unfoldable pub get_stats : SyncManager → (watched : ℕ) → SyncStats
unfolding size
get_stats sm watched = record {
  total_deltas = size sm.delta_log;
  total_peers = length sm.peers;
  online_peers = length (keep (λ (p : PeerState). p.is_online) (values sm.peers));
  watched_files = watched;
  vector_clock = sm.vector_clock;
}
