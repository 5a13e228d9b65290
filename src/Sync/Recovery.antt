-- ===== src/Sync/Recovery.antt =====
-- src/domain/ctxsync/recovery.go: how a node takes over the deltas of its peers after a network
-- partition. The peers' states are not used by the operations, and left out, as are the duration and
-- the texts of the reasons.
pub mod Winners
mod Examples
use agent_collab.Common.{
  ℕ, ◌+◌, ◌*◌, String, ◌<>◌, Bool, true, false, not, ◌&&◌, if◌then◌else◌, ltb, leb, ◌==◌, str_eq, ℤ,
  pos, Option, none, some, List, [], ◌∷◌, ◌++◌, keep, length, Result, ok, err,
}
use agent_collab.Common.Dict.{Dict, lookup, insert, values}
use agent_collab.Common.Order.{text_lt}
use agent_collab.Sync.Clock.{VectorClock, new_vector_clock, is_concurrent}
use agent_collab.Sync.Delta.{Delta, DeltaLog, new_delta, append, get, get_since, get_recent}

pub data RecoveryError : Type 0 where
  already_in_progress not_in_recovery : RecoveryError

pub data Resolution : Type 0 where
  keep_first keep_second escalated : Resolution

pub record RecoveryConflict : Type 0 where
  pub local_delta : Delta
  pub remote_delta : Delta
  pub file_path : String
  pub resolution : Resolution

pub record RecoveryResult : Type 0 where
  pub deltas_replayed : ℕ
  pub deltas_merged : ℕ
  pub conflicts_found : ℕ
  pub conflicts_resolved : ℕ
  pub conflicts_escalated : ℕ
  pub peers_reconciled : ℕ
  pub conflicts : List RecoveryConflict

-- What was broadcast, and what the conflict handler got, if they are set, is collected.
pub record RecoveryManager : Type 0 where
  pub node_id : String
  pub node_name : String
  pub delta_log : DeltaLog
  pub in_recovery : Bool
  pub recovery_start : ℕ
  pub partition_start : ℕ
  pub pending_replays : Dict (List Delta)
  pub has_conflict_handler : Bool
  pub has_broadcast : Bool
  pub requests : List Delta
  pub notified : List RecoveryConflict

unfoldable pub new_recovery_manager : String → String → DeltaLog → RecoveryManager
new_recovery_manager node_id node_name log = record {
  node_id = node_id;
  node_name = node_name;
  delta_log = log;
  in_recovery = false;
  recovery_start = 0;
  partition_start = 0;
  pending_replays = [];
  has_conflict_handler = false;
  has_broadcast = false;
  requests = [];
  notified = [];
}

unfoldable pub set_functions : RecoveryManager → Bool → Bool → RecoveryManager
set_functions rm handler broadcast = record rm {
  has_conflict_handler = handler;
  has_broadcast = broadcast;
}

-- The request's custom data is left out.
unfoldable pub start_recovery : RecoveryManager → ℕ → ℕ → Result RecoveryError RecoveryManager
unfolding new_delta
start_recovery rm partition_start now =
    let request =
      new_delta "custom" rm.node_id rm.node_name new_vector_clock ("sync-req-" <> rm.node_id) now in
    if rm.in_recovery
    then err already_in_progress
    else ok (record rm {
      in_recovery = true;
      recovery_start = now;
      partition_start = partition_start;
      pending_replays = [];
      requests = if rm.has_broadcast then rm.requests ++ request ∷ [] else rm.requests;
    })

unfoldable pub receive_delta_replay : RecoveryManager → String → List Delta → RecoveryManager
receive_delta_replay rm peer deltas =
    let before : List Delta = elim (lookup peer rm.pending_replays) [ none ↦ [] | some ds ↦ ds ] in
    if rm.in_recovery
    then record rm { pending_replays = insert peer (before ++ deltas) rm.pending_replays }
    else rm

-- The order of the replay: by time, then by source.
unfoldable pub replays_before : Delta → Delta → Bool
replays_before d e =
    if d.timestamp == e.timestamp
    then text_lt d.source_id e.source_id
    else ltb d.timestamp e.timestamp

unfoldable pub insert_in_order : (Delta → Delta → Bool) → Delta → List Delta → List Delta
insert_in_order before d [] = d ∷ []
insert_in_order before d (e ∷ es) =
    let rest = insert_in_order before d es in if before e d then e ∷ rest else d ∷ e ∷ es

-- `sort.Slice`.
unfoldable pub sort_in_order : (Delta → Delta → Bool) → List Delta → List Delta
unfolding insert_in_order
sort_in_order before [] = []
sort_in_order before (d ∷ ds) = insert_in_order before d (sort_in_order before ds)

unfoldable pub concat : List (List Delta) → List Delta
concat [] = []
concat (ds ∷ rest) = ds ++ concat rest

-- What the loop of the replay changes.
pub record Replay : Type 0 where
  pub log : DeltaLog
  pub file_changes : Dict (List Delta)
  pub replayed : ℕ
  pub merged : ℕ

unfoldable pub replay_delta : Delta → Replay → Replay
replay_delta d r = elim (get r.log d.id) [
  | some _ ↦ record r { merged = r.merged + 1 }
  | none ↦
      let path = d.payload.file_path in
      let before : List Delta = elim (lookup path r.file_changes) [ none ↦ [] | some ds ↦ ds ] in
      record r {
        log = append d r.log;
        file_changes =
            if str_eq d.kind "file_change" && not (str_eq path "")
            then insert path (before ++ d ∷ []) r.file_changes
            else r.file_changes;
        replayed = r.replayed + 1;
      }
]

unfoldable pub replay_all : List Delta → Replay → Replay
unfolding replay_delta
replay_all [] r = r
replay_all (d ∷ ds) r = replay_all ds (replay_delta d r)

unfoldable pub resolution_of : Delta → Delta → Resolution
resolution_of d e =
    if ltb e.timestamp d.timestamp
    then keep_first
    else if ltb d.timestamp e.timestamp
    then keep_second
    else if text_lt d.source_id e.source_id
    then keep_first
    else if text_lt e.source_id d.source_id
    then keep_second
    else escalated

-- The second delta is the local one only if it alone is this node's.
unfoldable pub resolve_conflict : String → String → Delta → Delta → RecoveryConflict
unfolding resolution_of
resolve_conflict node path d e =
    let swapped = str_eq e.source_id node && not (str_eq d.source_id node) in
    record {
      local_delta = if swapped then e else d;
      remote_delta = if swapped then d else e;
      file_path = path;
      resolution = resolution_of d e;
    }

abbrev is_escalated : Resolution → Bool
is_escalated keep_first = false
is_escalated keep_second = false
is_escalated escalated = true

unfoldable pub note_conflict : RecoveryConflict → RecoveryResult → RecoveryResult
note_conflict c result = record result {
  conflicts = result.conflicts ++ c ∷ [];
  conflicts_found = result.conflicts_found + 1;
  conflicts_escalated =
      if is_escalated c.resolution
      then result.conflicts_escalated + 1
      else result.conflicts_escalated;
  conflicts_resolved =
      if is_escalated c.resolution
      then result.conflicts_resolved
      else result.conflicts_resolved + 1;
}

-- The inner and the outer loop over the pairs of a file's deltas.
unfoldable pub compare_with : String → String → Delta → List Delta → RecoveryResult → RecoveryResult
unfolding resolve_conflict note_conflict
compare_with node path d [] result = result
compare_with node path d (e ∷ es) result = compare_with node path d es (
    if is_concurrent d.vector_clock e.vector_clock
    then note_conflict (resolve_conflict node path d e) result
    else result)

unfoldable pub compare_pairs : String → String → List Delta → RecoveryResult → RecoveryResult
unfolding compare_with
compare_pairs node path [] result = result
compare_pairs node path (d ∷ ds) result =
    compare_pairs node path ds (compare_with node path d ds result)

unfoldable pub compare_files : String → Dict (List Delta) → RecoveryResult → RecoveryResult
unfolding compare_pairs
compare_files node [] result = result
compare_files node ((path, ds) ∷ rest) result =
    compare_files node rest
      (if leb (length ds) 1 then result else compare_pairs node path ds result)

unfoldable pub finish_recovery :
    RecoveryManager → Result RecoveryError (RecoveryManager × RecoveryResult)
unfolding replays_before sort_in_order concat replay_all compare_files
finish_recovery rm =
    if not rm.in_recovery
    then err not_in_recovery
    else (let all_deltas = sort_in_order replays_before (concat (values rm.pending_replays)) in
        let r =
          replay_all all_deltas
            (record { log = rm.delta_log; file_changes = []; replayed = 0; merged = 0 }) in
        let result = compare_files rm.node_id r.file_changes (record {
          deltas_replayed = r.replayed;
          deltas_merged = r.merged;
          conflicts_found = 0;
          conflicts_resolved = 0;
          conflicts_escalated = 0;
          peers_reconciled = length rm.pending_replays;
          conflicts = [];
        }) in
        ok (
          record rm {
            delta_log = r.log;
            in_recovery = false;
            notified =
                if rm.has_conflict_handler then rm.notified ++ result.conflicts else rm.notified;
          },
          result,
        ))

unfoldable pub get_missed_deltas : RecoveryManager → VectorClock → List Delta
get_missed_deltas rm since = get_since rm.delta_log since

unfoldable pub prepare_replay_response : RecoveryManager → ℕ → List Delta
unfolding sort_in_order
prepare_replay_response rm since =
    sort_in_order (λ d e. ltb d.timestamp e.timestamp)
      (keep (λ (d : Delta). ltb since d.timestamp) (get_recent rm.delta_log (pos 1000)))

unfoldable pub anti_entropy_sync : RecoveryManager → String → VectorClock → List Delta
anti_entropy_sync rm peer clock =
    keep (λ (d : Delta). not (str_eq d.source_id peer)) (get_since rm.delta_log clock)
