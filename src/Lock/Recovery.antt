-- ===== src/Lock/Recovery.antt =====
-- src/domain/lock/recovery.go: how a node reconciles its locks with those of its peers after a
-- network partition. Locks are addresses in the store's heap, also those that a peer sent. The
-- texts of the reasons are left out.
pub mod Agreement
pub mod Reconciled
mod Examples
use agent_collab.Common.{
  ℕ, ◌+◌, ◌-◌, String, Bool, true, false, not, ◌||◌, str_eq, if◌then◌else◌, ◌==◌, ltb, Option, none,
  some, List, [], ◌∷◌, ◌++◌, Result, ok, err, keep,
}
use agent_collab.Common.Dict.{Dict, lookup, insert, values, has}
use agent_collab.Lock.Semantic.{SemanticLock, is_expired}
use agent_collab.Lock.Store.{LockStore, list_locks, find_conflicts, add, remove}
use agent_collab.Lock.Negotiator.{ResolutionType, approved, human_needed, or_same}
use agent_collab.Lock.Negotiator.Proposals.{take_over}

pub data RecoveryError : Type 0 where
  already_in_progress not_in_recovery : RecoveryError

pub record LockStateRequest : Type 0 where
  pub requestor_id : String
  pub since : ℕ
  pub timestamp : ℕ

pub record LockStateResponse : Type 0 where
  pub responder_id : String
  pub locks : List ℕ
  pub timestamp : ℕ

pub record RecoveryConflict : Type 0 where
  pub local_lock : ℕ
  pub remote_lock : ℕ
  pub resolution : ResolutionType

pub record RecoveryResult : Type 0 where
  pub locks_reconciled : ℕ
  pub locks_removed : ℕ
  pub conflicts_resolved : ℕ
  pub conflicts_escalated : ℕ
  pub conflicts : List RecoveryConflict

-- Requests are broadcast, and conflicts notified, if the function for it is set.
pub record RecoveryManager : Type 0 where
  pub store : LockStore
  pub node_id : String
  pub in_recovery : Bool
  pub recovery_start : ℕ
  pub partition_start : ℕ
  pub remote_locks : Dict ℕ
  pub has_conflict_handler : Bool
  pub has_broadcast : Bool
  pub requests : List LockStateRequest
  pub notified : List RecoveryConflict

-- Before the two setters.
unfoldable pub new_recovery_manager : LockStore → String → RecoveryManager
new_recovery_manager store node = record {
  store = store;
  node_id = node;
  in_recovery = false;
  recovery_start = 0;
  partition_start = 0;
  remote_locks = [];
  has_conflict_handler = false;
  has_broadcast = false;
  requests = [];
  notified = [];
}

unfoldable pub set_functions : RecoveryManager → Bool → Bool → RecoveryManager
set_functions rm handler broadcast = record rm {
  has_conflict_handler = handler;
  has_broadcast = broadcast;
}

unfoldable pub start_recovery : RecoveryManager → ℕ → ℕ → Result RecoveryError RecoveryManager
start_recovery rm partition_start now =
    if rm.in_recovery
    then err already_in_progress
    else ok (record rm {
      in_recovery = true;
      recovery_start = now;
      partition_start = partition_start;
      remote_locks = [];
      requests =
          if rm.has_broadcast
          then rm.requests
            ++ record { requestor_id = rm.node_id; since = partition_start; timestamp = now } ∷ []
          else rm.requests;
    })

-- Only locks of other nodes are kept.
unfoldable pub track : LockStore → String → Dict ℕ → List ℕ → Dict ℕ
track s node remote [] = remote
track s node remote (r ∷ rs) =
    track s node
      (if str_eq (s.heap r).holder_id node then remote else insert (s.heap r).id r remote) rs

unfoldable pub receive_lock_state : RecoveryManager → List ℕ → RecoveryManager
unfolding track
receive_lock_state rm locks =
    if rm.in_recovery
    then record rm { remote_locks = track rm.store rm.node_id rm.remote_locks locks }
    else rm

-- The same lock with different tokens: the higher token wins.
unfoldable pub resolve_fencing_conflict : LockStore → ℕ → ℕ → ℕ → LockStore × RecoveryConflict
resolve_fencing_conflict s local remote now =
    if ltb (s.heap local).fencing_token (s.heap remote).fencing_token
    then (
      take_over s local remote now,
      record { local_lock = local; remote_lock = remote; resolution = approved },
    )
    else if ltb (s.heap remote).fencing_token (s.heap local).fencing_token
    then (s, record { local_lock = local; remote_lock = remote; resolution = approved })
    else (s, record { local_lock = local; remote_lock = remote; resolution = human_needed })

-- Overlapping locks: the older wins, then the higher token, then the local one.
unfoldable pub resolve_overlap_conflict :
    LockStore → String → ℕ → ℕ → ℕ → LockStore × RecoveryConflict
resolve_overlap_conflict s node local remote now =
    let l = s.heap local in
    let r = s.heap remote in
    let settled : RecoveryConflict = record {
      local_lock = local;
      remote_lock = remote;
      resolution = approved;
    } in
    let escalated : RecoveryConflict = record {
      local_lock = local;
      remote_lock = remote;
      resolution = human_needed;
    } in
    if ltb r.acquired_at l.acquired_at
    then (if str_eq l.holder_id node
        then (take_over s local remote now, settled)
        else (s, escalated))
    else if ltb l.acquired_at r.acquired_at
    then (s, settled)
    else if ltb l.fencing_token r.fencing_token
    then (take_over s local remote now, settled)
    else (s, settled)

-- What the loops change.
pub record Progress : Type 0 where
  pub store : LockStore
  pub result : RecoveryResult

abbrev pub is_escalated : ResolutionType → Bool
is_escalated human_needed = true
is_escalated _ = false

unfoldable pub note_conflict : RecoveryResult → RecoveryConflict → RecoveryResult
note_conflict result c = record result {
  conflicts = result.conflicts ++ c ∷ [];
  conflicts_escalated =
      if is_escalated c.resolution
      then result.conflicts_escalated + 1
      else result.conflicts_escalated;
  conflicts_resolved =
      if is_escalated c.resolution
      then result.conflicts_resolved
      else result.conflicts_resolved + 1;
}

abbrev counted : RecoveryResult → RecoveryResult
counted result = record result { locks_reconciled = result.locks_reconciled + 1 }

unfoldable pub resolve_overlaps : String → ℕ → List ℕ → ℕ → Progress → Progress
unfolding resolve_overlap_conflict note_conflict
resolve_overlaps node remote [] now p = p
resolve_overlaps node remote (local ∷ locals) now p =
    let (s, c) = resolve_overlap_conflict p.store node local remote now in
    resolve_overlaps node remote locals now
      (record { store = s; result = note_conflict p.result c })

-- A remote lock that is not known here.
unfoldable pub reconcile_new : String → ℕ → ℕ → Progress → Progress
unfolding resolve_overlaps
reconcile_new node remote now p = elim (find_conflicts p.store (p.store.heap remote).target now) [
  | [] ↦ record { store = or_same p.store (add p.store remote now); result = counted p.result }
  | local ∷ locals ↦ resolve_overlaps node remote (local ∷ locals) now p
]

unfoldable pub reconcile_same : ℕ → ℕ → ℕ → Progress → Progress
unfolding resolve_fencing_conflict note_conflict
reconcile_same local remote now p =
    if (p.store.heap local).fencing_token == (p.store.heap remote).fencing_token
    then record { store = p.store; result = counted p.result }
    else (let (s, c) = resolve_fencing_conflict p.store local remote now in
        record { store = s; result = counted (note_conflict p.result c) })

unfoldable pub reconcile : Dict ℕ → String → ℕ → ℕ → Progress → Progress
unfolding reconcile_new reconcile_same
reconcile local_map node remote now p =
    if is_expired (p.store.heap remote) now
    then p
    else elim (lookup (p.store.heap remote).id local_map) [
      | some local ↦ reconcile_same local remote now p
      | none ↦ reconcile_new node remote now p
    ]

unfoldable pub reconcile_all : Dict ℕ → String → List ℕ → ℕ → Progress → Progress
unfolding reconcile
reconcile_all local_map node [] now p = p
reconcile_all local_map node (r ∷ rs) now p =
    reconcile_all local_map node rs now (reconcile local_map node r now p)

-- A peer's lock from before the partition that the peers no longer have.
unfoldable pub drop_released : RecoveryManager → List (String × ℕ) → ℕ → Progress → Progress
drop_released rm [] now p = p
drop_released rm ((id, r) ∷ rest) now p =
    if str_eq (p.store.heap r).holder_id rm.node_id
      || has id rm.remote_locks
      || not (ltb (p.store.heap r).acquired_at rm.partition_start)
    then drop_released rm rest now p
    else drop_released rm rest now (record {
      store = or_same p.store (remove p.store id now);
      result = record p.result { locks_removed = p.result.locks_removed + 1 };
    })

abbrev pub no_result : RecoveryResult
no_result = record {
  locks_reconciled = 0;
  locks_removed = 0;
  conflicts_resolved = 0;
  conflicts_escalated = 0;
  conflicts = [];
}

-- `localLockMap`.
unfoldable pub map_by_id : LockStore → Dict ℕ → List ℕ → Dict ℕ
map_by_id s m [] = m
map_by_id s m (r ∷ rs) = map_by_id s (insert (s.heap r).id r m) rs

unfoldable pub finish_recovery :
    RecoveryManager → ℕ → Result RecoveryError (RecoveryManager × RecoveryResult)
unfolding reconcile_all drop_released map_by_id
finish_recovery rm now =
    if not rm.in_recovery
    then err not_in_recovery
    else (let local_map = map_by_id rm.store [] (list_locks rm.store now) in
        let p =
          reconcile_all local_map rm.node_id (values rm.remote_locks) now
            (record { store = rm.store; result = no_result }) in
        let q = drop_released rm local_map now p in
        ok (
          record rm {
            store = q.store;
            in_recovery = false;
            notified =
                if rm.has_conflict_handler then rm.notified ++ q.result.conflicts else rm.notified;
          },
          q.result,
        ))

-- The insertion of `sort.Slice`, by the time of acquisition.
unfoldable pub insert_by_time : LockStore → ℕ → List ℕ → List ℕ
insert_by_time s r [] = r ∷ []
insert_by_time s r (q ∷ qs) =
    let rest = insert_by_time s r qs in
    if ltb (s.heap q).acquired_at (s.heap r).acquired_at then q ∷ rest else r ∷ q ∷ qs

unfoldable pub sort_by_time : LockStore → List ℕ → List ℕ
unfolding insert_by_time
sort_by_time s [] = []
sort_by_time s (r ∷ rs) = insert_by_time s r (sort_by_time s rs)

unfoldable pub prepare_state_response : RecoveryManager → LockStateRequest → ℕ → LockStateResponse
unfolding sort_by_time
prepare_state_response rm req now = record {
  responder_id = rm.node_id;
  locks = sort_by_time rm.store (
      keep
        (λ r. ltb req.since (rm.store.heap r).acquired_at || not (is_expired (rm.store.heap r) now))
        (list_locks rm.store now));
  timestamp = now;
}
