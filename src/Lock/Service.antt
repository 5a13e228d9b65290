-- ===== src/Lock/Service.antt =====
-- src/domain/lock/service.go: the service that a node runs over the negotiator and the store. The
-- process-wide fencing counter of src/domain/lock/lock.go stands in its state.
pub mod Schedule
mod Examples
use agent_collab.Common.{
  ℕ, ◌+◌, ◌/◌, String, ◌<>◌, Bool, false, if◌then◌else◌, str_eq, Option, none, some, List, [], ◌∷◌,
  length, ℤ, ◌==◌, Result, ok, err, ◌>>=◌,
}
use agent_collab.Lock.Target.{
  Error, not_lock_holder, message, error_text, SemanticTarget, new_semantic_target,
}
use agent_collab.Lock.Semantic.{
  SemanticLock, LockConflict, new_semantic_lock_safe, renew, renew_with_ttl, ttl_remaining,
}
use agent_collab.Lock.Store.{
  LockStore, new_lock_store, alloc, write, add, get, remove, find_conflicts, list_locks,
  list_by_holder,
}
use agent_collab.Lock.Limiter.{Float64}
use agent_collab.Lock.Negotiator.{
  new_lock_negotiator, LockNegotiator, LockIntent, LockResult, NegotiationResult,
  NegotiationProposal, Vote,
}
use agent_collab.Lock.Negotiator.Phases.{
  announce_intent, acquire_lock as acquire_phase, release_lock as release_phase,
  list_active_sessions,
}
use agent_collab.Lock.Negotiator.Proposals.{cast_vote}

pub record LockService : Type 0 where
  pub negotiator : LockNegotiator
  pub node_id : String
  pub node_name : String
  pub fencing_counter : ℕ

pub record AcquireLockRequest : Type 0 where
  pub target_type : String
  pub file_path : String
  pub name : String
  pub start_line : ℤ
  pub end_line : ℤ
  pub intention : String

pub record LockStats : Type 0 where
  pub total_locks : ℕ
  pub my_locks : ℕ
  pub active_negotiations : ℕ
  pub average_ttl : ℕ

-- `NewLockService`; the heap before any lock is made, and the counter, are the process's.
unfoldable pub new_lock_service : Float64 → (ℕ → SemanticLock) → String → String → ℕ → LockService
unfolding new_lock_store new_lock_negotiator
new_lock_service float64 heap node_id node_name counter = record {
  negotiator = new_lock_negotiator float64 (new_lock_store heap);
  node_id = node_id;
  node_name = node_name;
  fencing_counter = counter;
}

-- `SetBroadcastFn`, `SetConflictHandler` and `SetEscalateHandler`.
unfoldable pub set_handlers :
    LockService → Option (LockConflict → Option String) → Bool → Bool → LockService
set_handlers sv on_conflict escalates broadcasts = record sv {
  negotiator = record (sv.negotiator) {
    on_conflict = on_conflict;
    escalates = escalates;
    broadcasts = broadcasts;
  };
}

abbrev pub with_store : LockService → LockStore → LockService
with_store sv s = record sv { negotiator = record (sv.negotiator) { store = s } }

-- The first half of `AcquireLock`: the target, the lock with its token, and the announcement.
-- `none` is the panic of `NewSemanticLock`.
unfoldable pub announce :
    LockService
    → AcquireLockRequest
    → (random : String) → ℕ
    → Option (LockService × Result Error LockIntent)
announce sv req random now =
    elim (new_semantic_target req.target_type req.file_path req.name req.start_line req.end_line) [
      | err e ↦ some (sv, err e)
      | ok target ↦
          elim (new_semantic_lock_safe (some target) sv.node_id sv.node_name req.intention
            sv.fencing_counter random now) [
              | err e ↦ none
              | ok (l, counter) ↦
                  let (s, r) = alloc l sv.negotiator.store in
                  let (n, intent) = announce_intent (record (sv.negotiator) { store = s }) r now in
                  some (record sv { negotiator = n; fencing_counter = counter }, intent)
            ]
    ]

abbrev failed : Error → LockResult × Option Error
failed e = (record { success = false; lock = none; reason = error_text e }, some e)

unfoldable pub acquire_lock :
    LockService
    → AcquireLockRequest
    → (random : String) → ℕ
    → Option (LockService × (LockResult × Option Error))
unfolding announce
acquire_lock sv req random now = elim (announce sv req random now) [
  | none ↦ none
  | some (sv', err e) ↦ some (sv', failed e)
  | some (sv', ok intent) ↦
      let (n, result) = acquire_phase sv'.negotiator intent.id now in
      some (record sv' { negotiator = n }, result)
]

unfoldable pub release_lock : LockService → String → ℕ → Result Error LockService
release_lock sv id now = do
  n ← release_phase sv.negotiator id sv.node_id now
  ok (record sv { negotiator = n })

-- The two renewals differ in how the lock is renewed.
unfoldable pub renew_by :
    (SemanticLock → Result Error SemanticLock) → LockService → String → ℕ → Result Error LockService
renew_by change sv id now = do
  r ← get sv.negotiator.store id now
  if str_eq (sv.negotiator.store.heap r).holder_id sv.node_id
      then (do
        l ← change (sv.negotiator.store.heap r)
        ok (
            with_store sv
              (record (sv.negotiator.store) { heap = write sv.negotiator.store.heap r l })))
      else err not_lock_holder

unfoldable pub renew_lock : LockService → String → ℕ → Result Error LockService
unfolding renew_by
renew_lock sv id now = renew_by (λ l. renew l now) sv id now

unfoldable pub renew_lock_with_ttl : LockService → String → ℤ → ℕ → Result Error LockService
unfolding renew_by
renew_lock_with_ttl sv id ttl now = renew_by (λ l. renew_with_ttl l ttl now) sv id now

unfoldable pub vote : LockService → String → Bool → String → ℕ → Result Error LockService
vote sv session approve reason now = do
  n ←
      cast_vote sv.negotiator session
        (record {
          voter_id = sv.node_id;
          voter_name = sv.node_name;
          approve = approve;
          reason = reason;
          timestamp = now;
        })
        now
  ok (record sv { negotiator = n })

-- The first lock of a list that this node holds.
unfoldable pub held_by : LockStore → String → List ℕ → Option ℕ
held_by s node [] = none
held_by s node (r ∷ rs) = if str_eq (s.heap r).holder_id node then some r else held_by s node rs

unfoldable pub handle_remote_lock_intent : LockService → SemanticTarget → ℕ → Option Error
unfolding held_by
handle_remote_lock_intent sv target now =
    let s = sv.negotiator.store in
    elim (held_by s sv.node_id (find_conflicts s target now)) [
      | none ↦ none
      | some r ↦ some (message ("conflict with my lock: " <> (s.heap r).id))
    ]

-- The decoded lock is a new object of this process.
unfoldable pub handle_remote_lock_acquired :
    LockService → SemanticLock → ℕ → Result Error LockService
handle_remote_lock_acquired sv l now = do
  let (s, r) = alloc l sv.negotiator.store
  s' ← add s r now
  ok (with_store sv s')

unfoldable pub handle_remote_lock_released : LockService → String → ℕ → Result Error LockService
handle_remote_lock_released sv id now = elim (get sv.negotiator.store id now) [
  | err e ↦ ok sv
  | ok r ↦
      if str_eq (sv.negotiator.store.heap r).holder_id sv.node_id
      then ok sv
      else (do s ← remove sv.negotiator.store id now; ok (with_store sv s))
]

unfoldable pub total_ttl : LockStore → ℕ → List ℕ → ℕ
total_ttl s now [] = 0
total_ttl s now (r ∷ rs) = ttl_remaining (s.heap r) now + total_ttl s now rs

unfoldable pub get_stats : LockService → ℕ → LockStats
unfolding total_ttl
get_stats sv now =
    let s = sv.negotiator.store in
    let locks = list_locks s now in
    record {
      total_locks = length locks;
      my_locks = length (list_by_holder s sv.node_id now);
      active_negotiations = length (list_active_sessions sv.negotiator);
      average_ttl = if length locks == 0 then 0 else total_ttl s now locks / length locks;
    }
