-- ===== src/Lock/Service/Schedule.antt =====
-- The calls of src/domain/lock/service.go in any order: the clients', the peers', and the two
-- cleanup goroutines'. A schedule is a list of calls with their instants.
pub mod Invariant
pub mod Calls
pub mod Safety
use agent_collab.Common.{ℕ, ◌≤◌, String, ◌≡◌, Option, none, some, List, [], ◌∷◌, ℤ, Result, ok, err}
use agent_collab.Lock.Semantic.{SemanticLock}
use agent_collab.Lock.Target.{Error}
use agent_collab.Lock.Store.{find_conflicts, cleanup_expired}
use agent_collab.Lock.Negotiator.Phases.{acquire_lock, cleanup_expired_sessions}
use agent_collab.Lock.Service.{
  LockService, AcquireLockRequest, announce, release_lock, renew_lock, renew_lock_with_ttl,
  handle_remote_lock_acquired, handle_remote_lock_released, with_store,
}

pub data Call : Type 0 where
  -- The two phases of an acquisition, between which other calls may come.
  announces : AcquireLockRequest → String → Call
  acquires : String → Call
  releases : String → Call
  renews : String → Call
  renews_with : String → ℤ → Call
  hears_acquired : SemanticLock → Call
  hears_released : String → Call
  sweeps_locks : Call
  sweeps_sessions : Call

-- A call that fails, or panics, leaves the service as it was.
abbrev or_before : LockService → Result Error LockService → LockService
or_before sv (ok sv') = sv'
or_before sv (err e) = sv

unfoldable pub perform : LockService → ℕ → Call → LockService
perform sv now (announces req random) = elim (announce sv req random now) [
  | none ↦ sv
  | some (sv', intent) ↦ sv'
]
perform sv now (acquires id) = record sv { negotiator = (acquire_lock sv.negotiator id now).0 }
perform sv now (releases id) = or_before sv (release_lock sv id now)
perform sv now (renews id) = or_before sv (renew_lock sv id now)
perform sv now (renews_with id ttl) = or_before sv (renew_lock_with_ttl sv id ttl now)
perform sv now (hears_acquired l) = or_before sv (handle_remote_lock_acquired sv l now)
perform sv now (hears_released id) = or_before sv (handle_remote_lock_released sv id now)
perform sv now sweeps_locks = with_store sv (cleanup_expired sv.negotiator.store now)
perform sv now sweeps_sessions = record sv {
  negotiator = cleanup_expired_sessions sv.negotiator now;
}

unfoldable pub run : LockService → List (ℕ × Call) → LockService
unfolding perform
run sv [] = sv
run sv ((now, c) ∷ cs) = run (perform sv now c) cs

-- A peer reports only locks that overlap no live lock of this node's store.
abbrev pub Agrees : LockService → ℕ → Call → Type 0
Agrees sv now (hears_acquired l) = find_conflicts sv.negotiator.store l.target now ≡ []
Agrees sv now _ = Unit

-- The instants of a schedule do not fall, and its peers agree.
abbrev pub IsFaithful : LockService → ℕ → List (ℕ × Call) → Type 0
IsFaithful sv since [] = Unit
IsFaithful sv since ((now, c) ∷ cs) =
    (since ≤ now) × Agrees sv now c × IsFaithful (perform sv now c) now cs

-- The last instant of a schedule.
abbrev pub ending : ℕ → List (ℕ × Call) → ℕ
ending since [] = since
ending since ((now, c) ∷ cs) = ending now cs
