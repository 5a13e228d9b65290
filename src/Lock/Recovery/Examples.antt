-- ===== src/Lock/Recovery/Examples.antt =====
-- Tests of src/domain/lock/recovery.go, and its theorems at concrete inputs.
use agent_collab.Common.{
  ℕ, String, ◌≡◌, refl, inr, true, none, some, List, [], ◌∷◌, pos, show_ℤ, arith, if◌then◌else◌,
  ◌==◌, eq_iff, Result, ok, err,
}
use agent_collab.Common.Dict.{lookup, insert, delete, has, keys}
use agent_collab.Lock.Target.{target_id, describe, overlaps}
use agent_collab.Lock.Semantic.{SemanticLock, is_expired}
use agent_collab.Lock.Store.{
  LockStore, target_is_taken, add_history, add, drop_lock, remove, history_entry, find_conflicts,
  list_locks, active_where,
}
use agent_collab.Lock.Store.Valid.{IsStore}
use agent_collab.Lock.Store.Exclusion.{IsExclusive}
use agent_collab.Lock.Negotiator.Proposals.{take_over}
use agent_collab.Lock.Recovery.{
  RecoveryManager, Progress, RecoveryResult, RecoveryError, new_recovery_manager, start_recovery,
  receive_lock_state, track, finish_recovery, note_conflict, resolve_fencing_conflict,
  resolve_overlap_conflict, resolve_overlaps, reconcile_new, reconcile_same, reconcile,
  reconcile_all, drop_released, map_by_id, no_result, already_in_progress,
}
use agent_collab.Lock.Recovery.Agreement
use agent_collab.Lock.Recovery.Agreement.{Before}
use agent_collab.Lock.Recovery.Reconciled

program : Unit {0}
unfolding show_ℤ lookup insert delete has target_id describe overlaps is_expired target_is_taken
    add_history add drop_lock remove history_entry find_conflicts list_locks active_where take_over
    new_recovery_manager start_recovery receive_lock_state track finish_recovery note_conflict
    resolve_fencing_conflict resolve_overlap_conflict resolve_overlaps reconcile_new reconcile_same
    reconcile reconcile_all drop_released map_by_id
program = tt

abbrev lock_of : String → String → ℕ → ℕ → ℕ → SemanticLock
lock_of id holder first last acquired = record {
  id = id;
  target = record {
    kind = "file";
    file_path = "a.go";
    name = "main";
    start_line = pos first;
    end_line = pos last;
    ast_hash = "";
  };
  holder_id = holder;
  holder_name = holder;
  intention = "";
  fencing_token = 1;
  acquired_at = acquired;
  expires_at = 500;
  renew_count = 0;
}

-- An own lock at 0 and a peer's older one at 1; at 2 a lock that overlaps both, at 3 one that
-- overlaps the own lock only.
abbrev heap : ℕ → SemanticLock
heap r =
    if r == 0
    then lock_of "lock-own" "n" 1 10 5
    else if r == 1
    then lock_of "lock-old" "m" 50 60 1
    else if r == 2
    then lock_of "lock-wide" "m" 5 55 3
    else lock_of "lock-narrow" "m" 5 20 3

abbrev store : LockStore
store = record {
  heap = heap;
  next = 4;
  locks = ("lock-own", 0) ∷ ("lock-old", 1) ∷ [];
  by_target = ("file:a.go:main:1-10", "lock-own") ∷ ("file:a.go:main:50-60", "lock-old") ∷ [];
  history = [];
  max_history = 100;
}

-- The narrow lock arrives, and the old one is no longer there.
abbrev recovering : RecoveryManager
recovering = record (new_recovery_manager store "n") {
  in_recovery = true;
  partition_start = 2;
  remote_locks = ("lock-narrow", 3) ∷ [];
}

abbrev ids_after : Result RecoveryError (RecoveryManager × RecoveryResult) → List String
ids_after (ok (rm, r)) = keys rm.store.locks
ids_after (err e) = []

recovered : ids_after (finish_recovery recovering 100) ≡ "lock-narrow" ∷ []
unfolding program
recovered = refl

twice : start_recovery recovering 2 3 ≡ err already_in_progress
unfolding program
twice = refl

received :
    (receive_lock_state (record recovering { remote_locks = [] }) (0 ∷ 3 ∷ [])).remote_locks
    ≡ ("lock-narrow", 3) ∷ []
unfolding program
received = refl

-- The other node, which holds the narrow lock.
abbrev peer : LockStore
peer = record store {
  heap = λ (r : ℕ). if r == 0 then heap 3 else heap 0;
  locks = ("lock-narrow", 0) ∷ [];
  by_target = ("file:a.go:main:5-20", "lock-narrow") ∷ [];
}

resolve_overlap_agrees_example :
    (Before (heap 0) (heap 3)
      → (lookup "lock-own" (resolve_overlap_conflict store "n" 0 3 9).0.locks ≡ some 0)
        × (lookup "lock-narrow" (resolve_overlap_conflict peer "m" 0 1 8).0.locks ≡ none))
    × (Before (heap 3) (heap 0)
        → (lookup "lock-own" (resolve_overlap_conflict store "n" 0 3 9).0.locks ≡ none)
          × (lookup "lock-narrow" (resolve_overlap_conflict peer "m" 0 1 8).0.locks ≡ some 0))
    × (((heap 0).acquired_at ≡ (heap 3).acquired_at)
          × ((heap 0).fencing_token ≡ (heap 3).fencing_token)
        → (lookup "lock-own" (resolve_overlap_conflict store "n" 0 3 9).0.locks ≡ some 0)
          × (lookup "lock-narrow" (resolve_overlap_conflict peer "m" 0 1 8).0.locks ≡ some 0))
unfolding program
resolve_overlap_agrees_example =
    Agreement.resolve_overlap_agrees store peer "n" "m" 0 3 0 1 9 8 refl refl refl refl
      (λ e. ground (arith, eq_iff "lock-own" "lock-narrow")) refl refl

store-IsStore : IsStore store
unfolding program
store-IsStore = record {
  distinct = (refl, (refl, tt));
  keyed = λ i r e. ground (arith, e, eq_iff "lock-own" i, eq_iff "lock-old" i);
  allocated = λ i r e. ground (arith, e);
}

store-IsExclusive : IsExclusive store 100
unfolding program
store-IsExclusive i j r q a b o = ground (
  arith,
  a.bound,
  b.bound,
  o,
  eq_iff "lock-own" i,
  eq_iff "lock-old" i,
  eq_iff "lock-own" j,
  eq_iff "lock-old" j,
)

abbrev start : Progress
start = record { store = store; result = no_result }

reconcile_new-IsExclusive_example : IsExclusive (reconcile_new "n" 3 100 start).store 100
unfolding program
reconcile_new-IsExclusive_example =
    Reconciled.reconcile_new-IsExclusive "n" 3 0 100 start (inr refl) store-IsStore
      store-IsExclusive
