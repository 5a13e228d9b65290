-- ===== src/Lock/Examples.antt =====
-- Tests of the functions of src/domain/lock, and the theorems at concrete inputs.
use agent_collab.Common.{
  ℕ, ◌+◌, ◌-◌, ◌*◌, ◌≤◌, String, ◌≡◌, ◌≢◌, ◌⊎◌, inl, inr, sym, subst, some, str_eq, ◌↔◌, refl, true,
  false, List, [], ◌∷◌, eq_iff, ℤ, pos, show_ℤ, ok, err, arith, if◌then◌else◌, ◌==◌, length,
}
use agent_collab.Common.Dict.{lookup, insert, delete}
use agent_collab.Lock.Target.{
  lock_not_found, lock_conflict, SemanticTarget, new_semantic_target, is_valid_target_type,
  target_id, describe, overlaps,
}
use agent_collab.Lock.Target.Ranges
use agent_collab.Lock.Target.Ranges.{Covers}
use agent_collab.Lock.Semantic.{SemanticLock, second, is_expired, new_semantic_lock_safe}
use agent_collab.Lock.Store.{
  LockStore, alloc, target_is_taken, add_history, add, get, get_by_target, live_at, drop_lock,
  remove, find_conflicts, cleanup_expired, get_history, history_limit, history_entry,
}
use agent_collab.Lock.Store.Valid.{IsStore}
use agent_collab.Lock.Store.Exclusion.{Live}
use agent_collab.Lock.Store.Index
use agent_collab.Lock.Store.Holding
use agent_collab.Lock.Store.Holding.{StoreCall, adds, removes, sweeps, after_calls}
use agent_collab.Lock.Limiter.{RateLimiter, refill, allow, full, new_rate_limiter}
use agent_collab.Lock.Limiter.Bound
use agent_collab.Lock.Limiter.Coarse.{coarse}
use agent_collab.Lock.Service.{
  AcquireLockRequest, new_lock_service, set_handlers, announce, handle_remote_lock_acquired,
}
use agent_collab.Lock.Service.Schedule.{Call, announces, acquires, hears_acquired, perform, run}
use agent_collab.Lock.Service.Schedule.Safety
use agent_collab.Lock.Negotiator.Phases.{
  announce_intent, announce_checked, acquire_lock, acquire_checked,
}

-- What the tests compute with.
program : Unit {0}
unfolding show_ℤ lookup insert delete new_semantic_target is_valid_target_type target_id describe
    overlaps is_expired new_semantic_lock_safe target_is_taken add_history add get get_by_target
    live_at drop_lock remove find_conflicts cleanup_expired get_history history_limit history_entry
    refill allow new_rate_limiter alloc handle_remote_lock_acquired new_lock_service set_handlers
    announce perform run announce_intent announce_checked acquire_lock acquire_checked
program = tt

abbrev target : String → ℕ → ℕ → SemanticTarget
target path first last = record {
  kind = "file";
  file_path = path;
  name = "main";
  start_line = pos first;
  end_line = pos last;
  ast_hash = "";
}

abbrev lock_of : String → SemanticTarget → ℕ → ℕ → SemanticLock
lock_of id t fencing expires = record {
  id = id;
  target = t;
  holder_id = "node";
  holder_name = "n";
  intention = "";
  fencing_token = fencing;
  acquired_at = 0;
  expires_at = expires;
  renew_count = 0;
}

-- An old lock at 0 that has run out at 50, and a live one of the same target at 1; 2 is not stored.
abbrev heap : ℕ → SemanticLock
heap r =
    if r == 0
    then lock_of "lock-old" (target "a.go" 1 10) 1 50
    else if r == 1
    then lock_of "lock-new" (target "a.go" 1 10) 2 500
    else lock_of "lock-late" (target "a.go" 5 20) 3 900

abbrev store : LockStore
store = record {
  heap = heap;
  next = 3;
  locks = ("lock-old", 0) ∷ ("lock-new", 1) ∷ [];
  by_target = ("file:a.go:main:1-10", "lock-new") ∷ [];
  history = [];
  max_history = 100;
}

request : AcquireLockRequest
request = record {
  target_type = "file";
  file_path = "a.go";
  name = "main";
  start_line = pos 3;
  end_line = pos 7;
  intention = "edit";
}

abbrev calls : List (ℕ × Call)
calls =
    (1, announces request "a1")
    ∷ (2, acquires "lock-a1")
    ∷ (3, hears_acquired (lock_of "lock-b" (target "a.go" 8 9) 7 (40 * second)))
    ∷ []

identifier : target_id (target "a.go" 1 10) ≡ "file:a.go:main:1-10"
unfolding program
identifier = refl

both_live :
    length (run (new_lock_service coarse heap "node" "n" 0) calls).negotiator.store.locks ≡ 2
unfolding program request
both_live = refl

overlaps_iff_example : (overlaps (target "a.go" 1 10) (target "a.go" 5 20) ≡ true) ↔ (
    (line : ℤ) × Covers (target "a.go" 1 10) "a.go" line × Covers (target "a.go" 5 20) "a.go" line)
overlaps_iff_example =
    Ranges.overlaps_iff (target "a.go" 1 10) (target "a.go" 5 20) (omega arith) (omega arith)

abbrev some_path : String
some_path = "a.go"

-- The store after the lock at 2 was added at 60, when the old lock had run out.
abbrev added : LockStore
added = record store {
  locks = ("lock-old", 0) ∷ ("lock-new", 1) ∷ ("lock-late", 2) ∷ [];
  by_target = ("file:a.go:main:1-10", "lock-new") ∷ ("file:a.go:main:5-20", "lock-late") ∷ [];
  history = history_entry "acquired" (heap 2) 60 ∷ [];
}

store-IsStore : IsStore store
unfolding lookup
store-IsStore = record {
  distinct = (refl, (refl, tt));
  keyed = λ i r e. ground (arith, eq_iff "lock-old" i, eq_iff "lock-new" i);
  allocated = λ i r e. ground (arith, eq_iff "lock-old" i, eq_iff "lock-new" i);
}

new_Live : Live store 60 "lock-new" 1
unfolding program
new_Live = record { bound = refl; fresh = refl }

-- While the lock at 2 is held, the sweep and a release take away the two others, and it is added again.
abbrev meanwhile : List (ℕ × StoreCall)
meanwhile = (70, sweeps) ∷ (80, removes "lock-new") ∷ (90, adds 1) ∷ []

text_apart : (a b : String) → str_eq a b ≡ false → a ≢ b
text_apart a b n e = ground (arith, eq_iff a b, n, e)

new_other : (heap 1).id ≢ (heap 2).id
new_other = text_apart "lock-new" "lock-late" refl

stored : (i : String) (q : ℕ) → lookup i store.locks ≡ some q → (q ≡ 0) ⊎ (q ≡ 1)
unfolding lookup
stored i q e = ground (arith, eq_iff "lock-old" i, eq_iff "lock-new" i)

late_alone :
    (i : String) (q : ℕ)
    → lookup i store.locks ≡ some q
    → target_id (heap q).target ≢ target_id (target "a.go" 5 20)
unfolding program
late_alone i q e = elim (stored i q e) [
  | inl z ↦
      subst (λ k. target_id (heap k).target ≢ target_id (target "a.go" 5 20)) (sym z)
        (text_apart "file:a.go:main:1-10" "file:a.go:main:5-20" refl)
  | inr z ↦
      subst (λ k. target_id (heap k).target ≢ target_id (target "a.go" 5 20)) (sym z)
        (text_apart "file:a.go:main:1-10" "file:a.go:main:5-20" refl)
]

add-after_calls_example :
    (get (after_calls added meanwhile) "lock-late" 100 ≡ ok 2)
    × (get_by_target (after_calls added meanwhile) (target "a.go" 5 20) 100 ≡ ok 2)
    × ((q : ℕ)
        → target_id (heap q).target ≡ target_id (target "a.go" 5 20)
        → add (after_calls added meanwhile) q 100 ≡ err lock_conflict)
unfolding program
add-after_calls_example =
    Holding.add-after_calls store added 2 60 100 meanwhile (refl, (refl, tt))
      (λ i q e t. absurd (late_alone i q e t)) refl
      (refl, tt, (refl, new_other, (refl, new_other, tt))) refl

get_by_target-cleanup_expired_example :
    (get (cleanup_expired store 60) "lock-new" 60 ≡ ok 1)
    × (get_by_target (cleanup_expired store 60) (target "a.go" 1 10) 60 ≡ err lock_not_found)
unfolding program
get_by_target-cleanup_expired_example =
    Index.get_by_target-cleanup_expired store 60 "lock-old" "lock-new" 0 1 store-IsStore refl refl
      new_Live refl

-- The store after the live lock was released at 60.
abbrev released : LockStore
unfolding program
released = record (drop_lock store "lock-new" 1) {
  history = history_entry "released" (heap 1) 60 ∷ [];
}

abbrev limiter : RateLimiter
limiter = record {
  buckets = [];
  rate = 10 * coarse.one;
  burst = 2;
  cleanup = 300 * second;
  float64 = coarse;
}

limiter-RoundsWithin : Bound.RoundsWithin limiter 1
limiter-RoundsWithin tokens elapsed = ground arith

abbrev asks : List (String × ℕ)
asks = ("p", 0) ∷ ("q", 5) ∷ ("p", 10) ∷ ("p", 20) ∷ []

third_refused : Bound.grants limiter "p" asks ≡ 2
unfolding program Bound.grants
third_refused = refl

grants-le_example :
    Bound.grants limiter "p" asks * 1000 * second
    ≤ (full limiter + Bound.requests "p" asks * 1) * second + (30 - 0) * (10 * 1000)
unfolding program
grants-le_example =
    Bound.grants-le limiter "p" 1 0 30 asks limiter-RoundsWithin refl (omega arith)
      (omega arith, (omega arith, (omega arith, (omega arith, omega arith))))
