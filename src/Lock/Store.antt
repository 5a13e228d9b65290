-- ===== src/Lock/Store.antt =====
-- src/domain/lock/store.go. The store's map holds pointers, which negotiation sessions share, so
-- the locks stand in a heap: `heap r` is the lock at the address `r`. A map's order stands for the
-- order in which Go happens to range over it. The mutex makes each call one step.
pub mod Laws
pub mod Valid
pub mod Exclusion
pub mod Index
pub mod Holding
pub mod History
use agent_collab.Common.{
  ℕ, suc, ◌-◌, String, Bool, true, false, not, ◌&&◌, str_eq, if◌then◌else◌, ◌==◌, ltb, leb, ℤ, pos,
  negsuc, Option, none, some, List, [], ◌∷◌, ◌++◌, reverse, length, drop, keep, Result, ok, err,
  ◌>>=◌,
}
use agent_collab.Common.Dict.{Dict, lookup, insert, delete, values}
use agent_collab.Lock.Target.{
  Error, lock_not_found, lock_expired, lock_conflict, SemanticTarget, target_id, describe, overlaps,
}
use agent_collab.Lock.Semantic.{SemanticLock, is_expired}

pub record HistoryEntry : Type 0 where
  pub timestamp : ℕ
  pub action : String
  pub lock_id : String
  pub holder_id : String
  pub holder_name : String
  pub target : String

pub record LockStore : Type 0 where
  -- The heap, and its first free address.
  pub heap : ℕ → SemanticLock
  pub next : ℕ
  pub locks : Dict ℕ
  pub by_target : Dict String
  pub history : List HistoryEntry
  pub max_history : ℕ

-- Write through a pointer.
abbrev pub write : (ℕ → SemanticLock) → ℕ → SemanticLock → ℕ → SemanticLock
write heap r l q = if q == r then l else heap q

-- `&SemanticLock{…}`: a new address, and the store whose heap has the lock there.
unfoldable pub alloc : SemanticLock → LockStore → LockStore × ℕ
alloc l s = (record s { heap = write s.heap s.next l; next = suc s.next }, s.next)

unfoldable pub new_lock_store : (ℕ → SemanticLock) → LockStore
new_lock_store heap = record {
  heap = heap;
  next = 0;
  locks = [];
  by_target = [];
  history = [];
  max_history = 100;
}

-- The entry that an operation writes about a lock.
unfoldable pub history_entry : String → SemanticLock → ℕ → HistoryEntry
history_entry action l now = record {
  timestamp = now;
  action = action;
  lock_id = l.id;
  holder_id = l.holder_id;
  holder_name = l.holder_name;
  target = describe l.target;
}

unfoldable pub add_history : HistoryEntry → LockStore → LockStore
add_history entry s =
    let grown = s.history ++ entry ∷ [] in
    record s { history = if ltb s.max_history (length grown) then drop 1 grown else grown }

-- The test of `Add`: the target's index leads to a lock that has not run out.
unfoldable pub target_is_taken : LockStore → String → ℕ → Bool
target_is_taken s id now = elim (lookup id s.by_target) [
  | none ↦ false
  | some existing ↦ elim (lookup existing s.locks) [
    | none ↦ false
    | some r ↦ not (is_expired (s.heap r) now)
  ]
]

unfoldable pub add : LockStore → ℕ → ℕ → Result Error LockStore
unfolding target_is_taken add_history history_entry
add s r now =
    let l = s.heap r in
    if target_is_taken s (target_id l.target) now
    then err lock_conflict
    else ok (
        add_history (history_entry "acquired" l now) (record s {
          locks = insert l.id r s.locks;
          by_target = insert (target_id l.target) l.id s.by_target;
        }))

-- A read gives the address, through which `RenewLock` writes.
unfoldable pub live_at : LockStore → Option ℕ → ℕ → Result Error ℕ
live_at s none now = err lock_not_found
live_at s (some r) now = if is_expired (s.heap r) now then err lock_expired else ok r

unfoldable pub get : LockStore → String → ℕ → Result Error ℕ
unfolding live_at
get s id now = live_at s (lookup id s.locks) now

unfoldable pub get_by_target : LockStore → SemanticTarget → ℕ → Result Error ℕ
unfolding live_at
get_by_target s target now = elim (lookup (target_id target) s.by_target) [
  | none ↦ err lock_not_found
  | some id ↦ live_at s (lookup id s.locks) now
]

-- `delete(s.locks, id)` and `delete(s.byTarget, lock.Target.ID())`.
unfoldable pub drop_lock : LockStore → String → ℕ → LockStore
drop_lock s id r = record s {
  locks = delete id s.locks;
  by_target = delete (target_id (s.heap r).target) s.by_target;
}

unfoldable pub remove : LockStore → String → ℕ → Result Error LockStore
unfolding drop_lock add_history history_entry
remove s id now = elim (lookup id s.locks) [
  | none ↦ err lock_not_found
  | some r ↦ ok (add_history (history_entry "released" (s.heap r) now) (drop_lock s id r))
]

-- The locks that a reader sees: those that have not run out and pass a test.
unfoldable pub active_where : (SemanticLock → Bool) → LockStore → ℕ → List ℕ
active_where test s now =
    keep (λ r. not (is_expired (s.heap r) now) && test (s.heap r)) (values s.locks)

unfoldable pub find_conflicts : LockStore → SemanticTarget → ℕ → List ℕ
unfolding active_where
find_conflicts s target now = active_where (λ l. overlaps l.target target) s now

unfoldable pub list_locks : LockStore → ℕ → List ℕ
unfolding active_where
list_locks s now = active_where (λ l. true) s now

unfoldable pub list_by_holder : LockStore → String → ℕ → List ℕ
unfolding active_where
list_by_holder s holder now = active_where (λ l. str_eq l.holder_id holder) s now

unfoldable pub count : LockStore → ℕ → ℕ
unfolding list_locks
count s now = length (list_locks s now)

-- The body of the range loop of `cleanupExpired`: it appends to the history without the limit.
unfoldable pub cleanup_entry : ℕ → LockStore → String × ℕ → LockStore
unfolding drop_lock history_entry
cleanup_entry now s (id, r) =
    if is_expired (s.heap r) now
    then record (drop_lock s id r) {
      history = s.history ++ history_entry "expired" (s.heap r) now ∷ [];
    }
    else s

pub cleanup_entries : ℕ → List (String × ℕ) → LockStore → LockStore
cleanup_entries now [] s = s
cleanup_entries now (e ∷ es) s = cleanup_entries now es (cleanup_entry now s e)

-- One tick of the cleanup goroutine.
unfoldable pub cleanup_expired : LockStore → ℕ → LockStore
unfolding cleanup_entries cleanup_entry
cleanup_expired s now = cleanup_entries now s.locks s

-- A limit out of range stands for the whole history.
unfoldable pub history_limit : ℤ → ℕ → ℕ
history_limit (pos limit) n = if limit == 0 then n else if ltb n limit then n else limit
history_limit (negsuc limit) n = n

unfoldable pub get_history : LockStore → ℤ → List HistoryEntry
unfolding history_limit
get_history s limit =
    let n = history_limit limit (length s.history) in
    reverse (drop (length s.history - n) s.history)
