-- ===== src/Lock/Store/Laws.antt =====
-- What the operations of src/domain/lock/store.go do to the maps of the store.
use agent_collab.Common.{
  ℕ, String, ◌≡◌, refl, ◌∙◌, false, not, ◌&&◌, str_eq, eq_iff, if◌then◌else◌, Option, none, some,
  List, [], ◌∷◌, keep-nil, ok, arith,
}
use agent_collab.Common.Dict.{
  lookup, insert, delete, values, IsDict, lookup-delete, lookup-In-values,
}
use agent_collab.Lock.Target.{SemanticTarget, target_id, overlaps}
use agent_collab.Lock.Semantic.{SemanticLock, is_expired}
use agent_collab.Lock.Store.{
  LockStore, add_history, target_is_taken, add, live_at, get, drop_lock, remove, active_where,
  find_conflicts, cleanup_entry, cleanup_entries, cleanup_expired,
}

pub overlaps_symm : (t u : SemanticTarget) → overlaps t u ≡ overlaps u t
unfolding overlaps
overlaps_symm t u = ground (arith, eq_iff t.file_path u.file_path, eq_iff u.file_path t.file_path)

-- A successful `add` binds the lock under its identifier and its target's, and touches no other.
pub add-locks :
    (s : LockStore) (r now : ℕ) (s' : LockStore)
    → add s r now ≡ ok s'
    → (s'.heap ≡ s.heap)
      × (s'.next ≡ s.next)
      × (s'.locks ≡ insert (s.heap r).id r s.locks)
      × (s'.by_target ≡ insert (target_id (s.heap r).target) (s.heap r).id s.by_target)
      × (target_is_taken s (target_id (s.heap r).target) now ≡ false)
unfolding add add_history
add-locks s r now s' h = ground arith

pub remove-locks :
    (s : LockStore) (id : String) (now : ℕ) (s' : LockStore)
    → remove s id now ≡ ok s'
    → (s'.heap ≡ s.heap) × (s'.next ≡ s.next) × (s'.locks ≡ delete id s.locks)
unfolding remove add_history drop_lock
remove-locks s id now s' h = ground arith

pub get-live :
    (s : LockStore) (id : String) (now r : ℕ)
    → get s id now ≡ ok r
    → (lookup id s.locks ≡ some r) × (is_expired (s.heap r) now ≡ false)
unfolding get live_at
get-live s id now r h = ground arith

-- No conflict is found: nothing that is live overlaps.
pub find_conflicts-nil :
    (s : LockStore) (t : SemanticTarget) (now : ℕ) (i : String) (r : ℕ)
    → find_conflicts s t now ≡ []
    → lookup i s.locks ≡ some r
    → is_expired (s.heap r) now ≡ false
    → overlaps (s.heap r).target t ≡ false
unfolding find_conflicts active_where
find_conflicts-nil s t now i r e bound live = ground (
  arith,
  keep-nil (λ (q : ℕ). not (is_expired (s.heap q) now) && overlaps (s.heap q).target t) r
      (values s.locks) e (lookup-In-values i r s.locks bound),
)

-- The range loop deletes the entries that have run out, and the heap stays.
pub cleanup_entry-heap :
    (now : ℕ) (s : LockStore) (e : String × ℕ) → (cleanup_entry now s e).heap ≡ s.heap
unfolding cleanup_entry drop_lock
cleanup_entry-heap now s (id, r) = ground arith

pub cleanup_entries-heap :
    (now : ℕ) (es : List (String × ℕ)) (s : LockStore) → (cleanup_entries now es s).heap ≡ s.heap
unfolding cleanup_entries
cleanup_entries-heap now [] s = refl
cleanup_entries-heap now (e ∷ es) s =
    cleanup_entries-heap now es (cleanup_entry now s e) ∙ cleanup_entry-heap now s e

-- What is left of a binding by the sweep.
abbrev pub swept : (ℕ → SemanticLock) → ℕ → Option ℕ → Option ℕ → Option ℕ
swept heap now none kept = kept
swept heap now (some r) kept = if is_expired (heap r) now then none else kept

cleanup_entry-lookup :
    (now : ℕ) (s : LockStore) (id : String) (r : ℕ) (i : String)
    → lookup i (cleanup_entry now s (id, r)).locks
      ≡ (if str_eq id i then swept s.heap now (some r) (lookup i s.locks) else lookup i s.locks)
unfolding cleanup_entry drop_lock
cleanup_entry-lookup now s id r i = ground (arith, lookup-delete id i s.locks)

cleanup_entries-lookup :
    (now : ℕ) (es : List (String × ℕ)) (s : LockStore) (i : String)
    → IsDict es
    → lookup i (cleanup_entries now es s).locks ≡ swept s.heap now (lookup i es) (lookup i s.locks)
unfolding cleanup_entries lookup
cleanup_entries-lookup now [] s i d = refl
cleanup_entries-lookup now ((id, r) ∷ es) s i d = ground (
  arith,
  eq_iff id i,
  cleanup_entries-lookup now es (cleanup_entry now s (id, r)) i d.1,
  cleanup_entry-lookup now s id r i,
  cleanup_entry-heap now s (id, r),
)

-- In a store that binds each identifier once, the sweep unbinds exactly the identifiers whose lock
-- has run out.
pub cleanup_expired-lookup :
    (s : LockStore) (now : ℕ) (i : String)
    → IsDict s.locks
    → lookup i (cleanup_expired s now).locks
      ≡ swept s.heap now (lookup i s.locks) (lookup i s.locks)
unfolding cleanup_expired
cleanup_expired-lookup s now i d = cleanup_entries-lookup now s.locks s i d

cleanup_entry-next :
    (now : ℕ) (s : LockStore) (e : String × ℕ) → (cleanup_entry now s e).next ≡ s.next
unfolding cleanup_entry drop_lock
cleanup_entry-next now s (id, r) = ground arith

cleanup_entries-next :
    (now : ℕ) (es : List (String × ℕ)) (s : LockStore) → (cleanup_entries now es s).next ≡ s.next
unfolding cleanup_entries
cleanup_entries-next now [] s = refl
cleanup_entries-next now (e ∷ es) s =
    cleanup_entries-next now es (cleanup_entry now s e) ∙ cleanup_entry-next now s e

-- The sweep allocates nothing.
pub cleanup_expired-next : (s : LockStore) (now : ℕ) → (cleanup_expired s now).next ≡ s.next
unfolding cleanup_expired
cleanup_expired-next s now = cleanup_entries-next now s.locks s
