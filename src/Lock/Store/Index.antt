-- ===== src/Lock/Store/Index.antt =====
-- The index by target of src/domain/lock/store.go.
use agent_collab.Common.{
  ℕ, String, ◌≡◌, sym, inl, inr, true, false, some, none, List, [], ◌∷◌, ok, err, arith, subst, In,
  eq_refl,
}
use agent_collab.Common.Dict.{lookup, lookup-insert, lookup-delete, lookup-In}
use agent_collab.Lock.Target.{target_id, lock_not_found}
use agent_collab.Lock.Semantic.{is_expired}
use agent_collab.Lock.Store.{
  LockStore, add, get, get_by_target, live_at, target_is_taken, drop_lock, cleanup_entry,
  cleanup_entries, cleanup_expired,
}
use agent_collab.Lock.Store.Valid.{IsStore}
use agent_collab.Lock.Store.Exclusion.{Live, cleanup_expired-heap}
use agent_collab.Lock.Store.Laws.{add-locks, cleanup_expired-lookup, cleanup_entry-heap}

-- What `add` binds.
pub add-bound :
    (s : LockStore) (r now : ℕ) (s' : LockStore)
    → add s r now ≡ ok s'
    → (s'.heap ≡ s.heap)
      × (lookup (s.heap r).id s'.locks ≡ some r)
      × (lookup (target_id (s.heap r).target) s'.by_target ≡ some (s.heap r).id)
add-bound s r now s' added =
    let (h, _, m, b, _) = add-locks s r now s' added in
    let id = (s.heap r).id in
    let t = target_id (s.heap r).target in
    (
      h,
      ground (arith, m, lookup-insert id id r s.locks, eq_refl id),
      ground (arith, b, lookup-insert t t id s.by_target, eq_refl t),
    )

-- A binding of the index that leads to a live lock takes the target.
pub taken_of_live :
    (s : LockStore) (t i : String) (r now : ℕ)
    → lookup t s.by_target ≡ some i
    → lookup i s.locks ≡ some r
    → is_expired (s.heap r) now ≡ false
    → target_is_taken s t now ≡ true
unfolding target_is_taken
taken_of_live s t i r now b m live = ground arith

-- The sweep of a lock that has run out unbinds its target, whoever the index led to.
delete_stays :
    (now : ℕ) (s : LockStore) (t : String) (id : String) (r : ℕ)
    → lookup t s.by_target ≡ none
    → lookup t (cleanup_entry now s (id, r)).by_target ≡ none
unfolding cleanup_entry drop_lock
delete_stays now s t id r e =
    ground (arith, lookup-delete (target_id (s.heap r).target) t s.by_target)

swept_stays :
    (now : ℕ) (es : List (String × ℕ)) (s : LockStore) (t : String)
    → lookup t s.by_target ≡ none
    → lookup t (cleanup_entries now es s).by_target ≡ none
unfolding cleanup_entries
swept_stays now [] s t e = e
swept_stays now ((id, r) ∷ es) s t e =
    swept_stays now es (cleanup_entry now s (id, r)) t (delete_stays now s t id r e)

entry_unbinds :
    (now : ℕ) (s : LockStore) (i : String) (r : ℕ)
    → is_expired (s.heap r) now ≡ true
    → lookup (target_id (s.heap r).target) (cleanup_entry now s (i, r)).by_target ≡ none
unfolding cleanup_entry drop_lock
entry_unbinds now s i r dead =
    let t = target_id (s.heap r).target in ground (arith, lookup-delete t t s.by_target, eq_refl t)

sweep_unbinds :
    (now : ℕ) (es : List (String × ℕ)) (s : LockStore) (i : String) (r : ℕ)
    → In (i, r) es
    → is_expired (s.heap r) now ≡ true
    → lookup (target_id (s.heap r).target) (cleanup_entries now es s).by_target ≡ none
unfolding cleanup_entries
sweep_unbinds now [] s i r m dead = elim m [ ]
sweep_unbinds now ((j, q) ∷ es) s i r (inl e) dead =
    swept_stays now es (cleanup_entry now s (j, q)) (target_id (s.heap r).target) (
      subst
        (λ (x : String × ℕ).
          lookup (target_id (s.heap r).target) (cleanup_entry now s x).by_target ≡ none)
        e (entry_unbinds now s i r dead))
sweep_unbinds now ((j, q) ∷ es) s i r (inr m) dead =
    let s' = cleanup_entry now s (j, q) in
    let h = cleanup_entry-heap now s (j, q) in
    subst (λ k. lookup (target_id (k r).target) (cleanup_entries now es s').by_target ≡ none) h
      (sweep_unbinds now es s' i r m (subst (λ k. is_expired (k r) now ≡ true) (sym h) dead))

-- In a well-formed store that holds a lock that has run out and a live one whose target has the
-- same identifier, the sweep takes the live lock out of the index: it is still found under its
-- identifier, and no longer under its target.
pub get_by_target-cleanup_expired :
    (s : LockStore) (now : ℕ) (i j : String) (r q : ℕ)
    → IsStore s
    → lookup i s.locks ≡ some r
    → is_expired (s.heap r) now ≡ true
    → Live s now j q
    → target_id (s.heap r).target ≡ target_id (s.heap q).target
    → (get (cleanup_expired s now) j now ≡ ok q)
      × (get_by_target (cleanup_expired s now) (s.heap q).target now ≡ err lock_not_found)
unfolding get get_by_target live_at cleanup_expired cleanup_entries
get_by_target-cleanup_expired s now i j r q v old dead live same = (
  ground (arith, live, cleanup_expired-heap s now, cleanup_expired-lookup s now j v.distinct),
  rw (unbound, get_by_target),
)
  where
    unbound : lookup (target_id (s.heap q).target) (cleanup_expired s now).by_target ≡ none
    unbound =
        subst (λ t. lookup t (cleanup_expired s now).by_target ≡ none) same
          (sweep_unbinds now s.locks s i r (lookup-In i r s.locks old) dead)
