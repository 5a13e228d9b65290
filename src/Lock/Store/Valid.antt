-- ===== src/Lock/Store/Valid.antt =====
-- The well-formedness of the store of src/domain/lock/store.go, and that each operation keeps it.
use agent_collab.Common.{
  ℕ, ◌<◌, String, ◌≡◌, refl, sym, subst, eq_iff, some, List, [], ◌∷◌, ok, arith,
}
use agent_collab.Common.Dict.{
  lookup, IsDict, lookup-insert, lookup-delete, insert-IsDict, delete-IsDict,
}
use agent_collab.Lock.Semantic.{SemanticLock}
use agent_collab.Lock.Store.{
  LockStore, write, alloc, add, remove, drop_lock, cleanup_entry, cleanup_entries, cleanup_expired,
}
use agent_collab.Lock.Store.Laws.{add-locks, remove-locks}

-- The store's map is a map, a lock stands under its own identifier, at an address in use.
pub record IsStore (s : LockStore) : Type 0 where
  pub distinct : IsDict s.locks
  pub keyed : (i : String) (r : ℕ) → lookup i s.locks ≡ some r → (s.heap r).id ≡ i
  pub allocated : (i : String) (r : ℕ) → lookup i s.locks ≡ some r → r < s.next

-- A store with the same heap, and a map that binds less.
pub IsStore-shrink :
    (s s' : LockStore)
    → s'.heap ≡ s.heap
    → s'.next ≡ s.next
    → IsDict s'.locks
    → ((i : String) (r : ℕ) → lookup i s'.locks ≡ some r → lookup i s.locks ≡ some r)
    → IsStore s
    → IsStore s'
IsStore-shrink s s' h n d sub v = record {
  distinct = d;
  keyed = λ i r e. subst (λ k. (k r).id ≡ i) (sym h) (v.keyed i r (sub i r e));
  allocated = λ i r e. subst (λ k. r < k) (sym n) (v.allocated i r (sub i r e));
}

pub alloc-IsStore : (s : LockStore) (l : SemanticLock) → IsStore s → IsStore (alloc l s).0
unfolding alloc
alloc-IsStore s l v = record {
  distinct = v.distinct;
  keyed = λ i r e. ground (arith, v.keyed i r e, v.allocated i r e);
  allocated = λ i r e. ground (arith, v.allocated i r e);
}

pub add-IsStore :
    (s : LockStore) (r now : ℕ) (s' : LockStore)
    → r < s.next
    → add s r now ≡ ok s'
    → IsStore s
    → IsStore s'
add-IsStore s r now s' used added v =
    let (h, n, m, _, _) = add-locks s r now s' added in
    record {
      distinct = subst IsDict (sym m) (insert-IsDict (s.heap r).id r s.locks v.distinct);
      keyed = λ i p e.
          subst (λ k. (k p).id ≡ i) (sym h)
            (ground (
              arith,
              subst (λ k. lookup i k ≡ some p) m e,
              lookup-insert (s.heap r).id i r s.locks,
              eq_iff (s.heap r).id i,
              v.keyed i p,
            ));
      allocated = λ i p e.
          subst (λ k. p < k) (sym n)
            (ground (
              arith,
              used,
              subst (λ k. lookup i k ≡ some p) m e,
              lookup-insert (s.heap r).id i r s.locks,
              v.allocated i p,
            ));
    }

pub remove-IsStore :
    (s : LockStore) (id : String) (now : ℕ) (s' : LockStore)
    → remove s id now ≡ ok s'
    → IsStore s
    → IsStore s'
remove-IsStore s id now s' h v =
    let (e, n, m) = remove-locks s id now s' h in
    IsStore-shrink s s' e n (subst IsDict (sym m) (delete-IsDict id s.locks v.distinct))
      (λ i r b. ground (arith, m, b, lookup-delete id i s.locks)) v

drop_lock-IsStore : (s : LockStore) (id : String) (r : ℕ) → IsStore s → IsStore (drop_lock s id r)
unfolding drop_lock
drop_lock-IsStore s id r v =
    IsStore-shrink s (drop_lock s id r) refl refl (delete-IsDict id s.locks v.distinct)
      (λ i q b. ground (arith, b, lookup-delete id i s.locks)) v

cleanup_entry-IsStore :
    (now : ℕ) (s : LockStore) (id : String) (r : ℕ)
    → IsStore s
    → IsStore (cleanup_entry now s (id, r))
unfolding cleanup_entry drop_lock
cleanup_entry-IsStore now s id r v =
    IsStore-shrink s (cleanup_entry now s (id, r)) (ground arith) (ground arith)
      (ground (arith, v.distinct, delete-IsDict id s.locks v.distinct))
      (λ i q b. ground (arith, b, lookup-delete id i s.locks)) v

cleanup_entries-IsStore :
    (now : ℕ) (es : List (String × ℕ)) (s : LockStore)
    → IsStore s
    → IsStore (cleanup_entries now es s)
unfolding cleanup_entries
cleanup_entries-IsStore now [] s v = v
cleanup_entries-IsStore now ((id, r) ∷ es) s v =
    cleanup_entries-IsStore now es (cleanup_entry now s (id, r))
      (cleanup_entry-IsStore now s id r v)

pub cleanup_expired-IsStore :
    (s : LockStore) (now : ℕ) → IsStore s → IsStore (cleanup_expired s now)
unfolding cleanup_expired
cleanup_expired-IsStore s now v = cleanup_entries-IsStore now s.locks s v

-- A write through a pointer that keeps the lock's identifier.
pub write-IsStore :
    (s : LockStore) (r : ℕ) (l : SemanticLock)
    → l.id ≡ (s.heap r).id
    → IsStore s
    → IsStore (record s { heap = write s.heap r l })
write-IsStore s r l same v = record {
  distinct = v.distinct;
  keyed = λ i p e. ground (arith, v.keyed i p e);
  allocated = v.allocated;
}
