-- ===== src/Lock/Store/Holding.antt =====
-- How long the store of src/domain/lock/store.go finds a lock that was added to it.
use agent_collab.Common.{
  ℕ, String, ◌≡◌, ◌≢◌, refl, sym, ◌∙◌, subst, ap, inl, inr, true, false, some, List, [], ◌∷◌,
  Result, ok, err, arith, In, eq_iff, Result-cases, Option-cases, Bool-cases,
}
use agent_collab.Common.Dict.{
  lookup, insert, IsDict, lookup-insert, lookup-delete, insert-IsDict, delete-IsDict, In-lookup,
}
use agent_collab.Lock.Target.{Error, target_id, lock_conflict}
use agent_collab.Lock.Semantic.{SemanticLock, is_expired}
use agent_collab.Lock.Store.{
  LockStore, add, remove, get, get_by_target, live_at, drop_lock, add_history, cleanup_entry,
  cleanup_entries, cleanup_expired,
}
use agent_collab.Lock.Store.Laws.{add-locks}
use agent_collab.Lock.Store.Index.{add-bound, taken_of_live}

-- The calls that change a store. An `add` that fails leaves it as it was, and so does a `remove`.
pub data StoreCall : Type 0 where
  adds : ℕ → StoreCall
  removes : String → StoreCall
  sweeps : StoreCall

abbrev left_by : LockStore → Result Error LockStore → LockStore
left_by s (ok s') = s'
left_by s (err e) = s

abbrev pub after : LockStore → ℕ → StoreCall → LockStore
after s now (adds r) = left_by s (add s r now)
after s now (removes id) = left_by s (remove s id now)
after s now sweeps = cleanup_expired s now

unfoldable pub after_calls : LockStore → List (ℕ × StoreCall) → LockStore
after_calls s [] = s
after_calls s ((now, c) ∷ cs) = after_calls (after s now c) cs

-- A call that neither adds a lock under the identifier of the lock at an address, nor removes it.
abbrev Apart : (ℕ → SemanticLock) → ℕ → StoreCall → Type 0
Apart heap r (adds q) = (heap q).id ≢ (heap r).id
Apart heap r (removes id) = id ≢ (heap r).id
Apart heap r sweeps = Unit

-- The calls come while the lock is live, and leave it alone.
abbrev pub Spare : (ℕ → SemanticLock) → ℕ → List (ℕ × StoreCall) → Type 0
Spare heap r [] = Unit
Spare heap r ((now, c) ∷ cs) = (is_expired (heap r) now ≡ false) × Apart heap r c × Spare heap r cs

-- The store with a heap binds a lock under its identifier and its target's, and no other lock of
-- that target.
record Holds (heap : ℕ → SemanticLock) (r : ℕ) (s : LockStore) : Type 0 where
  same : s.heap ≡ heap
  distinct : IsDict s.locks
  bound : lookup (heap r).id s.locks ≡ some r
  indexed : lookup (target_id (heap r).target) s.by_target ≡ some (heap r).id
  sole :
      (i : String) (q : ℕ)
      → lookup i s.locks ≡ some q
      → target_id (heap q).target ≡ target_id (heap r).target
      → i ≡ (heap r).id

-- The target of a lock that is held and live is taken.
refused :
    (heap : ℕ → SemanticLock) (r : ℕ) (s : LockStore) (q now : ℕ)
    → Holds heap r s
    → is_expired (heap r) now ≡ false
    → target_id (heap q).target ≡ target_id (heap r).target
    → add s q now ≡ err lock_conflict
unfolding add
refused heap r s q now v live e =
    let live' = subst (λ k. is_expired (k r) now ≡ false) (sym v.same) live in
    let e' : target_id (s.heap q).target ≡ target_id (heap r).target =
      subst (λ k. target_id (k q).target ≡ target_id (heap r).target) (sym v.same) e in
    rw (e', taken_of_live s (target_id (heap r).target) (heap r).id r now v.indexed v.bound live')

add-Holds :
    (heap : ℕ → SemanticLock) (r : ℕ) (s s' : LockStore) (q now : ℕ)
    → Holds heap r s
    → is_expired (heap r) now ≡ false
    → (heap q).id ≢ (heap r).id
    → add s q now ≡ ok s'
    → Holds heap r s'
add-Holds heap r s s' q now v live other added =
    let (h, _, m, b, _) = add-locks s q now s' added in
    let at_q : s.heap q ≡ heap q = ap (λ k. k q) v.same in
    let m' : s'.locks ≡ insert (heap q).id q s.locks =
      subst (λ (l : SemanticLock). s'.locks ≡ insert l.id q s.locks) at_q m in
    let b' : s'.by_target ≡ insert (target_id (heap q).target) (heap q).id s.by_target =
      subst (λ (l : SemanticLock). s'.by_target ≡ insert (target_id l.target) l.id s.by_target) at_q
        b in
    let apart : target_id (heap q).target ≢ target_id (heap r).target =
      λ e. absurd (ground (arith, added, refused heap r s q now v live e)) in
    record {
      same = h ∙ v.same;
      distinct = subst IsDict (sym m') (insert-IsDict (heap q).id q s.locks v.distinct);
      bound = ground (
        arith,
        m',
        v.bound,
        lookup-insert (heap q).id (heap r).id q s.locks,
        eq_iff (heap q).id (heap r).id,
        other,
      );
      indexed = ground (
        arith,
        b',
        v.indexed,
        lookup-insert (target_id (heap q).target) (target_id (heap r).target) (heap q).id
            s.by_target,
        eq_iff (target_id (heap q).target) (target_id (heap r).target),
        apart,
      );
      sole = λ i p e t.
          ground (arith, m', e, t, apart, lookup-insert (heap q).id i q s.locks, v.sole i p);
    }

-- A store from which another lock of another target is dropped.
dropped-Holds :
    (heap : ℕ → SemanticLock) (r : ℕ) (s : LockStore) (id : String) (p : ℕ)
    → Holds heap r s
    → id ≢ (heap r).id
    → target_id (heap p).target ≢ target_id (heap r).target
    → Holds heap r (drop_lock s id p)
unfolding drop_lock
dropped-Holds heap r s id p v other apart =
    let at_p : s.heap p ≡ heap p = ap (λ k. k p) v.same in
    let apart' =
      subst (λ (l : SemanticLock). target_id l.target ≢ target_id (heap r).target) (sym at_p)
        apart in
    record {
      same = v.same;
      distinct = delete-IsDict id s.locks v.distinct;
      bound =
          ground
            (arith, v.bound, lookup-delete id (heap r).id s.locks, eq_iff id (heap r).id, other);
      indexed = ground (
        arith,
        v.indexed,
        lookup-delete (target_id (s.heap p).target) (target_id (heap r).target) s.by_target,
        eq_iff (target_id (s.heap p).target) (target_id (heap r).target),
        apart',
      );
      sole = λ i q e t. ground (arith, e, t, lookup-delete id i s.locks, v.sole i q);
    }

-- The history does not matter.
Holds-history :
    (heap : ℕ → SemanticLock) (r : ℕ) (s s' : LockStore)
    → s'.heap ≡ s.heap
    → s'.locks ≡ s.locks
    → s'.by_target ≡ s.by_target
    → Holds heap r s
    → Holds heap r s'
Holds-history heap r s s' h m b v = record {
  same = h ∙ v.same;
  distinct = subst IsDict (sym m) v.distinct;
  bound = ap (lookup (heap r).id) m ∙ v.bound;
  indexed = ap (lookup (target_id (heap r).target)) b ∙ v.indexed;
  sole = λ i q e t. v.sole i q (ap (lookup i) (sym m) ∙ e) t;
}

remove-Holds :
    (heap : ℕ → SemanticLock) (r : ℕ) (s s' : LockStore) (id : String) (now : ℕ)
    → Holds heap r s
    → id ≢ (heap r).id
    → remove s id now ≡ ok s'
    → Holds heap r s'
unfolding remove add_history
remove-Holds heap r s s' id now v other removed = elim (Option-cases (lookup id s.locks)) [
  | inl e ↦ absurd (ground arith)
  | inr (p, e) ↦
      Holds-history heap r (drop_lock s id p) s' (ground arith) (ground arith) (ground arith)
        (dropped-Holds heap r s id p v other (λ t. other (v.sole id p e t)))
]

cleanup_entries-Holds :
    (heap : ℕ → SemanticLock) (r now : ℕ) (es : List (String × ℕ)) (s : LockStore)
    → Holds heap r s
    → is_expired (heap r) now ≡ false
    → ((i : String) (p : ℕ)
        → In (i, p) es
        → is_expired (heap p) now ≡ true
        → (i ≢ (heap r).id) × (target_id (heap p).target ≢ target_id (heap r).target))
    → Holds heap r (cleanup_entries now es s)
unfolding cleanup_entries cleanup_entry
cleanup_entries-Holds heap r now [] s v live far = v
cleanup_entries-Holds heap r now ((i, p) ∷ es) s v live far =
    let rest = λ (j : String) (q : ℕ) (m : In (j, q) es). far j q (inr m) in
    let at_p : s.heap p ≡ heap p = ap (λ k. k p) v.same in
    elim (Bool-cases (is_expired (heap p) now)) [
      | inr n ↦
          let n' = subst (λ l. is_expired l now ≡ false) (sym at_p) n in
          rw (n', cleanup_entry) (cleanup_entries-Holds heap r now es s v live rest)
      | inl y ↦
          let y' = subst (λ l. is_expired l now ≡ true) (sym at_p) y in
          let (other, apart) = far i p (inl refl) y in
          cleanup_entries-Holds heap r now es (cleanup_entry now s (i, p))
            (rw (y', cleanup_entry)
              (Holds-history heap r (drop_lock s i p) _ refl refl refl
                (dropped-Holds heap r s i p v other apart)))
            live rest
    ]

cleanup_expired-Holds :
    (heap : ℕ → SemanticLock) (r now : ℕ) (s : LockStore)
    → Holds heap r s
    → is_expired (heap r) now ≡ false
    → Holds heap r (cleanup_expired s now)
unfolding cleanup_expired
cleanup_expired-Holds heap r now s v live =
    cleanup_entries-Holds heap r now s.locks s v live (λ i p m dead.
      let e = In-lookup i p s.locks v.distinct m in
      let other : i ≢ (heap r).id = λ k. ground (arith, e, k, v.bound, dead, live) in
      (other, λ t. other (v.sole i p e t)))

after-Holds :
    (heap : ℕ → SemanticLock) (r now : ℕ) (c : StoreCall) (s : LockStore)
    → Holds heap r s
    → is_expired (heap r) now ≡ false
    → Apart heap r c
    → Holds heap r (after s now c)
after-Holds heap r now (adds q) s v live apart = elim (Result-cases (add s q now)) [
  | inl (s', h) ↦ rw h (add-Holds heap r s s' q now v live apart h)
  | inr (e, h) ↦ rw h v
]
after-Holds heap r now (removes id) s v live apart = elim (Result-cases (remove s id now)) [
  | inl (s', h) ↦ rw h (remove-Holds heap r s s' id now v apart h)
  | inr (e, h) ↦ rw h v
]
after-Holds heap r now sweeps s v live apart = cleanup_expired-Holds heap r now s v live

after_calls-Holds :
    (heap : ℕ → SemanticLock) (r : ℕ) (cs : List (ℕ × StoreCall)) (s : LockStore)
    → Holds heap r s
    → Spare heap r cs
    → Holds heap r (after_calls s cs)
unfolding after_calls
after_calls-Holds heap r [] s v m = v
after_calls-Holds heap r ((now, c) ∷ cs) s v m =
    let (live, apart, rest) = m in
    after_calls-Holds heap r cs (after s now c) (after-Holds heap r now c s v live apart) rest

-- A lock that was added is held through any run of adds under other identifiers, removals of other
-- identifiers and sweeps: as long as it is live at each of these calls and at a later instant,
-- `get` finds it at that instant under its identifier, `get_by_target` finds it under its target,
-- and an `add` of any lock whose target has the same identifier fails with a lock conflict. This
-- holds where the store to which it was added binds each identifier once, and binds no other
-- identifier to a lock whose target has that identifier.
pub add-after_calls :
    (s s' : LockStore) (r now later : ℕ) (cs : List (ℕ × StoreCall))
    → IsDict s.locks
    → ((i : String) (q : ℕ)
        → lookup i s.locks ≡ some q
        → target_id (s.heap q).target ≡ target_id (s.heap r).target
        → i ≡ (s.heap r).id)
    → add s r now ≡ ok s'
    → Spare s.heap r cs
    → is_expired (s.heap r) later ≡ false
    → (get (after_calls s' cs) (s.heap r).id later ≡ ok r)
      × (get_by_target (after_calls s' cs) (s.heap r).target later ≡ ok r)
      × ((q : ℕ)
          → target_id (s.heap q).target ≡ target_id (s.heap r).target
          → add (after_calls s' cs) q later ≡ err lock_conflict)
unfolding get get_by_target live_at
add-after_calls s s' r now later cs d sole added m live =
    let (h, bound, indexed) = add-bound s r now s' added in
    let (_, _, locks, _, _) = add-locks s r now s' added in
    let start : Holds s.heap r s' = record {
      same = h;
      distinct = subst IsDict (sym locks) (insert-IsDict (s.heap r).id r s.locks d);
      bound = bound;
      indexed = indexed;
      sole = λ i q e t. ground (
        arith,
        locks,
        e,
        t,
        lookup-insert (s.heap r).id i r s.locks,
        eq_iff (s.heap r).id i,
        sole i q,
      );
    } in
    let v = after_calls-Holds s.heap r cs s' start m in
    let live' = subst (λ k. is_expired (k r) later ≡ false) (sym v.same) live in
    (
      rw (v.bound, get) (rw live' refl),
      rw (v.indexed, get_by_target) (rw (v.bound, get_by_target) (rw live' refl)),
      λ q e. refused s.heap r (after_calls s' cs) q later v live e,
    )
