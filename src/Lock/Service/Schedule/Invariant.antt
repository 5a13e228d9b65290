-- ===== src/Lock/Service/Schedule/Invariant.antt =====
-- Mutual exclusion along every faithful schedule of calls of src/domain/lock/service.go.
use agent_collab.Common.{
  ℕ, ◌≤◌, ◌<◌, String, ◌≡◌, refl, sym, ap, subst, ◌⊎◌, inl, inr, List, [], ◌∷◌, arith, In, ltb,
  Bool-cases, Option-cases, Result-cases,
}
use agent_collab.Common.Dict.{lookup, delete, lookup-In, In-insert, In-delete}
use agent_collab.Lock.Limiter.{allow}
use agent_collab.Lock.Store.{LockStore, add, find_conflicts}
use agent_collab.Lock.Store.Laws.{add-locks}
use agent_collab.Lock.Store.Valid.{IsStore, add-IsStore}
use agent_collab.Lock.Store.Exclusion.{find_conflicts-IsClear, IsExclusive, add-IsExclusive}
use agent_collab.Lock.Negotiator.{LockNegotiator, LockIntent}
use agent_collab.Lock.Negotiator.Phases.{
  new_intent, announce_intent, announce_checked, acquire_lock, acquire_checked,
}

-- The store is well formed and exclusive, and the intents' locks stand in the heap.
pub record IsSound (n : LockNegotiator) (now : ℕ) : Type 0 where
  pub valid : IsStore n.store
  pub exclusive : IsExclusive n.store now
  pub intents : (i : String) (x : LockIntent) → In (i, x) n.intent_queue → x.lock < n.store.next

announce_checked-store :
    (n : LockNegotiator) (r : ℕ) (cs : List ℕ) (now : ℕ)
    → (announce_checked n r cs now).0.store ≡ n.store
unfolding announce_checked
announce_checked-store n r [] now = refl
announce_checked-store n r (c ∷ cs) now = ground arith

announce_checked-intents :
    (n : LockNegotiator) (r : ℕ) (cs : List ℕ) (now : ℕ) (i : String) (x : LockIntent)
    → In (i, x) (announce_checked n r cs now).0.intent_queue
    → (x.lock ≡ r) ⊎ In (i, x) n.intent_queue
unfolding announce_checked
announce_checked-intents n r [] now i x m =
    elim (In-insert (n.store.heap r).id i (new_intent n r now) x n.intent_queue m) [
      | inl (_, e) ↦ inl (ap (λ (y : LockIntent). y.lock) e)
      | inr old ↦ inr old
    ]
announce_checked-intents n r (c ∷ cs) now i x m = inr (ground arith)

-- A negotiator with the same store, whose queue has no more intents but those of a used address.
queue-IsSound :
    (n n' : LockNegotiator) (now : ℕ)
    → n'.store ≡ n.store
    → ((i : String) (x : LockIntent)
        → In (i, x) n'.intent_queue
        → (x.lock < n.store.next) ⊎ In (i, x) n.intent_queue)
    → IsSound n now
    → IsSound n' now
queue-IsSound n n' now same sub v = record {
  valid = subst IsStore (sym same) v.valid;
  exclusive = subst (λ s. IsExclusive s now) (sym same) v.exclusive;
  intents = λ i x m.
      subst (λ (s : LockStore). x.lock < s.next) (sym same)
        (ground (arith, sub i x m, v.intents i x));
}

announce_checked-IsSound :
    (n : LockNegotiator) (r : ℕ) (cs : List ℕ) (now : ℕ)
    → r < n.store.next
    → IsSound n now
    → IsSound (announce_checked n r cs now).0 now
announce_checked-IsSound n r cs now used =
    queue-IsSound n (announce_checked n r cs now).0 now (announce_checked-store n r cs now)
      λ i x m. ground (arith, announce_checked-intents n r cs now i x m)

pub announce_intent-IsSound :
    (n : LockNegotiator) (r now : ℕ)
    → r < n.store.next
    → IsSound n now
    → IsSound (announce_intent n r now).0 now
unfolding announce_intent
announce_intent-IsSound n r now used v =
    let l = n.store.heap r in
    let (limiter, passed) = allow n.rate_limiter l.holder_id now in
    let n' = record n { rate_limiter = limiter } in
    let v' = queue-IsSound n n' now refl (λ i x m. inr m) v in
    elim (Bool-cases passed) [
      | inl e ↦
          rw (e, announce_intent)
            (announce_checked-IsSound n' r (find_conflicts n.store l.target now) now used v')
      | inr e ↦ rw (e, announce_intent) v'
    ]

drop_intent-IsSound :
    (n n' : LockNegotiator) (id : String) (now : ℕ)
    → n'.store ≡ n.store
    → n'.intent_queue ≡ delete id n.intent_queue
    → IsSound n now
    → IsSound n' now
drop_intent-IsSound n n' id now same e =
    queue-IsSound n n' now same
      λ i x m. inr (In-delete id i x n.intent_queue (subst (In (i, x)) e m))

-- The second phase adds the intent's lock only when it overlaps no live lock.
acquire_checked-IsSound :
    (n : LockNegotiator) (x : LockIntent) (id : String) (cs : List ℕ) (now : ℕ)
    → x.lock < n.store.next
    → find_conflicts n.store (n.store.heap x.lock).target now ≡ cs
    → IsSound n now
    → IsSound (acquire_checked n x id cs now).0 now
unfolding acquire_checked
acquire_checked-IsSound n x id (c ∷ cs) now used clear v =
    drop_intent-IsSound n _ id now refl refl v
acquire_checked-IsSound n x id [] now used clear v = elim (Result-cases (add n.store x.lock now)) [
  | inr (e, h) ↦ rw (h, acquire_checked) (drop_intent-IsSound n _ id now refl refl v)
  | inl (s, h) ↦
      rw (h, acquire_checked)
        (record {
          valid = add-IsStore n.store x.lock now s used h v.valid;
          exclusive =
              add-IsExclusive n.store x.lock now s (find_conflicts-IsClear n.store _ now clear) h
                v.exclusive;
          intents = λ i y m.
              subst (λ k. y.lock < k) (sym (add-locks n.store x.lock now s h).1)
                (v.intents i y (In-delete id i y n.intent_queue m));
        })
]

pub acquire_lock-IsSound :
    (n : LockNegotiator) (id : String) (now : ℕ)
    → IsSound n now
    → IsSound (acquire_lock n id now).0 now
unfolding acquire_lock
acquire_lock-IsSound n id now v = elim (Option-cases (lookup id n.intent_queue)) [
  | inl e ↦ rw (e, acquire_lock) v
  | inr (x, e) ↦ elim (Bool-cases (ltb x.expires_at now)) [
    | inl late ↦ rw (e, acquire_lock) (rw late (drop_intent-IsSound n _ id now refl refl v))
    | inr timely ↦
        rw (e, acquire_lock)
          (rw timely (
            acquire_checked-IsSound n x id (find_conflicts n.store (n.store.heap x.lock).target now)
              now (v.intents id x (lookup-In id x n.intent_queue e)) refl v))
  ]
]

-- A new store that is sound, with no fewer addresses.
pub store-IsSound :
    (n n' : LockNegotiator) (now : ℕ)
    → n'.intent_queue ≡ n.intent_queue
    → n.store.next ≤ n'.store.next
    → IsStore n'.store
    → IsExclusive n'.store now
    → IsSound n now
    → IsSound n' now
store-IsSound n n' now same grown valid exclusive v = record {
  valid = valid;
  exclusive = exclusive;
  intents = λ i x m. omega (arith, v.intents i x (subst (In (i, x)) same m));
}
