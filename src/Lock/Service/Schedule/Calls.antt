-- ===== src/Lock/Service/Schedule/Calls.antt =====
-- Each call of src/domain/lock/service.go keeps the negotiator sound.
use agent_collab.Common.{
  ℕ, suc, String, ◌≡◌, refl, sym, subst, ◌⊎◌, inl, inr, [], ℤ, Result, ok, arith, str_eq, eq_iff,
  Bool-cases, Result-cases,
}
use agent_collab.Lock.Semantic.{SemanticLock, renew, renew_with_ttl}
use agent_collab.Lock.Target.{Error}
use agent_collab.Lock.Store.{LockStore, write, alloc, add, get, remove, find_conflicts}
use agent_collab.Lock.Store.Laws.{add-locks, remove-locks, get-live}
use agent_collab.Lock.Store.Valid.{alloc-IsStore, add-IsStore, remove-IsStore, write-IsStore}
use agent_collab.Lock.Store.Exclusion.{
  find_conflicts-IsClear, alloc-IsClear, IsClear, alloc-IsExclusive, add-IsExclusive,
  remove-IsExclusive, write-IsExclusive,
}
use agent_collab.Lock.Negotiator.{LockNegotiator}
use agent_collab.Lock.Negotiator.Phases.{release_lock as release_phase}
use agent_collab.Lock.Service.{
  LockService, with_store, renew_by, handle_remote_lock_acquired, handle_remote_lock_released,
}
use agent_collab.Lock.Service.Schedule.Invariant.{IsSound, store-IsSound}

-- A release that succeeds finds a live lock that the caller holds, removes it from the store, and
-- leaves the announced intents as they were.
pub release_phase-ok :
    (n n' : LockNegotiator) (id holder : String) (now : ℕ)
    → release_phase n id holder now ≡ ok n'
    → (r : ℕ) × (get n.store id now ≡ ok r)
      × ((n.store.heap r).holder_id ≡ holder)
      × (remove n.store id now ≡ ok n'.store)
      × (n'.intent_queue ≡ n.intent_queue)
unfolding release_phase
release_phase-ok n n' id holder now h = elim (Result-cases (get n.store id now)) [
  | inr (e, g) ↦ absurd (ground arith)
  | inl (r, g) ↦
      (r, g, ground (arith, eq_iff (n.store.heap r).holder_id holder), ground arith, ground arith)
]

pub release-IsSound :
    (n n' : LockNegotiator) (id holder : String) (now : ℕ)
    → release_phase n id holder now ≡ ok n'
    → IsSound n now
    → IsSound n' now
release-IsSound n n' id holder now h v =
    let (r, g, held, gone, queue) = release_phase-ok n n' id holder now h in
    store-IsSound n n' now queue (omega (arith, (remove-locks n.store id now n'.store gone).1))
      (remove-IsStore n.store id now n'.store gone v.valid)
      (remove-IsExclusive n.store id now n'.store gone v.exclusive) v

-- A renewal, of either kind, that succeeds finds a live lock that this node holds, and replaces that
-- lock by the renewed one and nothing else.
pub renew_by-ok :
    (change : SemanticLock → Result Error SemanticLock) (sv sv' : LockService) (id : String)
    (now : ℕ)
    → renew_by change sv id now ≡ ok sv'
    → (r : ℕ) × (l : SemanticLock) × (get sv.negotiator.store id now ≡ ok r)
      × ((sv.negotiator.store.heap r).holder_id ≡ sv.node_id)
      × (change (sv.negotiator.store.heap r) ≡ ok l)
      × (sv'
          ≡ with_store sv
              (record (sv.negotiator.store) { heap = write sv.negotiator.store.heap r l }))
unfolding renew_by
renew_by-ok change sv sv' id now h = elim (Result-cases (get sv.negotiator.store id now)) [
  | inr (e, g) ↦ absurd (ground arith)
  | inl (r, g) ↦ elim (Result-cases (change (sv.negotiator.store.heap r))) [
    | inr (e, c) ↦ absurd (ground arith)
    | inl (l, c) ↦ (
      r,
      l,
      g,
      ground (arith, eq_iff (sv.negotiator.store.heap r).holder_id sv.node_id),
      c,
      ground arith,
    )
  ]
]

-- Both renewals keep a lock's identifier and its target.
abbrev pub KeepsTarget : (SemanticLock → Result Error SemanticLock) → Type 0
KeepsTarget change = (k l : SemanticLock) → change k ≡ ok l → (l.id ≡ k.id) × (l.target ≡ k.target)

pub renew-KeepsTarget : (now : ℕ) → KeepsTarget (λ k. renew k now)
unfolding renew
renew-KeepsTarget now k l h = ground arith

pub renew_with_ttl-KeepsTarget : (ttl : ℤ) (now : ℕ) → KeepsTarget (λ k. renew_with_ttl k ttl now)
unfolding renew_with_ttl
renew_with_ttl-KeepsTarget ttl now k l h = ground arith

pub renew_by-IsSound :
    (change : SemanticLock → Result Error SemanticLock) (sv sv' : LockService) (id : String)
    (now : ℕ)
    → KeepsTarget change
    → renew_by change sv id now ≡ ok sv'
    → IsSound sv.negotiator now
    → IsSound sv'.negotiator now
renew_by-IsSound change sv sv' id now keeps h v =
    let (r, l, g, held, c, e) = renew_by-ok change sv sv' id now h in
    let s = sv.negotiator.store in
    let live = get-live s id now r g in
    let (same, target) = keeps (s.heap r) l c in
    subst (λ (x : LockService). IsSound x.negotiator now) (sym e)
      (store-IsSound sv.negotiator _ now refl (omega arith) (write-IsStore s r l same v.valid)
        (write-IsExclusive s now id r l (record { bound = live.0; fresh = live.1 }) target
          v.exclusive)
        v)

-- The decoded lock stands at the address that `alloc` gives.
alloc_at : (s : LockStore) (l : SemanticLock) → (alloc l s).0.heap (alloc l s).1 ≡ l
unfolding alloc
alloc_at s l = ground arith

pub alloc-next :
    (s : LockStore) (l : SemanticLock)
    → ((alloc l s).0.next ≡ suc s.next) × ((alloc l s).1 ≡ s.next)
unfolding alloc
alloc-next s l = (refl, refl)

pub hears_acquired-IsSound :
    (sv sv' : LockService) (l : SemanticLock) (now : ℕ)
    → find_conflicts sv.negotiator.store l.target now ≡ []
    → handle_remote_lock_acquired sv l now ≡ ok sv'
    → IsSound sv.negotiator now
    → IsSound sv'.negotiator now
unfolding handle_remote_lock_acquired
hears_acquired-IsSound sv sv' l now clear h v =
    let s = sv.negotiator.store in
    let (s0, r) = alloc l s in
    elim (Result-cases (add s0 r now)) [
      | inr (e, a) ↦ absurd (ground arith)
      | inl (s1, a) ↦
          let e : sv' ≡ with_store sv s1 = ground arith in
          let free =
            alloc-IsClear s l l.target now v.valid (find_conflicts-IsClear s l.target now clear) in
          let (up, at) = alloc-next s l in
          subst (λ (x : LockService). IsSound x.negotiator now) (sym e)
            (store-IsSound sv.negotiator _ now refl (omega (arith, (add-locks s0 r now s1 a).1, up))
              (add-IsStore s0 r now s1 (omega (arith, up, at)) a (alloc-IsStore s l v.valid))
              (add-IsExclusive s0 r now s1
                (subst (λ k. IsClear s0 k.target now) (sym (alloc_at s l)) free) a
                (alloc-IsExclusive s l now v.valid v.exclusive))
              v)
    ]

pub hears_released-IsSound :
    (sv sv' : LockService) (id : String) (now : ℕ)
    → handle_remote_lock_released sv id now ≡ ok sv'
    → IsSound sv.negotiator now
    → IsSound sv'.negotiator now
unfolding handle_remote_lock_released
hears_released-IsSound sv sv' id now h v = elim (changed) [
  | inl e ↦ subst (λ (x : LockService). IsSound x.negotiator now) e v
  | inr (s, gone, e) ↦
      subst (λ (x : LockService). IsSound x.negotiator now) (sym e)
        (store-IsSound sv.negotiator _ now refl
          (omega (arith, (remove-locks sv.negotiator.store id now s gone).1))
          (remove-IsStore sv.negotiator.store id now s gone v.valid)
          (remove-IsExclusive sv.negotiator.store id now s gone v.exclusive) v)
]
  where
    changed :
        (sv ≡ sv')
        ⊎ ((s : LockStore) × (remove sv.negotiator.store id now ≡ ok s) × (sv' ≡ with_store sv s))
    changed = elim (Result-cases (get sv.negotiator.store id now)) [
      | inr (e, g) ↦ inl (ground arith)
      | inl (r, g) ↦ elim (Result-cases (remove sv.negotiator.store id now)) [
        | inr (e, a) ↦ inl (ground arith)
        | inl (s, a) ↦
            elim (Bool-cases (str_eq (sv.negotiator.store.heap r).holder_id sv.node_id)) [
              | inl mine ↦ inl (ground arith)
              | inr other ↦ inr (s, a, ground arith)
            ]
      ]
    ]
