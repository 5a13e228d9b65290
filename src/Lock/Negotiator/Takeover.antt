-- ===== src/Lock/Negotiator/Takeover.antt =====
-- What a settlement in favour of the newcomer does to mutual exclusion
-- (src/domain/lock/negotiator.go: yield, priority and vote).
use agent_collab.Common.{
  ℕ, String, ◌≡◌, ◌≢◌, sym, subst, inl, inr, true, false, none, ok, arith, eq_iff, eq_refl, Result,
  str_eq, if◌then◌else◌, Result-cases, Option-cases,
}
use agent_collab.Common.Dict.{lookup, lookup-delete, lookup-insert}
use agent_collab.Lock.Target.{Error, overlaps, target_id}
use agent_collab.Lock.Semantic.{is_expired}
use agent_collab.Lock.Store.{LockStore, add, remove, target_is_taken, add_history, drop_lock}
use agent_collab.Lock.Store.Laws.{add-locks}
use agent_collab.Lock.Store.Exclusion.{
  Live, IsExclusive, IsClear, add-IsExclusive, remove-IsExclusive,
}
use agent_collab.Lock.Negotiator.{or_same}
use agent_collab.Lock.Negotiator.Proposals.{take_over}

-- The store after the first half of a takeover.
unfoldable pub evicted : LockStore → String → ℕ → LockStore
evicted s id now = or_same s (remove s id now)

pub evicted-lookup :
    (s : LockStore) (id : String) (now : ℕ) (i : String)
    → lookup i (evicted s id now).locks ≡ (if str_eq id i then none else lookup i s.locks)
unfolding evicted remove add_history drop_lock
evicted-lookup s id now i = elim (Option-cases (lookup id s.locks)) [
  | inl e ↦ ground (arith, eq_iff id i)
  | inr (r, e) ↦ ground (arith, lookup-delete id i s.locks)
]

pub evicted-heap : (s : LockStore) (id : String) (now : ℕ) → (evicted s id now).heap ≡ s.heap
unfolding evicted remove
evicted-heap s id now = ground arith

evicted-Live :
    (s : LockStore) (id : String) (now : ℕ) (i : String) (p : ℕ)
    → Live (evicted s id now) now i p
    → Live s now i p × (i ≢ id)
evicted-Live s id now i p a = (
  record {
    bound = ground (arith, a.bound, evicted-lookup s id now i);
    fresh = subst (λ h. is_expired (h p) now ≡ false) (evicted-heap s id now) a.fresh;
  },
  λ e. ground (arith, a.bound, evicted-lookup s id now i, eq_iff id i),
)

evicted-IsExclusive :
    (s : LockStore) (id : String) (now : ℕ) → IsExclusive s now → IsExclusive (evicted s id now) now
unfolding evicted
evicted-IsExclusive s id now ex = elim (Result-cases (remove s id now)) [
  | inr (e, h) ↦ rw (h, or_same) ex
  | inl (s', h) ↦ rw (h, or_same) (remove-IsExclusive s id now s' h ex)
]

pub admitted-IsExclusive :
    (s : LockStore) (r now : ℕ)
    → IsClear s (s.heap r).target now
    → IsExclusive s now
    → IsExclusive (or_same s (add s r now)) now
admitted-IsExclusive s r now clear ex = elim (Result-cases (add s r now)) [
  | inr (e, h) ↦ rw (h, or_same) ex
  | inl (s', h) ↦ rw (h, or_same) (add-IsExclusive s r now s' clear h ex)
]

-- A takeover keeps an exclusive store exclusive if the newcomer overlaps no live lock but the loser.
pub take_over-IsExclusive :
    (s : LockStore) (conflicting requested now : ℕ)
    → ((i : String) (p : ℕ)
        → Live s now i p
        → i ≢ (s.heap conflicting).id
        → overlaps (s.heap p).target (s.heap requested).target ≡ false)
    → IsExclusive s now
    → IsExclusive (take_over s conflicting requested now) now
unfolding take_over evicted
take_over-IsExclusive s conflicting requested now sole ex =
    let id = (s.heap conflicting).id in
    let s' = evicted s id now in
    admitted-IsExclusive s' requested now
      (λ i p a.
        let (b, other) = evicted-Live s id now i p a in
        subst (λ h. overlaps (h p).target (h requested).target ≡ false)
          (sym (evicted-heap s id now)) (sole i p b other))
      (evicted-IsExclusive s id now ex)

evicted-by_target :
    (s : LockStore) (id : String) (now : ℕ) (t : String)
    → lookup t s.by_target ≡ none
    → lookup t (evicted s id now).by_target ≡ none
unfolding evicted remove add_history drop_lock
evicted-by_target s id now t h = elim (Option-cases (lookup id s.locks)) [
  | inl e ↦ ground arith
  | inr (r, e) ↦ ground (arith, lookup-delete (target_id (s.heap r).target) t s.by_target)
]

add_free :
    (s : LockStore) (r now : ℕ)
    → lookup (target_id (s.heap r).target) s.by_target ≡ none
    → (s' : LockStore) × (add s r now ≡ ok s')
unfolding add target_is_taken
add_free s r now free = elim (Result-cases (add s r now)) [
  | inl (s', h) ↦ (s', h)
  | inr (e, h) ↦ absurd (ground arith)
]

-- Beside a live lock that it overlaps, an added lock breaks exclusion.
add_breach :
    (s s' : LockStore) (r now : ℕ) (i : String) (p : ℕ)
    → add s r now ≡ ok s'
    → Live s now i p
    → i ≢ (s.heap r).id
    → overlaps (s.heap p).target (s.heap r).target ≡ true
    → is_expired (s.heap r) now ≡ false
    → ¬ IsExclusive s' now
add_breach s s' r now i p added a new clash fresh ex =
    let (h, _, m, _, _) = add-locks s r now s' added in
    let id = (s.heap r).id in
    new (
      ex i id p r
        (record {
          bound = ground (arith, m, a.bound, lookup-insert id i r s.locks, eq_iff id i);
          fresh = subst (λ k. is_expired (k p) now ≡ false) (sym h) a.fresh;
        })
        (record {
          bound = ground (arith, m, lookup-insert id id r s.locks, eq_refl id);
          fresh = subst (λ k. is_expired (k r) now ≡ false) (sym h) fresh;
        })
        (subst (λ k. overlaps (k p).target (k r).target ≡ true) (sym h) clash))

-- A takeover looks at one loser only: where a live newcomer overlaps a live lock other than the
-- loser too, and its own target is not indexed, the store is not exclusive afterwards.
pub take_over_breach :
    (s : LockStore) (conflicting requested now : ℕ) (i : String) (p : ℕ)
    → Live s now i p
    → i ≢ (s.heap conflicting).id
    → i ≢ (s.heap requested).id
    → overlaps (s.heap p).target (s.heap requested).target ≡ true
    → is_expired (s.heap requested) now ≡ false
    → lookup (target_id (s.heap requested).target) s.by_target ≡ none
    → ¬ IsExclusive (take_over s conflicting requested now) now
unfolding take_over evicted
take_over_breach s conflicting requested now i p a other new clash fresh free =
    let id = (s.heap conflicting).id in
    let s1 = evicted s id now in
    let h = evicted-heap s id now in
    let free' =
      subst (λ k. lookup (target_id (k requested).target) s1.by_target ≡ none) (sym h)
        (evicted-by_target s id now (target_id (s.heap requested).target) free) in
    let (s2, added) = add_free s1 requested now free' in
    let b : Live s1 now i p = record {
      bound = ground (arith, a.bound, evicted-lookup s id now i, eq_iff id i, other);
      fresh = subst (λ k. is_expired (k p) now ≡ false) (sym h) a.fresh;
    } in
    let broken =
      add_breach s1 s2 requested now i p added b (subst (λ k. i ≢ (k requested).id) (sym h) new)
        (subst (λ k. overlaps (k p).target (k requested).target ≡ true) (sym h) clash)
        (subst (λ k. is_expired (k requested) now ≡ false) (sym h) fresh) in
    subst (λ (r : Result Error LockStore). ¬ IsExclusive (or_same s1 r) now) (sym added) broken
