-- ===== src/Lock/Recovery/Reconciled.antt =====
-- What a finished recovery leaves (src/domain/lock/recovery.go).
use agent_collab.Common.{
  ℕ, ◌+◌, ◌<◌, String, ◌≡◌, ◌≢◌, refl, sym, subst, inl, inr, ◌⊎◌, true, false, not, none, List, [],
  ◌∷◌, ◌++◌, length, length-append, arith, ok, err, Option-cases, Bool-cases, In, In-keep, ◌&&◌,
  if◌then◌else◌,
}
use agent_collab.Common.Dict.{Dict, lookup, values, lookup-In-values}
use agent_collab.Lock.Target.{overlaps, target_id, SemanticTarget}
use agent_collab.Lock.Semantic.{is_expired}
use agent_collab.Lock.Store.{LockStore, find_conflicts, active_where, list_locks, remove}
use agent_collab.Lock.Store.Valid.{IsStore}
use agent_collab.Lock.Store.Exclusion.{Live, IsExclusive, find_conflicts-IsClear}
use agent_collab.Lock.Negotiator.{or_same}
use agent_collab.Lock.Negotiator.Proposals.{take_over}
use agent_collab.Lock.Negotiator.Takeover.{
  admitted-IsExclusive, take_over-IsExclusive, take_over_breach,
}
use agent_collab.Lock.Recovery.Agreement.{
  Before, not_Before, resolve_overlap-keeps, resolve_overlap-yields, take_over-heap,
}
use agent_collab.Lock.Recovery.{
  RecoveryManager, RecoveryConflict, RecoveryResult, Progress, note_conflict,
  resolve_fencing_conflict, resolve_overlap_conflict, resolve_overlaps, reconcile_new,
  reconcile_same, reconcile, reconcile_all, drop_released, finish_recovery, no_result,
  not_in_recovery, map_by_id,
}

-- Every conflict of a result was counted once.
abbrev IsCounted : RecoveryResult → Type 0
IsCounted r = r.conflicts_resolved + r.conflicts_escalated ≡ length r.conflicts

note_conflict-IsCounted :
    (r : RecoveryResult) (c : RecoveryConflict) → IsCounted r → IsCounted (note_conflict r c)
unfolding note_conflict
note_conflict-IsCounted r c h = ground (arith, h, length-append r.conflicts (c ∷ []))

resolve_overlaps-IsCounted :
    (node : String) (remote : ℕ) (locals : List ℕ) (now : ℕ) (p : Progress)
    → IsCounted p.result
    → IsCounted (resolve_overlaps node remote locals now p).result
unfolding resolve_overlaps
resolve_overlaps-IsCounted node remote [] now p h = h
resolve_overlaps-IsCounted node remote (local ∷ locals) now p h =
    let (s, c) = resolve_overlap_conflict p.store node local remote now in
    resolve_overlaps-IsCounted node remote locals now
      (record { store = s; result = note_conflict p.result c })
      (note_conflict-IsCounted p.result c h)

reconcile_new-IsCounted :
    (node : String) (remote now : ℕ) (p : Progress)
    → IsCounted p.result
    → IsCounted (reconcile_new node remote now p).result
unfolding reconcile_new
reconcile_new-IsCounted node remote now p h =
    go (find_conflicts p.store (p.store.heap remote).target now) refl
  where
    go :
        (found : List ℕ)
        → find_conflicts p.store (p.store.heap remote).target now ≡ found
        → IsCounted (reconcile_new node remote now p).result
    go [] e = rw (e, reconcile_new) h
    go (local ∷ locals) e =
        rw (e, reconcile_new) (resolve_overlaps-IsCounted node remote (local ∷ locals) now p h)

reconcile_same-IsCounted :
    (local remote now : ℕ) (p : Progress)
    → IsCounted p.result
    → IsCounted (reconcile_same local remote now p).result
unfolding reconcile_same
reconcile_same-IsCounted local remote now p h = ground (
  arith,
  h,
  note_conflict-IsCounted p.result (resolve_fencing_conflict p.store local remote now).1 h,
)

reconcile-IsCounted :
    (m : Dict ℕ) (node : String) (remote now : ℕ) (p : Progress)
    → IsCounted p.result
    → IsCounted (reconcile m node remote now p).result
unfolding reconcile
reconcile-IsCounted m node remote now p h =
    elim (Bool-cases (is_expired (p.store.heap remote) now)) [
      | inl y ↦ rw (y, reconcile) h
      | inr n ↦ elim (Option-cases (lookup (p.store.heap remote).id m)) [
        | inl e ↦ rw (n, e, reconcile) (reconcile_new-IsCounted node remote now p h)
        | inr (local, e) ↦ rw (n, e, reconcile) (reconcile_same-IsCounted local remote now p h)
      ]
    ]

reconcile_all-IsCounted :
    (m : Dict ℕ) (node : String) (rs : List ℕ) (now : ℕ) (p : Progress)
    → IsCounted p.result
    → IsCounted (reconcile_all m node rs now p).result
unfolding reconcile_all
reconcile_all-IsCounted m node [] now p h = h
reconcile_all-IsCounted m node (r ∷ rs) now p h =
    reconcile_all-IsCounted m node rs now (reconcile m node r now p)
      (reconcile-IsCounted m node r now p h)

drop_released-IsCounted :
    (rm : RecoveryManager) (es : List (String × ℕ)) (now : ℕ) (p : Progress)
    → IsCounted p.result
    → IsCounted (drop_released rm es now p).result
unfolding drop_released
drop_released-IsCounted rm [] now p h = h
drop_released-IsCounted rm ((id, r) ∷ rest) now p h = ground (
  arith,
  drop_released-IsCounted rm rest now p h,
  drop_released-IsCounted rm rest now
      (record {
        store = or_same p.store (remove p.store id now);
        result = record p.result { locks_removed = p.result.locks_removed + 1 };
      })
      h,
)

-- A recovery that is finished is over, its result counts each conflict either as resolved or as
-- escalated, and none is finished that was not started.
pub finish_recovery-counts :
    (rm : RecoveryManager) (now : ℕ)
    → (rm.in_recovery ≡ false → finish_recovery rm now ≡ err not_in_recovery)
      × (rm.in_recovery ≡ true
          → (rm' : RecoveryManager) × (result : RecoveryResult) × (finish_recovery rm now
              ≡ ok (rm', result))
            × (rm'.in_recovery ≡ false)
            × (result.conflicts_resolved + result.conflicts_escalated ≡ length result.conflicts))
unfolding finish_recovery
finish_recovery-counts rm now = (
  (λ e. rw (e, finish_recovery) refl),
  (λ e.
      let m = map_by_id rm.store [] (list_locks rm.store now) in
      let start : Progress = record { store = rm.store; result = no_result } in
      let p = reconcile_all m rm.node_id (values rm.remote_locks) now start in
      let q = drop_released rm m now p in
      (
        record rm {
          store = q.store;
          in_recovery = false;
          notified =
              if rm.has_conflict_handler then rm.notified ++ q.result.conflicts else rm.notified;
        },
        q.result,
        rw (e, finish_recovery) refl,
        refl,
        drop_released-IsCounted rm m now p
            (reconcile_all-IsCounted m rm.node_id (values rm.remote_locks) now start refl),
      )),
)

-- The live locks that a search found alone.
find_conflicts-sole :
    (s : LockStore) (t : SemanticTarget) (now local : ℕ) (i : String) (p : ℕ)
    → IsStore s
    → find_conflicts s t now ≡ local ∷ []
    → Live s now i p
    → i ≢ (s.heap local).id
    → overlaps (s.heap p).target t ≡ false
unfolding find_conflicts active_where
find_conflicts-sole s t now local i p v e a other =
    elim (Bool-cases (overlaps (s.heap p).target t)) [
      | inr n ↦ n
      | inl y ↦
          let found : In p (find_conflicts s t now) =
            In-keep (λ (q : ℕ). not (is_expired (s.heap q) now) && overlaps (s.heap q).target t) p
              (values s.locks) (lookup-In-values i p s.locks a.bound)
              (ground (arith, a.fresh, y)) in
          let same : In p (local ∷ []) = subst (λ k. In p k) e found in
          absurd (other (ground (arith, same, v.keyed i p a.bound)))
    ]

-- In a well-formed store without overlapping live locks, a peer's live lock that is new here, and
-- that overlaps at most one live lock of the store, leaves the store without overlapping live
-- locks, whichever of the two stays.
pub reconcile_new-IsExclusive :
    (node : String) (remote local now : ℕ) (p : Progress)
    → (find_conflicts p.store (p.store.heap remote).target now ≡ [])
      ⊎ (find_conflicts p.store (p.store.heap remote).target now ≡ local ∷ [])
    → IsStore p.store
    → IsExclusive p.store now
    → IsExclusive (reconcile_new node remote now p).store now
unfolding reconcile_new resolve_overlaps resolve_overlap_conflict
reconcile_new-IsExclusive node remote local now p (inl e) v ex =
    rw (e, reconcile_new)
      (admitted-IsExclusive p.store remote now
        (find_conflicts-IsClear p.store (p.store.heap remote).target now e) ex)
reconcile_new-IsExclusive node remote local now p (inr e) v ex =
    rw (e, reconcile_new)
      (ground (
        arith,
        ex,
        take_over-IsExclusive p.store local remote now
            (λ i q a other.
              find_conflicts-sole p.store (p.store.heap remote).target now local i q v e a other)
            ex,
      ))

-- A peer's lock that overlaps two locks, an own one that is younger and another one that is older,
-- is added beside the older one.
pub reconcile_new_breach :
    (node : String) (remote local other now : ℕ) (p : Progress) (i : String)
    → find_conflicts p.store (p.store.heap remote).target now ≡ local ∷ other ∷ []
    → (p.store.heap remote).acquired_at < (p.store.heap local).acquired_at
    → (p.store.heap local).holder_id ≡ node
    → (p.store.heap other).acquired_at < (p.store.heap remote).acquired_at
    → Live p.store now i other
    → i ≢ (p.store.heap local).id
    → i ≢ (p.store.heap remote).id
    → overlaps (p.store.heap other).target (p.store.heap remote).target ≡ true
    → is_expired (p.store.heap remote) now ≡ false
    → lookup (target_id (p.store.heap remote).target) p.store.by_target ≡ none
    → ¬ IsExclusive (reconcile_new node remote now p).store now
unfolding reconcile_new resolve_overlaps
reconcile_new_breach node remote local other now p i found younger own older a apart new clash fresh
      free =
    let s = p.store in
    let s' = take_over s local remote now in
    let first : (resolve_overlap_conflict s node local remote now).0 ≡ s' =
      resolve_overlap-yields s node local remote now own (inl younger) in
    let second : (resolve_overlap_conflict s' node other remote now).0 ≡ s' =
      resolve_overlap-keeps s' node other remote now (
        subst (λ h. ¬ Before (h remote) (h other)) (sym (take_over-heap s local remote now))
          (not_Before (s.heap other) (s.heap remote) (inl older))) in
    let left : (reconcile_new node remote now p).store ≡ s' =
      rw (found, reconcile_new) (rw (first, resolve_overlaps) second) in
    subst (λ k. ¬ IsExclusive k now) (sym left)
      (take_over_breach s local remote now i other a apart new clash fresh free)
