-- ===== src/Lock/Recovery/Agreement.antt =====
-- Whether two nodes that meet after a partition keep the same lock (src/domain/lock/recovery.go).
use agent_collab.Common.{
  ℕ, ◌<◌, String, ◌≡◌, ◌≢◌, sym, subst, ◌∙◌, ◌⊎◌, inl, inr, none, some, arith, eq_iff, eq_refl,
  Result-cases,
}
use agent_collab.Common.Dict.{lookup, lookup-insert}
use agent_collab.Lock.Semantic.{SemanticLock}
use agent_collab.Lock.Store.{LockStore, add}
use agent_collab.Lock.Store.Laws.{add-locks}
use agent_collab.Lock.Negotiator.Proposals.{take_over}
use agent_collab.Lock.Negotiator.Takeover.{evicted, evicted-lookup, evicted-heap}
use agent_collab.Lock.Recovery.{resolve_overlap_conflict}

-- A takeover unbinds the lock that loses.
pub take_over-loser :
    (s : LockStore) (local remote now : ℕ)
    → (s.heap local).id ≢ (s.heap remote).id
    → lookup (s.heap local).id (take_over s local remote now).locks ≡ none
unfolding take_over evicted
take_over-loser s local remote now apart =
    let id = (s.heap local).id in
    let s' = evicted s id now in
    let gone : lookup id s'.locks ≡ none = ground (arith, evicted-lookup s id now id, eq_refl id) in
    let apart' : (s'.heap remote).id ≢ id =
      λ e. apart (sym (subst (λ h. (h remote).id ≡ id) (evicted-heap s id now) e)) in
    elim (Result-cases (add s' remote now)) [
      | inr (e, h) ↦ rw h gone
      | inl (s'', h) ↦
          let (_, _, m, _, _) = add-locks s' remote now s'' h in
          rw (h, m, lookup-insert (s'.heap remote).id id remote s'.locks)
            (ground (arith, gone, eq_iff (s'.heap remote).id id, apart'))
    ]

pub take_over-heap :
    (s : LockStore) (local remote now : ℕ) → (take_over s local remote now).heap ≡ s.heap
unfolding take_over evicted
take_over-heap s local remote now =
    let s' = evicted s (s.heap local).id now in
    elim (Result-cases (add s' remote now)) [
      | inr (e, h) ↦ rw h (evicted-heap s (s.heap local).id now)
      | inl (s'', h) ↦
          let (same, _, _, _, _) = add-locks s' remote now s'' h in
          rw h (same ∙ evicted-heap s (s.heap local).id now)
    ]

-- The first lock goes before the second: it is older, or as old with a higher token.
abbrev pub Before : SemanticLock → SemanticLock → Type 0
Before l r =
    (l.acquired_at < r.acquired_at)
    ⊎ ((l.acquired_at ≡ r.acquired_at) × (r.fencing_token < l.fencing_token))

-- A lock that goes before the peer's stays as it is.
pub resolve_overlap-keeps :
    (s : LockStore) (node : String) (local remote now : ℕ)
    → ¬ Before (s.heap remote) (s.heap local)
    → (resolve_overlap_conflict s node local remote now).0 ≡ s
unfolding resolve_overlap_conflict
resolve_overlap-keeps s node local remote now first = ground (
  arith,
  λ (x : (s.heap remote).acquired_at < (s.heap local).acquired_at). first (inl x),
  λ (x : (s.heap remote).acquired_at ≡ (s.heap local).acquired_at)
        (y : (s.heap local).fencing_token < (s.heap remote).fencing_token).
      first (inr (x, y)),
)

-- An own lock gives way to the peer's lock that goes before it.
pub resolve_overlap-yields :
    (s : LockStore) (node : String) (local remote now : ℕ)
    → (s.heap local).holder_id ≡ node
    → Before (s.heap remote) (s.heap local)
    → (resolve_overlap_conflict s node local remote now).0 ≡ take_over s local remote now
unfolding resolve_overlap_conflict
resolve_overlap-yields s node local remote now own first =
    ground (arith, own, first, eq_iff (s.heap local).holder_id node)

pub not_Before : (l r : SemanticLock) → Before l r → ¬ Before r l
not_Before l r f g = absurd (ground (arith, f, g))

-- What becomes of an own lock that meets an overlapping lock of a peer.
resolve_overlap-fate :
    (s : LockStore) (node : String) (local remote now : ℕ)
    → (s.heap local).holder_id ≡ node
    → (s.heap local).id ≢ (s.heap remote).id
    → lookup (s.heap local).id s.locks ≡ some local
    → (Before (s.heap remote) (s.heap local)
        → lookup (s.heap local).id (resolve_overlap_conflict s node local remote now).0.locks
          ≡ none)
      × (¬ Before (s.heap remote) (s.heap local)
          → lookup (s.heap local).id (resolve_overlap_conflict s node local remote now).0.locks
            ≡ some local)
resolve_overlap-fate s node local remote now own apart bound = (
  (λ first.
      rw (resolve_overlap-yields s node local remote now own first)
        (take_over-loser s local remote now apart)),
  (λ last. rw (resolve_overlap-keeps s node local remote now last) bound),
)

-- When two nodes that each hold a lock hear of the other's overlapping lock, exactly the node whose
-- lock is the younger, or as old with the lower token, gives its lock up; if the locks tie in both,
-- each node keeps its own.
pub resolve_overlap_agrees :
    (a b : LockStore) (node_a node_b : String) (own_a remote_a own_b remote_b now_a now_b : ℕ)
    → b.heap remote_b ≡ a.heap own_a
    → a.heap remote_a ≡ b.heap own_b
    → (a.heap own_a).holder_id ≡ node_a
    → (b.heap own_b).holder_id ≡ node_b
    → (a.heap own_a).id ≢ (b.heap own_b).id
    → lookup (a.heap own_a).id a.locks ≡ some own_a
    → lookup (b.heap own_b).id b.locks ≡ some own_b
    → let kept_a =
        lookup (a.heap own_a).id (resolve_overlap_conflict a node_a own_a remote_a now_a).0.locks in
      let kept_b =
        lookup (b.heap own_b).id (resolve_overlap_conflict b node_b own_b remote_b now_b).0.locks in
      (Before (a.heap own_a) (b.heap own_b) → (kept_a ≡ some own_a) × (kept_b ≡ none))
      × (Before (b.heap own_b) (a.heap own_a) → (kept_a ≡ none) × (kept_b ≡ some own_b))
      × (((a.heap own_a).acquired_at ≡ (b.heap own_b).acquired_at)
            × ((a.heap own_a).fencing_token ≡ (b.heap own_b).fencing_token)
          → (kept_a ≡ some own_a) × (kept_b ≡ some own_b))
resolve_overlap_agrees a b node_a node_b own_a remote_a own_b remote_b now_a now_b sent_a sent_b
      held_a held_b apart bound_a bound_b =
    let l = a.heap own_a in
    let r = b.heap own_b in
    let (lost_a, saved_a) =
      resolve_overlap-fate a node_a own_a remote_a now_a held_a
        (λ e. apart (subst (λ k. l.id ≡ k.id) sent_b e)) bound_a in
    let (lost_b, saved_b) =
      resolve_overlap-fate b node_b own_b remote_b now_b held_b
        (λ e. apart (sym (subst (λ k. r.id ≡ k.id) sent_a e))) bound_b in
    let yields_a : Before r l
        → lookup l.id (resolve_overlap_conflict a node_a own_a remote_a now_a).0.locks ≡ none =
      λ f. lost_a (subst (λ k. Before k l) (sym sent_b) f) in
    let yields_b : Before l r
        → lookup r.id (resolve_overlap_conflict b node_b own_b remote_b now_b).0.locks ≡ none =
      λ f. lost_b (subst (λ k. Before k r) (sym sent_a) f) in
    let stays_a : ¬ Before r l
        → lookup l.id (resolve_overlap_conflict a node_a own_a remote_a now_a).0.locks
          ≡ some own_a =
      λ f. saved_a (λ x. f (subst (λ k. Before k l) sent_b x)) in
    let stays_b : ¬ Before l r
        → lookup r.id (resolve_overlap_conflict b node_b own_b remote_b now_b).0.locks
          ≡ some own_b =
      λ f. saved_b (λ x. f (subst (λ k. Before k r) sent_a x)) in
    (
      (λ f. (stays_a (not_Before l r f), yields_b f)),
      (λ f. (yields_a f, stays_b (not_Before r l f))),
      (λ (same, tie). (
        stays_a (λ x. absurd (ground (arith, same, tie, x))),
        stays_b (λ x. absurd (ground (arith, same, tie, x))),
      )),
    )
