-- ===== src/Lock/Negotiator/Settlement.antt =====
-- Splits, votes and failures of src/domain/lock/negotiator.go.
use agent_collab.Common.{
  ℕ, String, ◌≡◌, ◌≢◌, refl, sym, subst, ◌⊎◌, inl, inr, false, none, some, arith, str_eq,
  Result-cases, Bool-cases, Option-cases, ℤ, ◌≤ℤ◌, leb_ℤ, pred_ℤ, pred_ℤ_parts, ltb,
}
use agent_collab.Common.Dict.{lookup}
use agent_collab.Lock.Target.{Error, SemanticTarget, overlaps}
use agent_collab.Lock.Target.Ranges.{Covers}
use agent_collab.Lock.Store.{LockStore, add}
use agent_collab.Lock.Store.Laws.{add-locks}
use agent_collab.Lock.Negotiator.{
  LockNegotiator, NegotiationSession, NegotiationProposal, ProposalType, yield, split, priority,
  escalate, unknown, or_same,
}
use agent_collab.Lock.Negotiator.Proposals.{
  split_targets, handle_yield_proposal, handle_split_proposal, handle_priority_proposal, dispatch,
  time_out, negotiate,
}

or_same-heap : (s : LockStore) (r now : ℕ) → (or_same s (add s r now)).heap ≡ s.heap
or_same-heap s r now = elim (Result-cases (add s r now)) [
  | inr (e, h) ↦ rw (h, or_same)
  | inl (s', h) ↦ rw (h, or_same) (add-locks s r now s' h).0
]

-- The locks after a split.
split_heap :
    (s : LockStore) (c r : ℕ) (point : ℤ)
    → c ≢ r
    → (((split_targets s c r point).heap c).target
        ≡ record ((s.heap c).target) { end_line = pred_ℤ point })
      × (((split_targets s c r point).heap r).target
          ≡ record ((s.heap r).target) { start_line = point })
unfolding split_targets
split_heap s c r point h = (ground arith, ground arith)

split_apart :
    (t u : SemanticTarget) (point : ℤ)
    → overlaps (record t { end_line = pred_ℤ point }) (record u { start_line = point }) ≡ false
unfolding overlaps
split_apart t u point = ground (arith, pred_ℤ_parts point)

split_targets-overlaps :
    (s : LockStore) (c r now : ℕ) (point : ℤ)
    → c ≢ r
    → let s' = split_targets s c r point in
      let s'' = or_same s' (add s' r now) in
      overlaps (s''.heap c).target (s''.heap r).target ≡ false
split_targets-overlaps s c r now point h =
    let s' = split_targets s c r point in
    let (upper, lower) = split_heap s c r point h in
    subst (λ k. overlaps (k c).target (k r).target ≡ false) (sym (or_same-heap s' r now))
      (subst (λ t. overlaps t (s'.heap r).target ≡ false) (sym upper)
        (subst (λ u. overlaps (record ((s.heap c).target) { end_line = pred_ℤ point }) u ≡ false)
          (sym lower) (split_apart (s.heap c).target (s.heap r).target point)))

-- A split of two different locks either is refused, and nothing changes, or its point lies strictly
-- inside the newcomer's range, and the two targets do not overlap any more.
pub handle_split_cases :
    (s : LockStore) (session : NegotiationSession) (proposal : NegotiationProposal) (now : ℕ)
    → session.conflicting_lock ≢ session.requested_lock
    → let t = handle_split_proposal s session proposal now in
      let old = s.heap in
      ((t.error ≢ none) × (t.store ≡ s) × (t.session ≡ session))
      ⊎ ((t.error ≡ none)
          × (¬ (proposal.split_point ≤ℤ (old session.requested_lock).target.start_line))
          × (¬ ((old session.requested_lock).target.end_line ≤ℤ proposal.split_point))
          × (overlaps
                (t.store.heap session.conflicting_lock).target
                (t.store.heap session.requested_lock).target
              ≡ false))
unfolding handle_split_proposal
handle_split_cases s session proposal now h =
    let point = proposal.split_point in
    let t = (s.heap session.requested_lock).target in
    elim (Bool-cases (leb_ℤ point t.start_line)) [
      | inl low ↦ inl (ground arith)
      | inr above ↦ elim (Bool-cases (leb_ℤ t.end_line point)) [
        | inl high ↦ inl (ground arith)
        | inr below ↦ inr (
          ground arith,
          (λ x. ground arith),
          (λ x. ground arith),
          rw (above, below, handle_split_proposal)
              (split_targets-overlaps s session.conflicting_lock session.requested_lock now point
                h),
        )
      ]
    ]

-- An accepted split leaves the locks as the two writes did.
split_done :
    (s : LockStore) (session : NegotiationSession) (proposal : NegotiationProposal) (now : ℕ)
    → (handle_split_proposal s session proposal now).error ≡ none
    → (handle_split_proposal s session proposal now).store.heap
      ≡ (split_targets s session.conflicting_lock session.requested_lock proposal.split_point).heap
unfolding handle_split_proposal
split_done s session proposal now done =
    let point = proposal.split_point in
    let t = (s.heap session.requested_lock).target in
    elim (Bool-cases (leb_ℤ point t.start_line)) [
      | inl low ↦ absurd (ground arith)
      | inr above ↦ elim (Bool-cases (leb_ℤ t.end_line point)) [
        | inl high ↦ absurd (ground arith)
        | inr below ↦
            rw (above, below, handle_split_proposal) (or_same-heap _ session.requested_lock now)
      ]
    ]

-- The point of a split is not held to the other lock's range: where an accepted split of two
-- different locks has a point with the other range starting before it and ending more than a line
-- before it, the other lock covers a line afterwards that it did not cover before.
pub handle_split_grows :
    (s : LockStore) (session : NegotiationSession) (proposal : NegotiationProposal) (now : ℕ)
    → session.conflicting_lock ≢ session.requested_lock
    → (handle_split_proposal s session proposal now).error ≡ none
    → (s.heap session.conflicting_lock).target.start_line ≤ℤ pred_ℤ proposal.split_point
    → ¬ (pred_ℤ proposal.split_point ≤ℤ (s.heap session.conflicting_lock).target.end_line)
    → (path : String) → path ≡ (s.heap session.conflicting_lock).target.file_path
    → (¬ Covers (s.heap session.conflicting_lock).target path (pred_ℤ proposal.split_point))
      × Covers
          ((handle_split_proposal s session proposal now).store.heap
            session.conflicting_lock).target
          path
          (pred_ℤ proposal.split_point)
handle_split_grows s session proposal now apart done above short path same =
    let c = session.conflicting_lock in
    let point = proposal.split_point in
    let upper = (split_heap s c session.requested_lock point apart).0 in
    (
      (λ cover. short cover.below),
      subst (λ h. Covers (h c).target path (pred_ℤ point))
          (sym (split_done s session proposal now done))
          (subst (λ t. Covers t path (pred_ℤ point)) (sym upper)
            (record { same_file = sym same; above = above; below = omega arith })),
    )

split_error :
    (s : LockStore) (session : NegotiationSession) (proposal : NegotiationProposal) (now : ℕ)
    (e : Error)
    → (handle_split_proposal s session proposal now).error ≡ some e
    → (handle_split_proposal s session proposal now).store ≡ s
unfolding handle_split_proposal
split_error s session proposal now e h =
    let point = proposal.split_point in
    let t = (s.heap session.requested_lock).target in
    elim (Bool-cases (leb_ℤ point t.start_line)) [
      | inl low ↦ rw (low, handle_split_proposal)
      | inr above ↦ elim (Bool-cases (leb_ℤ t.end_line point)) [
        | inl high ↦ rw (above, high, handle_split_proposal)
        | inr below ↦ absurd (ground arith)
      ]
    ]

time_out-store :
    (s : LockStore) (session : NegotiationSession) (now : ℕ) → (time_out s session now).store ≡ s
unfolding time_out
time_out-store s session now = refl

dispatch_error :
    (kind : ProposalType) (s : LockStore) (session : NegotiationSession)
    (proposal : NegotiationProposal) (now : ℕ) (e : Error)
    → (dispatch kind s session proposal now).error ≡ some e
    → (dispatch kind s session proposal now).store ≡ s
unfolding dispatch
dispatch_error yield s session proposal now e h =
    elim (Bool-cases (str_eq proposal.yielder_id (s.heap session.requested_lock).holder_id)) [
      | inl y ↦ rw (y, handle_yield_proposal)
      | inr n ↦ absurd (ground arith)
    ]
dispatch_error split s session proposal now e h = split_error s session proposal now e h
dispatch_error priority s session proposal now e h =
    elim (Bool-cases (
      ltb (s.heap session.conflicting_lock).fencing_token
        (s.heap session.requested_lock).fencing_token)) [
          | inl y ↦ absurd (ground arith)
          | inr n ↦ rw (n, handle_priority_proposal)
        ]
dispatch_error escalate s session proposal now e h = refl
dispatch_error (unknown kind) s session proposal now e h = refl

-- A proposal that fails leaves the store as it was.
pub negotiate_error :
    (n : LockNegotiator) (id : String) (proposal : NegotiationProposal) (now : ℕ) (e : Error)
    → (negotiate n id proposal now).2 ≡ some e
    → (negotiate n id proposal now).0.store ≡ n.store
unfolding negotiate
negotiate_error n id proposal now e h = elim (Option-cases (lookup id n.sessions)) [
  | inl none_found ↦ rw (none_found, negotiate)
  | inr (session, found) ↦ elim (Bool-cases (ltb session.expires_at now)) [
    | inl late ↦ rw (found, negotiate) (rw late (time_out-store n.store session now))
    | inr timely ↦
        rw (found, negotiate)
          (rw timely (dispatch_error proposal.kind n.store session proposal now e (ground arith)))
  ]
]
