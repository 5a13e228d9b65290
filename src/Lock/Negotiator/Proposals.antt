-- ===== src/Lock/Negotiator/Proposals.antt =====
-- src/domain/lock/negotiator.go: proposals and votes on a negotiation session.
use agent_collab.Common.{
  ℕ, ◌+◌, ◌/◌, String, ◌<>◌, Bool, true, false, ◌||◌, if◌then◌else◌, str_eq, ltb, leb, leb_ℤ, ℤ,
  ◌&&◌, ◌++◌, pred_ℤ, show_ℤ, pos, Option, none, some, List, [], ◌∷◌, length, Result, ok, err,
}
use agent_collab.Common.Dict.{lookup, insert, values}
use agent_collab.Lock.Target.{Error, negotiation_failed, human_intervention_required, message}
use agent_collab.Lock.Store.{LockStore, write, add, remove}
use agent_collab.Lock.Negotiator.{
  LockNegotiator, NegotiationSession, NegotiationState, NegotiationResult, ResolutionType,
  NegotiationProposal, ProposalType, yield, split, priority, escalate, unknown, Vote, escalation,
  or_same,
}

-- What a handler leaves: the store, the session, the result and the error.
pub record Settled : Type 0 where
  pub store : LockStore
  pub session : NegotiationSession
  pub result : Option NegotiationResult
  pub error : Option Error

-- The session with a final state and its result, which the caller gets too.
abbrev settle :
    LockStore → NegotiationSession → NegotiationState → NegotiationResult → Option Error → Settled
settle store session state result e = record {
  store = store;
  session = record session { state = state; resolution = some result };
  result = some result;
  error = e;
}

abbrev won : ℕ → ℕ → String → ℕ → NegotiationResult
won winner loser text now = record {
  success = true;
  winner_lock = some winner;
  loser_lock = some loser;
  resolution_type = ResolutionType.negotiated;
  message = text;
  resolved_at = now;
}

abbrev failed : ResolutionType → String → ℕ → NegotiationResult
failed kind text now = record {
  success = false;
  winner_lock = none;
  loser_lock = none;
  resolution_type = kind;
  message = text;
  resolved_at = now;
}

-- `store.Remove(conflicting.ID)` and `store.Add(requested)`, both errors dropped.
unfoldable pub take_over : LockStore → ℕ → ℕ → ℕ → LockStore
take_over s conflicting requested now =
    let s' = or_same s (remove s (s.heap conflicting).id now) in or_same s' (add s' requested now)

unfoldable pub handle_yield_proposal :
    LockStore → NegotiationSession → NegotiationProposal → ℕ → Settled
unfolding take_over
handle_yield_proposal s session proposal now =
    let requested = session.requested_lock in
    let conflicting = session.conflicting_lock in
    if str_eq proposal.yielder_id (s.heap requested).holder_id
    then settle s session NegotiationState.acquired
        (won conflicting requested
          ((s.heap requested).holder_name <> (" yielded to " <> (s.heap conflicting).holder_name))
          now)
        none
    else settle (take_over s conflicting requested now) session NegotiationState.acquired
        (won requested conflicting
          ((s.heap conflicting).holder_name <> (" yielded to " <> (s.heap requested).holder_name))
          now)
        none

-- The writes through the session's pointers: they reach the locks that the store holds.
unfoldable pub split_targets : LockStore → ℕ → ℕ → ℤ → LockStore
split_targets s conflicting requested point =
    let upper = s.heap conflicting in
    let heap =
      write s.heap conflicting
        (record upper { target = record (upper.target) { end_line = pred_ℤ point } }) in
    let lower = heap requested in
    record s {
      heap =
          write heap requested
            (record lower { target = record (lower.target) { start_line = point } });
    }

unfoldable pub handle_split_proposal :
    LockStore → NegotiationSession → NegotiationProposal → ℕ → Settled
unfolding split_targets
handle_split_proposal s session proposal now =
    let requested = session.requested_lock in
    let conflicting = session.conflicting_lock in
    let point = proposal.split_point in
    if leb_ℤ point (s.heap requested).target.start_line
      || leb_ℤ (s.heap requested).target.end_line point
    then record {
      store = s;
      session = session;
      result = none;
      error = some (message ("invalid split point: " <> show_ℤ point));
    }
    else let s' = split_targets s conflicting requested point in
      settle (or_same s' (add s' requested now)) session NegotiationState.acquired
        (won requested conflicting ("split at line " <> show_ℤ point) now) none

unfoldable pub handle_priority_proposal : LockStore → NegotiationSession → ℕ → Settled
unfolding take_over
handle_priority_proposal s session now =
    let requested = session.requested_lock in
    let conflicting = session.conflicting_lock in
    if ltb (s.heap conflicting).fencing_token (s.heap requested).fencing_token
    then settle (take_over s conflicting requested now) session NegotiationState.acquired
        (won requested conflicting (tokens requested conflicting) now) none
    else settle s session NegotiationState.acquired
        (won conflicting requested (tokens conflicting requested) now) none
  where
    tokens : ℕ → ℕ → String
    tokens winner loser =
        "priority: fencing token "
        <> (show_ℤ (pos (s.heap winner).fencing_token)
            <> (" > " <> show_ℤ (pos (s.heap loser).fencing_token)))

unfoldable pub handle_escalate_proposal :
    LockStore → NegotiationSession → NegotiationProposal → ℕ → Settled
handle_escalate_proposal s session proposal now =
    settle s session NegotiationState.escalated
      (failed ResolutionType.human_needed ("escalated: " <> proposal.escalate_reason) now)
      (some human_intervention_required)

unfoldable pub time_out : LockStore → NegotiationSession → ℕ → Settled
time_out s session now =
    settle s session NegotiationState.escalated
      (failed ResolutionType.timed_out "negotiation timed out" now) (some negotiation_failed)

-- The switch on the proposal's type.
unfoldable pub dispatch :
    ProposalType → LockStore → NegotiationSession → NegotiationProposal → ℕ → Settled
unfolding handle_yield_proposal handle_split_proposal handle_priority_proposal
    handle_escalate_proposal
dispatch yield s session proposal now = handle_yield_proposal s session proposal now
dispatch split s session proposal now = handle_split_proposal s session proposal now
dispatch priority s session proposal now = handle_priority_proposal s session now
dispatch escalate s session proposal now = handle_escalate_proposal s session proposal now
dispatch (unknown kind) s session proposal now = record {
  store = s;
  session = session;
  result = none;
  error = some (message ("unknown proposal type: " <> kind));
}

-- The escalation handler hears of a session that ran out or was escalated.
abbrev escalated_by : Settled → Bool
escalated_by t = elim t.error [
  | some negotiation_failed ↦ true
  | some human_intervention_required ↦ true
  | _ ↦ false
]

abbrev keep_session : LockNegotiator → String → Settled → LockNegotiator
keep_session n id t = record n {
  store = t.store;
  sessions = insert id t.session n.sessions;
  outbox =
      if n.escalates && escalated_by t then n.outbox ++ escalation t.session ∷ [] else n.outbox;
}

unfoldable pub negotiate :
    LockNegotiator
    → String
    → NegotiationProposal
    → ℕ
    → LockNegotiator × Option NegotiationResult × Option Error
unfolding time_out dispatch
negotiate n id proposal now = elim (lookup id n.sessions) [
  | none ↦ (n, none, some (message ("session not found: " <> id)))
  | some session ↦
      let t =
        if ltb session.expires_at now
        then time_out n.store session now
        else dispatch proposal.kind n.store session proposal now in
      (keep_session n id t, t.result, t.error)
]

unfoldable pub approvals : List Vote → ℕ
approvals [] = 0
approvals (v ∷ vs) = (if v.approve then 1 else 0) + approvals vs

unfoldable pub resolve_by_votes : LockStore → NegotiationSession → ℕ → Settled
unfolding approvals take_over
resolve_by_votes s session now =
    let approves = approvals (values session.votes) in
    let total = length session.votes in
    let tally = show_ℤ (pos approves) <> ("/" <> show_ℤ (pos total)) in
    let requested = session.requested_lock in
    let conflicting = session.conflicting_lock in
    if ltb (total / 2) approves
    then settle (take_over s conflicting requested now) session NegotiationState.acquired
        (record {
          success = true;
          winner_lock = some requested;
          loser_lock = some conflicting;
          resolution_type = ResolutionType.approved;
          message = "approved by vote: " <> tally;
          resolved_at = now;
        })
        none
    else settle s session NegotiationState.rejected
        (record {
          success = false;
          winner_lock = some conflicting;
          loser_lock = some requested;
          resolution_type = ResolutionType.rejected;
          message = "rejected by vote: " <> tally;
          resolved_at = now;
        })
        none

unfoldable pub cast_vote : LockNegotiator → String → Vote → ℕ → Result Error LockNegotiator
unfolding resolve_by_votes
cast_vote n id vote now = elim (lookup id n.sessions) [
  | none ↦ err (message ("session not found: " <> id))
  | some session ↦
      let voted = record session { votes = insert vote.voter_id vote session.votes } in
      if leb voted.required_votes (length voted.votes)
      then (let t = resolve_by_votes n.store voted now in
          ok (record n { store = t.store; sessions = insert id t.session n.sessions }))
      else ok (record n { sessions = insert id voted n.sessions })
]
