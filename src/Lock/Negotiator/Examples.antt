-- ===== src/Lock/Negotiator/Examples.antt =====
-- The theorems on phases and sessions of src/domain/lock/negotiator.go at concrete inputs.
use agent_collab.Common.{
  ℕ, ◌*◌, ◌≤◌, ◌<◌, String, ◌≡◌, ◌≢◌, refl, ◌⊎◌, inl, Bool, true, false, none, [], ◌∷◌, pos, ◌≤ℤ◌,
  show_ℤ, arith, if◌then◌else◌, ◌==◌, length, eq_iff, ok, err,
}
use agent_collab.Common.Dict.{lookup, insert, delete, values}
use agent_collab.Lock.Target.{
  human_intervention_required, lock_not_found, SemanticTarget, target_id, describe, overlaps,
}
use agent_collab.Lock.Semantic.{SemanticLock, is_expired}
use agent_collab.Lock.Store.{
  LockStore, target_is_taken, add_history, add, get, live_at, drop_lock, remove, history_entry,
  find_conflicts,
}
use agent_collab.Lock.Store.Exclusion.{IsExclusive}
use agent_collab.Lock.Limiter.Coarse.{coarse}
use agent_collab.Lock.Negotiator.{
  LockNegotiator, NegotiationSession, NegotiationState, NegotiationProposal, split, escalate, Vote,
  new_lock_negotiator,
}
use agent_collab.Lock.Negotiator.Proposals.{
  take_over, handle_split_proposal, split_targets, negotiate, resolve_by_votes, approvals,
  cast_vote,
}
use agent_collab.Lock.Negotiator.Takeover
use agent_collab.Lock.Negotiator.Settlement
use agent_collab.Lock.Negotiator.Votes

program : Unit {0}
unfolding show_ℤ lookup insert delete target_id describe overlaps is_expired target_is_taken
    add_history add get live_at drop_lock remove history_entry find_conflicts new_lock_negotiator
    take_over handle_split_proposal split_targets negotiate resolve_by_votes approvals cast_vote
program = tt

abbrev target : String → ℕ → ℕ → SemanticTarget
target path first last = record {
  kind = "file";
  file_path = path;
  name = "main";
  start_line = pos first;
  end_line = pos last;
  ast_hash = "";
}

abbrev lock_of : String → SemanticTarget → ℕ → SemanticLock
lock_of id t fencing = record {
  id = id;
  target = t;
  holder_id = id;
  holder_name = id;
  intention = "";
  fencing_token = fencing;
  acquired_at = 0;
  expires_at = 500;
  renew_count = 0;
}

-- Two stored locks at 0 and 1, and a newcomer at 2 that overlaps both.
abbrev heap : ℕ → SemanticLock
heap r =
    if r == 0
    then lock_of "lock-low" (target "a.go" 1 10) 1
    else if r == 1
    then lock_of "lock-high" (target "a.go" 50 60) 2
    else if r == 2
    then lock_of "lock-wide" (target "a.go" 5 55) 3
    else lock_of "lock-narrow" (target "a.go" 5 20) 4

abbrev store : LockStore
store = record {
  heap = heap;
  next = 4;
  locks = ("lock-low", 0) ∷ ("lock-high", 1) ∷ [];
  by_target = ("file:a.go:main:1-10", "lock-low") ∷ ("file:a.go:main:50-60", "lock-high") ∷ [];
  history = [];
  max_history = 100;
}

abbrev session : NegotiationSession
session = record {
  id = "neg-wide";
  requested_lock = 2;
  conflicting_lock = 0;
  state = NegotiationState.negotiating;
  votes = [];
  required_votes = 2;
  started_at = 0;
  expires_at = 300;
  resolution = none;
}

abbrev negotiator : LockNegotiator
negotiator = record (new_lock_negotiator coarse store) { sessions = ("neg-wide", session) ∷ [] }

store-IsExclusive : IsExclusive store 100
unfolding program
store-IsExclusive i j r q a b o = ground (
  arith,
  a.bound,
  b.bound,
  eq_iff "lock-low" i,
  eq_iff "lock-high" i,
  eq_iff "lock-low" j,
  eq_iff "lock-high" j,
)

take_over-IsExclusive_example : IsExclusive (take_over store 0 3 100) 100
unfolding program
take_over-IsExclusive_example =
    Takeover.take_over-IsExclusive store 0 3 100
      (λ i p a other. ground (arith, a.bound, eq_iff "lock-low" i, eq_iff "lock-high" i))
      store-IsExclusive

take_over_breach_example : ¬ IsExclusive (take_over store 0 2 100) 100
unfolding program
take_over_breach_example =
    Takeover.take_over_breach store 0 2 100 "lock-high" 1 (record { bound = refl; fresh = refl })
      (λ e. ground (arith, eq_iff "lock-high" "lock-low"))
      (λ e. ground (arith, eq_iff "lock-high" "lock-wide")) refl refl refl

abbrev split_at : ℕ → NegotiationProposal
split_at point = record {
  kind = split;
  yielder_id = "";
  split_point = pos point;
  escalate_reason = "";
}

escalating : NegotiationProposal
escalating = record {
  kind = escalate;
  yielder_id = "";
  split_point = pos 0;
  escalate_reason = "stuck";
}

negotiate_error_example : (negotiate negotiator "neg-wide" escalating 100).0.store ≡ store
unfolding program escalating
negotiate_error_example =
    Settlement.negotiate_error negotiator "neg-wide" escalating 100 human_intervention_required refl

-- The split point 8 lies in both ranges, 1-10 and 5-20.
abbrev narrow : NegotiationSession
narrow = record session { requested_lock = 3 }

split_succeeds : (handle_split_proposal store narrow (split_at 8) 100).error ≡ none
unfolding program
split_succeeds = refl

handle_split_cases_example :
    let t = handle_split_proposal store narrow (split_at 8) 100 in
    ((t.error ≢ none) × (t.store ≡ store) × (t.session ≡ narrow))
    ⊎ ((t.error ≡ none)
        × (¬ (pos 8 ≤ℤ pos 5))
        × (¬ (pos 20 ≤ℤ pos 8))
        × (overlaps (t.store.heap 0).target (t.store.heap 3).target ≡ false))
handle_split_cases_example =
    Settlement.handle_split_cases store narrow (split_at 8) 100 (omega arith)

abbrev ballot : Bool → Vote
ballot b = record { voter_id = "v"; voter_name = "v"; approve = b; reason = ""; timestamp = 90 }

abbrev two_votes : NegotiationSession
two_votes = record session {
  votes = ("v", ballot true) ∷ ("w", record (ballot true) { voter_id = "w" }) ∷ [];
}

abbrev low_id : String
low_id = "lock-low"

low_other : (heap 0).id ≢ (heap 2).id
low_other e = absurd (ground (arith, eq_iff low_id "lock-wide", e))

resolve_by_votes_majority_example :
    let t = resolve_by_votes store two_votes 100 in
    let ayes = approvals (values two_votes.votes) in
    ((length two_votes.votes < 2 * ayes)
      × (t.session.state ≡ NegotiationState.acquired)
      × (get t.store "lock-wide" 100 ≡ ok 2)
      × (get t.store low_id 100 ≡ err lock_not_found)
      × ((i : String) → i ≢ "lock-wide" → i ≢ low_id → get t.store i 100 ≡ get store i 100))
    ⊎ ((2 * ayes ≤ length two_votes.votes)
        × (t.session.state ≡ NegotiationState.rejected)
        × (t.store ≡ store))
unfolding program
resolve_by_votes_majority_example =
    Votes.resolve_by_votes_majority store two_votes 100 low_other refl
      (λ i e. absurd (ground (arith, e)))

abbrev stuffed : LockNegotiator
stuffed = Votes.cast_votes negotiator "neg-wide" 100 (ballot true ∷ ballot false ∷ ballot true ∷ [])

cast_votes_alone_example : Votes.Waits stuffed "neg-wide" "v" × (stuffed.store ≡ store)
unfolding program
cast_votes_alone_example =
    Votes.cast_votes_alone negotiator "neg-wide" "v" 100
      (ballot true ∷ ballot false ∷ ballot true ∷ []) (refl, (refl, (refl, tt)))
      (record {
        session = session;
        found = refl;
        waiting = omega arith;
        alone = inl refl;
        unresolved = refl;
      })
