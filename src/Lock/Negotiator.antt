-- ===== src/Lock/Negotiator.antt =====
-- src/domain/lock/negotiator.go: the state of the negotiator. Locks are addresses in the store's
-- heap. A conflict handler is a function that gives an error's text or none. The messages that the
-- broadcast and escalation handlers get are collected in `outbox`; their errors change nothing.
pub mod Phases
pub mod Proposals
pub mod Takeover
pub mod Settlement
pub mod Votes
mod Examples
use agent_collab.Common.{
  ℕ, ◌*◌, String, Bool, false, Option, none, List, [], ◌∷◌, ◌++◌, if◌then◌else◌, ℤ, Result, ok, err,
}
use agent_collab.Common.Dict.{Dict}
use agent_collab.Lock.Target.{Error}
use agent_collab.Lock.Semantic.{LockConflict, second}
use agent_collab.Lock.Limiter.{Float64, RateLimiter, RateLimitConfig, new_rate_limiter}
use agent_collab.Lock.Store.{LockStore}

pub data NegotiationState : Type 0 where
  intent_announced waiting_votes acquiring acquired rejected negotiating escalated :
      NegotiationState

pub data ResolutionType : Type 0 where
  approved rejected negotiated timed_out human_needed : ResolutionType

abbrev pub intent_timeout : ℕ
intent_timeout = 5 * second

abbrev pub negotiation_timeout : ℕ
negotiation_timeout = 30 * second

abbrev pub resolved_session_retention : ℕ
resolved_session_retention = 3600 * second

pub record Vote : Type 0 where
  pub voter_id : String
  pub voter_name : String
  pub approve : Bool
  pub reason : String
  pub timestamp : ℕ

pub record NegotiationResult : Type 0 where
  pub success : Bool
  pub winner_lock : Option ℕ
  pub loser_lock : Option ℕ
  pub resolution_type : ResolutionType
  pub message : String
  pub resolved_at : ℕ

pub record NegotiationSession : Type 0 where
  pub id : String
  pub requested_lock : ℕ
  pub conflicting_lock : ℕ
  pub state : NegotiationState
  pub votes : Dict Vote
  pub required_votes : ℕ
  pub started_at : ℕ
  pub expires_at : ℕ
  pub resolution : Option NegotiationResult

pub record LockIntent : Type 0 where
  pub id : String
  pub lock : ℕ
  pub announced_at : ℕ
  pub expires_at : ℕ
  pub acknowledged : Dict Bool

pub data Message : Type 0 where
  lock_intent : LockIntent → Message
  lock_acquired : ℕ → Message
  lock_released : String → Message
  escalation : NegotiationSession → Message

pub record LockNegotiator : Type 0 where
  pub store : LockStore
  pub sessions : Dict NegotiationSession
  pub intent_queue : Dict LockIntent
  pub rate_limiter : RateLimiter
  -- The callbacks, where they are set.
  pub on_conflict : Option (LockConflict → Option String)
  pub escalates : Bool
  pub broadcasts : Bool
  pub outbox : List Message

pub data ProposalType : Type 0 where
  yield split priority escalate : ProposalType
  unknown : String → ProposalType

pub record NegotiationProposal : Type 0 where
  pub kind : ProposalType
  pub yielder_id : String
  pub split_point : ℤ
  pub escalate_reason : String

pub record LockResult : Type 0 where
  pub success : Bool
  pub lock : Option ℕ
  pub reason : String

unfoldable pub new_lock_negotiator_with_config :
    Float64 → LockStore → Option RateLimitConfig → LockNegotiator
new_lock_negotiator_with_config float64 store config = record {
  store = store;
  sessions = [];
  intent_queue = [];
  rate_limiter = new_rate_limiter float64 config;
  on_conflict = none;
  escalates = false;
  broadcasts = false;
  outbox = [];
}

unfoldable pub new_lock_negotiator : Float64 → LockStore → LockNegotiator
unfolding new_lock_negotiator_with_config
new_lock_negotiator float64 store = new_lock_negotiator_with_config float64 store none

-- `broadcastFn(msg)`, if the function is set.
abbrev pub send : LockNegotiator → Message → LockNegotiator
send n m = record n { outbox = if n.broadcasts then n.outbox ++ m ∷ [] else n.outbox }

-- A call of the store whose error is dropped.
abbrev pub or_same : LockStore → Result Error LockStore → LockStore
or_same s (ok s') = s'
or_same s (err e) = s
