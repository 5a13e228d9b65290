-- ===== src/Lock/Negotiator/Phases.antt =====
-- src/domain/lock/negotiator.go: announce, acquire, release, and the cleanup of sessions. The
-- negotiator's mutex makes each of them one step.
use agent_collab.Common.{
  ℕ, ◌+◌, ◌-◌, String, ◌<>◌, Bool, true, false, not, if◌then◌else◌, str_eq, ltb, Option, none, some,
  List, [], ◌∷◌, keep, Result, ok, err, ◌>>=◌,
}
use Prim.Native.String.{slice, len}
use agent_collab.Common.Dict.{lookup, insert, delete, values}
use agent_collab.Lock.Target.{
  Error, lock_not_found, lock_expired, lock_conflict, not_lock_holder, rate_limited, message,
  error_text,
}
use agent_collab.Lock.Semantic.{SemanticLock, LockConflict, new_lock_conflict}
use agent_collab.Lock.Limiter.{allow}
use agent_collab.Lock.Store.{LockStore, add, get, remove, find_conflicts}
use agent_collab.Lock.Negotiator.{
  LockNegotiator, NegotiationSession, NegotiationState, LockIntent, LockResult, lock_intent,
  lock_acquired, lock_released, intent_timeout, negotiation_timeout, resolved_session_retention,
  send,
}

-- The first error of the conflict handler over the conflicting locks.
unfoldable pub notify_conflicts :
    Option (LockConflict → Option String) → LockStore → SemanticLock → List ℕ → Option String
notify_conflicts none s l cs = none
notify_conflicts (some handler) s l [] = none
notify_conflicts (some handler) s l (c ∷ cs) =
    let rest = notify_conflicts (some handler) s l cs in
    elim (handler (new_lock_conflict l (s.heap c))) [ some e ↦ some e | none ↦ rest ]

-- A lock's identifier is "lock-" and twelve digits (generateLockID), of which the session takes the
-- digits; on fewer than five characters the source's slice panics.
unfoldable pub start_negotiation_session :
    LockNegotiator → ℕ → ℕ → ℕ → Option (LockNegotiator × NegotiationSession)
start_negotiation_session n requested conflicting now =
    let id = (n.store.heap requested).id in
    let session : NegotiationSession = record {
      id = "neg-" <> slice id 5 (len id);
      requested_lock = requested;
      conflicting_lock = conflicting;
      state = NegotiationState.negotiating;
      votes = [];
      required_votes = 2;
      started_at = now;
      expires_at = now + negotiation_timeout;
      resolution = none;
    } in
    if ltb (len id) 5
    then none
    else some (record n { sessions = insert session.id session n.sessions }, session)

-- The branch of `AnnounceIntent` that found a conflict. A panic unwinds it, which unlocks the mutex and
-- leaves the negotiator as it is; the result is then the panic's text.
unfoldable pub open_negotiation :
    LockNegotiator → ℕ → ℕ → List ℕ → ℕ → LockNegotiator × Result Error LockIntent
unfolding notify_conflicts start_negotiation_session
open_negotiation n r c cs now =
    elim (notify_conflicts n.on_conflict n.store (n.store.heap r) (c ∷ cs)) [
      | some e ↦ (n, err (message ("conflict handler failed: " <> e)))
      | none ↦ elim (start_negotiation_session n r c now) [
        | none ↦ (n, err (message "slice bounds out of range"))
        | some (n', session) ↦
            (n', err (message ("conflict detected, negotiation session started: " <> session.id)))
      ]
    ]

-- The intent of a lock.
abbrev pub new_intent : LockNegotiator → ℕ → ℕ → LockIntent
new_intent n r now = record {
  id = (n.store.heap r).id;
  lock = r;
  announced_at = now;
  expires_at = now + intent_timeout;
  acknowledged = [];
}

-- The branch that found none.
unfoldable pub register_intent : LockNegotiator → ℕ → ℕ → LockNegotiator × Result Error LockIntent
register_intent n r now =
    let intent = new_intent n r now in
    (
      send (record n { intent_queue = insert intent.id intent n.intent_queue })
          (lock_intent intent),
      ok intent,
    )

unfoldable pub announce_checked :
    LockNegotiator → ℕ → List ℕ → ℕ → LockNegotiator × Result Error LockIntent
unfolding open_negotiation register_intent
announce_checked n r [] now = register_intent n r now
announce_checked n r (c ∷ cs) now = open_negotiation n r c cs now

unfoldable pub announce_intent : LockNegotiator → ℕ → ℕ → LockNegotiator × Result Error LockIntent
unfolding announce_checked
announce_intent n r now =
    let l = n.store.heap r in
    let (limiter, passed) = allow n.rate_limiter l.holder_id now in
    let n' = record n { rate_limiter = limiter } in
    if passed
    then announce_checked n' r (find_conflicts n.store l.target now) now
    else (n', err rate_limited)

abbrev refused : String → Error → LockResult × Option Error
refused reason e = (record { success = false; lock = none; reason = reason }, some e)

abbrev drop_intent : LockNegotiator → String → LockNegotiator
drop_intent n id = record n { intent_queue = delete id n.intent_queue }

-- The steps of `AcquireLock` once the intent is found and has not run out.
unfoldable pub acquire_checked :
    LockNegotiator → LockIntent → String → List ℕ → ℕ → LockNegotiator × (LockResult × Option Error)
unfolding error_text
acquire_checked n intent id (c ∷ cs) now =
    (drop_intent n id, refused ("conflict with " <> (n.store.heap c).holder_name) lock_conflict)
acquire_checked n intent id [] now = elim (add n.store intent.lock now) [
  | err e ↦ (drop_intent n id, refused (error_text e) e)
  | ok store ↦ (
    send (record (drop_intent n id) { store = store }) (lock_acquired intent.lock),
    (
      record { success = true; lock = some intent.lock; reason = "lock acquired successfully" },
      none,
    ),
  )
]

unfoldable pub acquire_lock :
    LockNegotiator → String → ℕ → LockNegotiator × (LockResult × Option Error)
unfolding acquire_checked
acquire_lock n id now = elim (lookup id n.intent_queue) [
  | none ↦ (n, refused "intent not found" lock_not_found)
  | some intent ↦
      if ltb intent.expires_at now
      then (drop_intent n id, refused "intent expired" lock_expired)
      else acquire_checked n intent id
          (find_conflicts n.store (n.store.heap intent.lock).target now) now
]

unfoldable pub release_lock : LockNegotiator → String → String → ℕ → Result Error LockNegotiator
release_lock n id holder now = do
  r ← get n.store id now
  if str_eq (n.store.heap r).holder_id holder
      then (do
        store ← remove n.store id now
        ok (send (record n { store = store }) (lock_released id)))
      else err not_lock_holder

unfoldable pub get_session : LockNegotiator → String → Result Error NegotiationSession
get_session n id = elim (lookup id n.sessions) [
  | none ↦ err (message ("session not found: " <> id))
  | some session ↦ ok session
]

unfoldable pub is_open : NegotiationSession → Bool
is_open session = elim session.resolution [ none ↦ true | some _ ↦ false ]

unfoldable pub list_active_sessions : LockNegotiator → List NegotiationSession
unfolding is_open
list_active_sessions n = keep is_open (values n.sessions)

-- A session that was resolved longer ago than the retention.
unfoldable pub is_stale : NegotiationSession → ℕ → Bool
is_stale session now = elim session.resolution [
  | none ↦ false
  | some result ↦ ltb resolved_session_retention (now - result.resolved_at)
]

-- One tick of the cleanup goroutine.
unfoldable pub cleanup_expired_sessions : LockNegotiator → ℕ → LockNegotiator
unfolding is_stale
cleanup_expired_sessions n now = record n {
  intent_queue = keep (λ (e : String × LockIntent). not (ltb e.1.expires_at now)) n.intent_queue;
  sessions = keep (λ (e : String × NegotiationSession). not (is_stale e.1 now)) n.sessions;
}
