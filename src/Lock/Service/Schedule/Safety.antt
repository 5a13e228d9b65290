-- ===== src/Lock/Service/Schedule/Safety.antt =====
-- Mutual exclusion along every faithful schedule of calls of src/domain/lock/service.go.
use agent_collab.Common.{
  ℕ, ◌≤◌, String, ◌≡◌, refl, sym, subst, inl, inr, some, List, [], ◌∷◌, Result, ok, err, arith,
  keep-In, ltb, not, Result-cases,
}
use agent_collab.Lock.Semantic.{SemanticLock, renew, renew_with_ttl, new_semantic_lock_safe}
use agent_collab.Lock.Target.{Error, new_semantic_target}
use agent_collab.Lock.Store.{alloc, cleanup_expired}
use agent_collab.Lock.Store.Laws.{cleanup_expired-next}
use agent_collab.Lock.Store.Valid.{alloc-IsStore, cleanup_expired-IsStore}
use agent_collab.Lock.Store.Exclusion.{
  IsExclusive-later, alloc-IsExclusive, cleanup_expired-IsExclusive,
}
use agent_collab.Lock.Negotiator.{LockNegotiator, LockIntent}
use agent_collab.Lock.Negotiator.Phases.{
  announce_intent, release_lock as release_phase, cleanup_expired_sessions,
}
use agent_collab.Lock.Service.{
  LockService, AcquireLockRequest, with_store, announce, release_lock, renew_lock,
  renew_lock_with_ttl, handle_remote_lock_acquired, handle_remote_lock_released,
}
use agent_collab.Lock.Service.Schedule.{
  Call, announces, acquires, releases, renews, renews_with, hears_acquired, hears_released,
  sweeps_locks, sweeps_sessions, or_before, perform, run, Agrees, IsFaithful, ending,
}
use agent_collab.Lock.Service.Schedule.Invariant.{
  IsSound, announce_intent-IsSound, acquire_lock-IsSound, store-IsSound,
}
use agent_collab.Lock.Service.Schedule.Calls.{
  release-IsSound, renew_by-IsSound, renew-KeepsTarget, renew_with_ttl-KeepsTarget, alloc-next,
  hears_acquired-IsSound, hears_released-IsSound,
}

sweeps_sessions-IsSound :
    (n : LockNegotiator) (now : ℕ) → IsSound n now → IsSound (cleanup_expired_sessions n now) now
unfolding cleanup_expired_sessions
sweeps_sessions-IsSound n now v = record {
  valid = v.valid;
  exclusive = v.exclusive;
  intents = λ i x m.
      v.intents i x
        (keep-In (λ (e : String × LockIntent). not (ltb e.1.expires_at now)) (i, x) n.intent_queue
          m).0;
}

sweeps_locks-IsSound :
    (sv : LockService) (now : ℕ)
    → IsSound sv.negotiator now
    → IsSound (with_store sv (cleanup_expired sv.negotiator.store now)).negotiator now
sweeps_locks-IsSound sv now v =
    let s = sv.negotiator.store in
    store-IsSound sv.negotiator _ now refl (omega (arith, cleanup_expired-next s now))
      (cleanup_expired-IsStore s now v.valid)
      (cleanup_expired-IsExclusive s now v.valid.distinct v.exclusive) v

announces-IsSound :
    (sv : LockService) (req : AcquireLockRequest) (random : String) (now : ℕ)
    → IsSound sv.negotiator now
    → IsSound (perform sv now (announces req random)).negotiator now
unfolding perform announce
announces-IsSound sv req random now v =
    elim (Result-cases
      (new_semantic_target req.target_type req.file_path req.name req.start_line req.end_line)) [
        | inr (e, t) ↦ rw (t, announce, perform) v
        | inl (target, t) ↦
            elim (Result-cases (
              new_semantic_lock_safe (some target) sv.node_id sv.node_name req.intention
                sv.fencing_counter random now)) [
                  | inr (e, h) ↦ rw (t, announce, perform) (rw h v)
                  | inl ((l, counter), h) ↦ rw (t, announce, perform) (rw h (announced l))
                ]
      ]
  where
    announced :
        (l : SemanticLock)
        → IsSound
            (announce_intent
              (record (sv.negotiator) { store = (alloc l sv.negotiator.store).0 })
              (alloc l sv.negotiator.store).1
              now).0
            now
    announced l =
        let s = sv.negotiator.store in
        let (up, at) = alloc-next s l in
        announce_intent-IsSound _ (alloc l s).1 now (omega (arith, up, at)) (
          store-IsSound sv.negotiator _ now refl (omega (arith, up)) (alloc-IsStore s l v.valid)
            (alloc-IsExclusive s l now v.valid v.exclusive) v)

or_before-IsSound :
    (sv : LockService) (m : Result Error LockService) (now : ℕ)
    → ((sv' : LockService) → m ≡ ok sv' → IsSound sv'.negotiator now)
    → IsSound sv.negotiator now
    → IsSound (or_before sv m).negotiator now
or_before-IsSound sv (ok sv') now f v = f sv' refl
or_before-IsSound sv (err e) now f v = v

releases-IsSound :
    (sv sv' : LockService) (id : String) (now : ℕ)
    → release_lock sv id now ≡ ok sv'
    → IsSound sv.negotiator now
    → IsSound sv'.negotiator now
unfolding release_lock
releases-IsSound sv sv' id now h v =
    elim (Result-cases (release_phase sv.negotiator id sv.node_id now)) [
      | inr (e, r) ↦ absurd (ground arith)
      | inl (n, r) ↦
          let e : sv'.negotiator ≡ n = ground arith in
          subst (λ x. IsSound x now) (sym e) (release-IsSound sv.negotiator n id sv.node_id now r v)
    ]

pub perform-IsSound :
    (sv : LockService) (now : ℕ) (c : Call)
    → Agrees sv now c
    → IsSound sv.negotiator now
    → IsSound (perform sv now c).negotiator now
unfolding perform renew_lock renew_lock_with_ttl
perform-IsSound sv now (announces req random) a v = announces-IsSound sv req random now v
perform-IsSound sv now (acquires id) a v = acquire_lock-IsSound sv.negotiator id now v
perform-IsSound sv now (releases id) a v =
    or_before-IsSound sv (release_lock sv id now) now (λ sv' h. releases-IsSound sv sv' id now h v)
      v
perform-IsSound sv now (renews id) a v =
    or_before-IsSound sv (renew_lock sv id now) now
      (λ sv' h. renew_by-IsSound (λ l. renew l now) sv sv' id now (renew-KeepsTarget now) h v) v
perform-IsSound sv now (renews_with id ttl) a v =
    or_before-IsSound sv (renew_lock_with_ttl sv id ttl now) now
      (λ sv' h.
        renew_by-IsSound (λ l. renew_with_ttl l ttl now) sv sv' id now
          (renew_with_ttl-KeepsTarget ttl now) h v)
      v
perform-IsSound sv now (hears_acquired l) a v =
    or_before-IsSound sv (handle_remote_lock_acquired sv l now) now
      (λ sv' h. hears_acquired-IsSound sv sv' l now a h v) v
perform-IsSound sv now (hears_released id) a v =
    or_before-IsSound sv (handle_remote_lock_released sv id now) now
      (λ sv' h. hears_released-IsSound sv sv' id now h v) v
perform-IsSound sv now sweeps_locks a v = sweeps_locks-IsSound sv now v
perform-IsSound sv now sweeps_sessions a v = sweeps_sessions-IsSound sv.negotiator now v

IsSound-later : (n : LockNegotiator) (now later : ℕ) → now ≤ later → IsSound n now → IsSound n later
IsSound-later n now later h v = record {
  valid = v.valid;
  exclusive = IsExclusive-later n.store now later h v.exclusive;
  intents = v.intents;
}

pub run-IsSound :
    (sv : LockService) (since : ℕ) (cs : List (ℕ × Call))
    → IsFaithful sv since cs
    → IsSound sv.negotiator since
    → IsSound (run sv cs).negotiator (ending since cs)
unfolding run
run-IsSound sv since [] f v = v
run-IsSound sv since ((now, c) ∷ cs) f v =
    run-IsSound (perform sv now c) now cs f.2
      (perform-IsSound sv now c f.1 (IsSound-later sv.negotiator since now f.0 v))
