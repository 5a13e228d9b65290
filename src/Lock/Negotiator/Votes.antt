-- ===== src/Lock/Negotiator/Votes.antt =====
-- Votes on a session of src/domain/lock/negotiator.go.
use agent_collab.Common.{
  ℕ, ◌*◌, ◌/◌, ◌≤◌, ◌<◌, String, ◌≡◌, refl, sym, ◌∙◌, subst, ◌⊎◌, inl, inr, false, Option, none,
  some, ok, err, arith, eq_refl, eq_iff, ◌≢◌, ap, Option-cases, Result-cases, if◌then◌else◌, str_eq,
  Bool-cases, List, [], ◌∷◌, length, leb, ltb, ltb→lt,
}
use agent_collab.Common.Dict.{Dict, lookup, insert, values, lookup-insert, lookup-delete}
use agent_collab.Lock.Target.{target_id, lock_not_found}
use agent_collab.Lock.Semantic.{SemanticLock, is_expired}
use agent_collab.Lock.Store.{
  LockStore, add, remove, get, live_at, target_is_taken, add_history, drop_lock,
}
use agent_collab.Lock.Store.Laws.{add-locks}
use agent_collab.Lock.Negotiator.Takeover.{evicted, evicted-lookup, evicted-heap}
use agent_collab.Lock.Negotiator.{LockNegotiator, NegotiationSession, NegotiationState, Vote}
use agent_collab.Lock.Negotiator.Proposals.{take_over, approvals, resolve_by_votes, cast_vote}

evicted-indexed :
    (s : LockStore) (id : String) (now : ℕ) (t i : String)
    → lookup t (evicted s id now).by_target ≡ some i
    → lookup t s.by_target ≡ some i
unfolding evicted remove add_history drop_lock
evicted-indexed s id now t i h = elim (Option-cases (lookup id s.locks)) [
  | inl e ↦ ground arith
  | inr (r, e) ↦ ground (arith, lookup-delete (target_id (s.heap r).target) t s.by_target)
]

-- Where nothing but the loser keeps the newcomer's target, the newcomer is added.
admitted :
    (s : LockStore) (conflicting requested now : ℕ)
    → ((i : String)
        → lookup (target_id (s.heap requested).target) s.by_target ≡ some i
        → i ≡ (s.heap conflicting).id)
    → (s' : LockStore) × (add (evicted s (s.heap conflicting).id now) requested now ≡ ok s')
unfolding add target_is_taken
admitted s conflicting requested now only =
    let id = (s.heap conflicting).id in
    let e = evicted s id now in
    let t = target_id (s.heap requested).target in
    let same : target_id (e.heap requested).target ≡ t =
      ap (λ k. target_id (k requested).target) (evicted-heap s id now) in
    let free : target_is_taken e t now ≡ false = elim (Option-cases (lookup t e.by_target)) [
      | inl n ↦ rw (n, target_is_taken) refl
      | inr (i, n) ↦
          let gone : lookup i e.locks ≡ none =
            evicted-lookup s id now i
            ∙ ground (arith, eq_iff id i, only i (evicted-indexed s id now t i n)) in
          rw (n, target_is_taken) (rw gone refl)
    ] in
    let free' : target_is_taken e (target_id (e.heap requested).target) now ≡ false =
      subst (λ k. target_is_taken e k now ≡ false) (sym same) free in
    elim (Result-cases (add e requested now)) [
      | inl (s', h) ↦ (s', h)
      | inr (x, h) ↦ absurd (ground (arith, h, free'))
    ]

-- What `get` finds in a store with the same heap.
get-same :
    (s s' : LockStore) (i : String) (now : ℕ) (x : Option ℕ)
    → s'.heap ≡ s.heap
    → lookup i s'.locks ≡ x
    → get s' i now ≡ live_at s x now
unfolding get live_at
get-same s s' i now none h e = rw (e, get) refl
get-same s s' i now (some r) h e =
    rw (e, get) (ap (λ k. live_at (record s { heap = k }) (some r) now) h)

-- What readers find after a takeover.
take_over-get :
    (s : LockStore) (conflicting requested now : ℕ)
    → (s.heap conflicting).id ≢ (s.heap requested).id
    → is_expired (s.heap requested) now ≡ false
    → ((i : String)
        → lookup (target_id (s.heap requested).target) s.by_target ≡ some i
        → i ≡ (s.heap conflicting).id)
    → let s' = take_over s conflicting requested now in
      (get s' (s.heap requested).id now ≡ ok requested)
      × (get s' (s.heap conflicting).id now ≡ err lock_not_found)
      × ((i : String)
          → i ≢ (s.heap requested).id
          → i ≢ (s.heap conflicting).id
          → get s' i now ≡ get s i now)
unfolding take_over get live_at evicted
take_over-get s conflicting requested now apart fresh only =
    let loser = (s.heap conflicting).id in
    let winner = (s.heap requested).id in
    let e = evicted s loser now in
    let (s', h) = admitted s conflicting requested now only in
    let (heap, _, m, _, _) = add-locks e requested now s' h in
    let kept : s'.heap ≡ s.heap = heap ∙ evicted-heap s loser now in
    let m' : s'.locks ≡ insert winner requested e.locks =
      subst (λ (k : ℕ → SemanticLock). s'.locks ≡ insert (k requested).id requested e.locks)
        (evicted-heap s loser now) m in
    let at : (i : String)
        → lookup i s'.locks ≡ (
            if str_eq winner i
            then some requested
            else if str_eq loser i
            then none
            else lookup i s.locks) =
      λ i.
        ap (lookup i) m'
        ∙ lookup-insert winner i requested e.locks
        ∙ ap (λ x. if str_eq winner i then some requested else x) (evicted-lookup s loser now i) in
    let same : take_over s conflicting requested now ≡ s' = rw h refl in
    let seen : (i : String) (x : Option ℕ)
        → lookup i s'.locks ≡ x
        → get (take_over s conflicting requested now) i now ≡ live_at s x now =
      λ i x y. ap (λ k. get k i now) same ∙ get-same s s' i now x kept y in
    (
      seen winner (some requested) (at winner ∙ rw (eq_refl winner) refl) ∙ rw fresh refl,
      seen loser none (at loser ∙ ground (arith, eq_iff winner loser, eq_refl loser, apart)),
      λ i other gone.
          seen i (lookup i s.locks)
            (at i ∙ ground (arith, eq_iff winner i, eq_iff loser i, other, gone)),
    )

-- If more than half of a session's votes approve, its resolution makes the newcomer's lock one that
-- `get` finds and the loser's one that it does not find, and what it gives for any other identifier
-- stays; otherwise the session is rejected and the store stays as it was. This holds where the
-- newcomer's lock is live, the two have different identifiers, and nothing but the loser is indexed
-- under the newcomer's target.
pub resolve_by_votes_majority :
    (s : LockStore) (session : NegotiationSession) (now : ℕ)
    → let loser = (s.heap session.conflicting_lock).id in
      let newcomer = s.heap session.requested_lock in
      loser ≢ newcomer.id
      → is_expired newcomer now ≡ false
      → ((i : String) → lookup (target_id newcomer.target) s.by_target ≡ some i → i ≡ loser)
      → let t = resolve_by_votes s session now in
        let ayes = approvals (values session.votes) in
        ((length session.votes < 2 * ayes)
          × (t.session.state ≡ NegotiationState.acquired)
          × (get t.store newcomer.id now ≡ ok session.requested_lock)
          × (get t.store loser now ≡ err lock_not_found)
          × ((i : String) → i ≢ newcomer.id → i ≢ loser → get t.store i now ≡ get s i now))
        ⊎ ((2 * ayes ≤ length session.votes)
            × (t.session.state ≡ NegotiationState.rejected)
            × (t.store ≡ s))
unfolding resolve_by_votes
resolve_by_votes_majority s session now apart fresh only =
    let ayes = approvals (values session.votes) in
    elim (Bool-cases (ltb (length session.votes / 2) ayes)) [
      | inl y ↦
          let (won, lost, others) =
            take_over-get s session.conflicting_lock session.requested_lock now apart fresh only in
          inl (
            omega (arith, ltb→lt _ _ y),
            rw (y, resolve_by_votes),
            rw (y, resolve_by_votes) won,
            rw (y, resolve_by_votes) lost,
            λ i p q. rw (y, resolve_by_votes) (others i p q),
          )
      | inr n ↦ inr (ground arith, rw (n, resolve_by_votes), rw (n, resolve_by_votes))
    ]

-- The votes of one voter, whatever they say.
abbrev pub OneVoter : String → List Vote → Type 0
OneVoter v [] = Unit
OneVoter v (x ∷ xs) = (x.voter_id ≡ v) × OneVoter v xs

-- Votes on a session, one after another.
pub cast_votes : LockNegotiator → String → ℕ → List Vote → LockNegotiator
cast_votes n id now [] = n
cast_votes n id now (v ∷ vs) = elim (cast_vote n id v now) [
  | err e ↦ n
  | ok n' ↦ cast_votes n' id now vs
]

-- A session that waits for at least two votes and has at most one, of the voter.
pub record Waits (n : LockNegotiator) (id : String) (v : String) : Type 0 where
  pub session : NegotiationSession
  pub found : lookup id n.sessions ≡ some session
  pub waiting : 2 ≤ session.required_votes
  pub alone : (session.votes ≡ []) ⊎ ((x : Vote) × (session.votes ≡ (v, x) ∷ []))
  pub unresolved : session.resolution ≡ none

insert_alone :
    (v : String) (x : Vote) (votes : Dict Vote)
    → (votes ≡ []) ⊎ ((y : Vote) × (votes ≡ (v, y) ∷ []))
    → insert v x votes ≡ (v, x) ∷ []
unfolding insert
insert_alone v x votes (inl e) = rw e
insert_alone v x votes (inr (y, e)) = rw (e, insert) (rw (eq_refl v))

cast_vote-Waits :
    (n : LockNegotiator) (id v : String) (x : Vote) (now : ℕ)
    → x.voter_id ≡ v
    → Waits n id v
    → (n' : LockNegotiator) × (cast_vote n id x now ≡ ok n') × Waits n' id v × (n'.store ≡ n.store)
unfolding cast_vote
cast_vote-Waits n id v x now mine w =
    let voted = record (w.session) { votes = (v, x) ∷ [] } in
    let fold =
      subst (λ k. insert k x w.session.votes ≡ (v, x) ∷ []) (sym mine)
        (insert_alone v x w.session.votes w.alone) in
    let few : leb w.session.required_votes 1 ≡ false = ground (arith, w.waiting) in
    (
      record n { sessions = insert id voted n.sessions },
      rw (w.found, cast_vote) (rw fold (rw few)),
      record {
        session = voted;
        found = rw (lookup-insert id id voted n.sessions, eq_refl id);
        waiting = w.waiting;
        alone = inr (x, refl);
        unresolved = w.unresolved;
      },
      refl,
    )

-- One voter alone settles nothing: where a session waits for at least two votes and has at most
-- one, of that voter, any votes of his leave it so, unresolved, and the store as it was.
pub cast_votes_alone :
    (n : LockNegotiator) (id v : String) (now : ℕ) (vs : List Vote)
    → OneVoter v vs
    → Waits n id v
    → Waits (cast_votes n id now vs) id v × ((cast_votes n id now vs).store ≡ n.store)
unfolding cast_votes
cast_votes_alone n id v now [] o w = (w, refl)
cast_votes_alone n id v now (x ∷ xs) o w =
    let (n', e, w', same) = cast_vote-Waits n id v x now o.0 w in
    let (w'', same') = cast_votes_alone n' id v now xs o.1 w' in
    rw (e, cast_votes) (w'', same' ∙ same)
