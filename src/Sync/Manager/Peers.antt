-- ===== src/Sync/Manager/Peers.antt =====
-- Peers and requests of src/domain/ctxsync/sync.go.
use agent_collab.Common.{
  ℕ, ◌+◌, ◌≤◌, String, ◌≡◌, ◌↔◌, refl, sym, subst, inl, inr, true, false, none, some, [], ◌∷◌, In,
  arith, eq_refl, ok, Option-cases,
}
use agent_collab.Common.Dict.{Dict, lookup, insert, lookup-insert}
use agent_collab.Sync.Clock.{VectorClock, happens_before}
use agent_collab.Sync.Delta.{Delta, get}
use agent_collab.Sync.Delta.Log.{get_since_iff}
use agent_collab.Sync.Manager.{
  SyncManager, PeerState, peer_timeout, check_peer, check_peers, check_peer_health,
  update_peer_state, receive_delta, notify_conflicts, detect_conflicts, request_sync, SyncRequest,
  handle_sync_request,
}

lookup-check_peers :
    (id : String) (now : ℕ) (ps : Dict PeerState)
    → lookup id (check_peers now ps)
      ≡ elim (lookup id ps) [ none ↦ none | some p ↦ some (check_peer now p) ]
unfolding lookup
lookup-check_peers id now [] = refl
lookup-check_peers id now ((k, p) ∷ ps) = ground (arith, lookup-check_peers id now ps)

-- After the health check, a known peer is online exactly if it was online and was seen within the
-- timeout.
pub check_peer_health-online :
    (sm : SyncManager) (id : String) (now : ℕ) (p : PeerState)
    → lookup id sm.peers ≡ some p
    → (q : PeerState) × (lookup id (check_peer_health sm now).peers ≡ some q)
      × ((q.is_online ≡ true) ↔ ((p.is_online ≡ true) × (now ≤ p.last_seen + peer_timeout)))
unfolding check_peer_health check_peer
check_peer_health-online sm id now p e = (
  check_peer now p,
  ground (arith, lookup-check_peers id now sm.peers),
  ((λ h. ground arith), (λ h. ground arith)),
)

lookup-insert_self :
    (id : String) (q : PeerState) (peers : Dict PeerState) → lookup id (insert id q peers) ≡ some q
lookup-insert_self id q peers = rw (lookup-insert id id q peers, eq_refl id) refl

lookup-update_peer_state :
    (peers : Dict PeerState) (id name : String) (vc : VectorClock) (now : ℕ)
    → (q : PeerState) × (lookup id (update_peer_state peers id name vc now) ≡ some q)
      × (q.vector_clock ≡ vc)
unfolding update_peer_state
lookup-update_peer_state peers id name vc now = (_, lookup-insert_self id _ peers, refl)

-- After a delta that the log did not have is received without an error, a request to its source names
-- the delta's clock as the last one known.
pub request_sync-receive_delta :
    (sm sm' : SyncManager) (d : Delta) (now later : ℕ)
    → get sm.delta_log d.id ≡ none
    → receive_delta sm d now ≡ (sm', none)
    → (req : SyncRequest) × (request_sync sm' d.source_id later ≡ ok req)
      × (req.last_known_clock ≡ d.vector_clock)
      × (req.target_id ≡ d.source_id)
unfolding receive_delta request_sync update_peer_state
request_sync-receive_delta sm sm' d now later fresh h =
    elim (Option-cases (notify_conflicts sm.on_conflict (detect_conflicts sm d now))) [
      | inr (x, c) ↦ absurd (ground arith)
      | inl c ↦
          let (q, found, clock) =
            lookup-update_peer_state sm.peers d.source_id d.source_name d.vector_clock now in
          let peers : sm'.peers
              ≡ update_peer_state sm.peers d.source_id d.source_name d.vector_clock now =
            ground arith in
          let found' = subst (λ ps. lookup d.source_id ps ≡ some q) (sym peers) found in
          (
            record {
              requestor_id = sm'.node_id;
              requestor_name = sm'.node_name;
              target_id = d.source_id;
              last_known_clock = q.vector_clock;
              timestamp = later;
            },
            rw (found', request_sync) refl,
            clock,
            refl,
          )
    ]

-- The response to a request holds exactly the deltas of the log that did not happen before the clock
-- that the request names.
pub handle_sync_request_iff :
    (sm : SyncManager) (req : SyncRequest) (now : ℕ) (d : Delta)
    → In d (handle_sync_request sm req now).deltas
      ↔ (In d sm.delta_log.deltas × (happens_before d.vector_clock req.last_known_clock ≡ false))
unfolding handle_sync_request
handle_sync_request_iff sm req now d = get_since_iff sm.delta_log req.last_known_clock d
