-- ===== src/Sync/Manager/Run.antt =====
-- The calls of src/domain/ctxsync/sync.go in any order: local changes, peers' deltas and heartbeats.
use agent_collab.Common.{
  ℕ, ◌+◌, ◌^◌, ◌<◌, String, refl, sym, subst, inl, inr, Option, List, [], ◌∷◌, arith, pos,
  Option-cases,
}
use agent_collab.Common.Dict.{IsDict}
use agent_collab.Sync.Clock.{time_of, increment, merge}
use agent_collab.Sync.Clock.Order.{Leq}
use agent_collab.Sync.Clock.Merge.{merge-Leq, increment-Leq}
use agent_collab.Sync.Delta.{Delta, get, new_delta_log}
use agent_collab.Sync.Delta.Log.{new_delta_log-IsLog}
use agent_collab.Sync.Manager.{
  SyncManager, FileChange, Conflict, new_sync_manager, set_callbacks, handle_local_change,
  local_delta, broadcast, receive_delta, notify_conflicts, detect_conflicts, check_peer_health,
  broadcast_heartbeat,
}
use agent_collab.Sync.Manager.Causality.{IsCausal, tick-IsCausal, local_delta-clock}

pub data Event : Type 0 where
  -- The change and the identifier of its delta.
  changes : FileChange → String → Event
  hears : Delta → Event
  beats : String → Event

unfoldable pub perform : SyncManager → ℕ → Event → SyncManager
perform sm now (changes change id) = (handle_local_change sm change id now).0
perform sm now (hears d) = (receive_delta sm d now).0
perform sm now (beats id) = broadcast_heartbeat (check_peer_health sm now) id now

unfoldable pub run : SyncManager → List (ℕ × Event) → SyncManager
unfolding perform
run sm [] = sm
run sm ((now, e) ∷ es) = run (perform sm now e) es

-- The node's counter is below its last value, and a peer's clock binds each node once, as a decoded
-- Go map does.
abbrev pub IsSmall : SyncManager → Event → Type 0
IsSmall sm (changes change id) = time_of sm.vector_clock sm.node_id + 1 < 2 ^ 64
IsSmall sm (hears d) =
    IsDict d.vector_clock × (time_of (merge sm.vector_clock d.vector_clock) sm.node_id + 1 < 2 ^ 64)
IsSmall sm (beats id) = Unit

abbrev pub AreSmall : SyncManager → List (ℕ × Event) → Type 0
AreSmall sm [] = Unit
AreSmall sm ((now, e) ∷ es) = IsSmall sm e × AreSmall (perform sm now e) es

change-IsCausal :
    (sm : SyncManager) (change : FileChange) (id : String) (now : ℕ)
    → IsSmall sm (changes change id)
    → IsCausal sm
    → IsCausal (handle_local_change sm change id now).0
      × Leq sm.vector_clock (handle_local_change sm change id now).0.vector_clock
unfolding handle_local_change broadcast
change-IsCausal sm change id now small v =
    let vc = increment sm.node_id sm.vector_clock in
    let up = increment-Leq sm.node_id sm.vector_clock small in
    elim (Option-cases (local_delta change.kind sm change vc id now)) [
      | inl e ↦
          rw (e, handle_local_change)
            (record { log = v.log; above = λ x m n. omega (arith, v.above x m n, up n) }, up)
      | inr (d, e) ↦
          let mine =
            subst (λ k. Leq k vc) (sym (local_delta-clock change.kind sm change vc id now d e))
              (λ n. omega arith) in
          elim (Option-cases sm.broadcast_fn) [
            | inl b ↦
                rw (e, handle_local_change)
                  (rw (b, broadcast) (tick-IsCausal sm _ d refl up mine v, up))
            | inr (fn, b) ↦
                rw (e, handle_local_change)
                  (rw (b, broadcast) (tick-IsCausal sm _ d refl up mine v, up))
          ]
    ]

hear-IsCausal :
    (sm : SyncManager) (d : Delta) (now : ℕ)
    → IsSmall sm (hears d)
    → IsCausal sm
    → IsCausal (receive_delta sm d now).0
      × Leq sm.vector_clock (receive_delta sm d now).0.vector_clock
unfolding receive_delta
hear-IsCausal sm d now (dict, small) v =
    let m = merge sm.vector_clock d.vector_clock in
    let (mine, theirs) = (merge-Leq sm.vector_clock d.vector_clock m dict).0 (λ n. omega arith) in
    let up = increment-Leq sm.node_id m small in
    let grow : Leq sm.vector_clock (increment sm.node_id m) = λ n. omega (arith, mine n, up n) in
    let below : Leq d.vector_clock (increment sm.node_id m) = λ n. omega (arith, theirs n, up n) in
    elim (Option-cases (get sm.delta_log d.id)) [
      | inr (x, e) ↦ rw (e, receive_delta) (v, λ n. omega arith)
      | inl e ↦ elim (Option-cases (notify_conflicts sm.on_conflict (detect_conflicts sm d now))) [
        | inr (x, c) ↦ rw (e, receive_delta) (rw c (v, λ n. omega arith))
        | inl c ↦ rw (e, receive_delta) (rw c (tick-IsCausal sm _ d refl grow below v, grow))
      ]
    ]

beat-IsCausal :
    (sm : SyncManager) (id : String) (now : ℕ)
    → IsCausal sm
    → IsCausal (broadcast_heartbeat (check_peer_health sm now) id now)
      × Leq sm.vector_clock (broadcast_heartbeat (check_peer_health sm now) id now).vector_clock
unfolding broadcast_heartbeat broadcast check_peer_health
beat-IsCausal sm id now v = elim (Option-cases sm.broadcast_fn) [
  | inl b ↦ rw (b, broadcast) (record { log = v.log; above = v.above }, λ n. omega arith)
  | inr (fn, b) ↦ rw (b, broadcast) (record { log = v.log; above = v.above }, λ n. omega arith)
]

perform-IsCausal :
    (sm : SyncManager) (now : ℕ) (e : Event)
    → IsSmall sm e
    → IsCausal sm
    → IsCausal (perform sm now e) × Leq sm.vector_clock (perform sm now e).vector_clock
unfolding perform
perform-IsCausal sm now (changes change id) small v = change-IsCausal sm change id now small v
perform-IsCausal sm now (hears d) small v = hear-IsCausal sm d now small v
perform-IsCausal sm now (beats id) small v = beat-IsCausal sm id now v

-- Whatever local changes, deltas of peers and heartbeats come in whatever order to a causal manager,
-- it stays causal and its clock does not fall, as long as its own counter does not wrap around and
-- the clocks of the deltas bind each node once.
pub run-IsCausal :
    (sm : SyncManager) (es : List (ℕ × Event))
    → AreSmall sm es
    → IsCausal sm
    → IsCausal (run sm es) × Leq sm.vector_clock (run sm es).vector_clock
unfolding run
run-IsCausal sm [] small v = (v, λ n. omega arith)
run-IsCausal sm ((now, e) ∷ es) small v =
    let (v', up) = perform-IsCausal sm now e small.0 v in
    let (v'', up') = run-IsCausal (perform sm now e) es small.1 v' in
    (v'', λ n. omega (arith, up n, up' n))

-- A new manager is causal, whatever its callbacks.
pub new_sync_manager-IsCausal :
    (id name : String) (fn : Option (Delta → Option String))
    (handler : Option (Conflict → Option String))
    → IsCausal (set_callbacks (new_sync_manager id name) fn handler)
unfolding set_callbacks new_sync_manager new_delta_log
new_sync_manager-IsCausal id name fn handler = record {
  log = new_delta_log-IsLog (pos 1000);
  above = λ d m. absurd m;
}
