-- ===== src/Sync/Manager/Causality.antt =====
-- Causal order in src/domain/ctxsync/sync.go: a node's clock is above every delta that its log holds.
use agent_collab.Common.{
  ℕ, ◌+◌, ◌^◌, ◌<◌, String, ◌≡◌, refl, sym, subst, inl, inr, true, none, some, In, arith,
  Option-cases,
}
use agent_collab.Common.Dict.{IsDict}
use agent_collab.Sync.Clock.{VectorClock, time_of, increment, merge, happens_before}
use agent_collab.Sync.Clock.Order.{Leq}
use agent_collab.Sync.Clock.Merge.{merge-Leq, increment-after}
use agent_collab.Sync.Delta.{Delta, DeltaLog, get, append}
use agent_collab.Sync.Delta.Log.{IsLog, append-IsLog}
use agent_collab.Sync.Delta.Retention.{append-In}
use agent_collab.Sync.Manager.{
  SyncManager, FileChange, ChangeType, modified, created, deleted, other_change, local_delta,
  broadcast, handle_local_change, receive_delta, notify_conflicts, detect_conflicts,
}

-- The log is well-formed, and the manager's clock is above the clock of each of its deltas.
pub record IsCausal (sm : SyncManager) : Type 0 where
  pub log : IsLog sm.delta_log
  pub above : (d : Delta) → In d sm.delta_log.deltas → Leq d.vector_clock sm.vector_clock

pub tick-IsCausal :
    (sm sm' : SyncManager) (d : Delta)
    → sm'.delta_log ≡ append d sm.delta_log
    → Leq sm.vector_clock sm'.vector_clock
    → Leq d.vector_clock sm'.vector_clock
    → IsCausal sm
    → IsCausal sm'
tick-IsCausal sm sm' d e up mine v = record {
  log = subst IsLog (sym e) (append-IsLog d sm.delta_log v.log);
  above = λ x m.
      elim (append-In x d sm.delta_log v.log (subst (λ (l : DeltaLog). In x l.deltas) e m)) [
        | inl old ↦ λ n. omega (arith, v.above x old n, up n)
        | inr new ↦ subst (λ (y : Delta). Leq y.vector_clock sm'.vector_clock) (sym new) mine
      ];
}

-- Receiving a delta that the log does not have, without an error of the conflict handler, leaves the
-- node with a clock after the delta's clock and after its own former one, as long as its own counter
-- does not wrap around.
pub receive_delta-after :
    (sm sm' : SyncManager) (d : Delta) (now : ℕ)
    → IsDict d.vector_clock
    → time_of (merge sm.vector_clock d.vector_clock) sm.node_id + 1 < 2 ^ 64
    → get sm.delta_log d.id ≡ none
    → receive_delta sm d now ≡ (sm', none)
    → (happens_before d.vector_clock sm'.vector_clock ≡ true)
      × (happens_before sm.vector_clock sm'.vector_clock ≡ true)
      × (sm'.delta_log ≡ append d sm.delta_log)
unfolding receive_delta
receive_delta-after sm sm' d now dict small fresh h =
    let m = merge sm.vector_clock d.vector_clock in
    let (mine, theirs) = (merge-Leq sm.vector_clock d.vector_clock m dict).0 (λ n. omega arith) in
    elim (Option-cases (notify_conflicts sm.on_conflict (detect_conflicts sm d now))) [
      | inr (e, c) ↦ absurd (ground arith)
      | inl c ↦
          let clock : sm'.vector_clock ≡ increment sm.node_id m = ground arith in
          (
            subst (λ k. happens_before d.vector_clock k ≡ true) (sym clock)
                (increment-after sm.node_id m d.vector_clock small theirs),
            subst (λ k. happens_before sm.vector_clock k ≡ true) (sym clock)
                (increment-after sm.node_id m sm.vector_clock small mine),
            ground arith,
          )
    ]

pub local_delta-clock :
    (kind : ChangeType) (sm : SyncManager) (change : FileChange) (vc : VectorClock) (id : String)
    (now : ℕ) (d : Delta)
    → local_delta kind sm change vc id now ≡ some d
    → d.vector_clock ≡ vc
unfolding local_delta
local_delta-clock modified sm change vc id now d e = ground arith
local_delta-clock created sm change vc id now d e = ground arith
local_delta-clock deleted sm change vc id now d e = ground arith
local_delta-clock (other_change kind) sm change vc id now d e = absurd (ground arith)

-- In a causal manager whose own counter does not wrap around, the delta of a local change happens
-- after every delta of the log, and is appended to the log.
pub handle_local_change-after :
    (sm : SyncManager) (change : FileChange) (id : String) (now : ℕ) (d : Delta)
    → IsCausal sm
    → time_of sm.vector_clock sm.node_id + 1 < 2 ^ 64
    → local_delta change.kind sm change (increment sm.node_id sm.vector_clock) id now ≡ some d
    → ((handle_local_change sm change id now).0.delta_log ≡ append d sm.delta_log)
      × ((x : Delta)
          → In x sm.delta_log.deltas
          → happens_before x.vector_clock d.vector_clock ≡ true)
unfolding handle_local_change broadcast
handle_local_change-after sm change id now d v small e = (
  elim (Option-cases sm.broadcast_fn) [
    | inl n ↦ rw (e, handle_local_change) (rw (n, broadcast) refl)
    | inr (fn, n) ↦ rw (e, handle_local_change) (rw (n, broadcast) refl)
  ],
  λ x m.
      subst (λ k. happens_before x.vector_clock k ≡ true)
        (sym (
          local_delta-clock change.kind sm change (increment sm.node_id sm.vector_clock) id now d
            e))
        (increment-after sm.node_id sm.vector_clock x.vector_clock small (v.above x m)),
)
