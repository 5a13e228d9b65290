-- ===== src/Sync/Recovery/Examples.antt =====
-- Tests of src/domain/ctxsync/recovery.go, and its theorems at concrete inputs.
use agent_collab.Common.{ℕ, String, ◌≡◌, refl, ◌↔◌, true, none, [], ◌∷◌, pos, In, ok, err}
use agent_collab.Common.Dict.{lookup, insert, values}
use agent_collab.Common.Order.{text_lt}
use agent_collab.Sync.Clock.{time_of, increment, new_vector_clock, flags, compare, is_concurrent}
use agent_collab.Sync.Delta.{
  Delta, DeltaLog, new_delta, new_file_change_delta, new_delta_log, append, get, get_by_source,
}
use agent_collab.Sync.Recovery.{
  RecoveryManager, RecoveryResult, escalated, already_in_progress, new_recovery_manager,
  start_recovery, receive_delta_replay, replays_before, insert_in_order, sort_in_order, concat,
  replay_delta, replay_all, resolution_of, resolve_conflict, note_conflict, compare_with,
  compare_pairs, compare_files, finish_recovery,
}
use agent_collab.Sync.Recovery.Winners
use agent_collab.Sync.Recovery.Winners.{winner, All, Both}

program : Unit {0}
unfolding lookup insert text_lt time_of increment flags compare is_concurrent new_delta
    new_file_change_delta new_delta_log append get get_by_source new_recovery_manager start_recovery
    receive_delta_replay replays_before insert_in_order sort_in_order concat replay_delta replay_all
    resolution_of resolve_conflict note_conflict compare_with compare_pairs compare_files
    finish_recovery
program = tt

abbrev change : String → String → ℕ → Delta
change id source now =
    new_file_change_delta source source (increment source new_vector_clock) "a.go" none id now

-- This node's own change of the file is in its log.
abbrev log : DeltaLog
log = append (change "d0" "me" 4) (new_delta_log (pos 10))

abbrev recovering : RecoveryManager
recovering = record (new_recovery_manager "me" "me" log) {
  in_recovery = true;
  pending_replays = ("b", change "d2" "bob" 5 ∷ []) ∷ ("a", change "d1" "ann" 5 ∷ []) ∷ [];
}

received :
    (receive_delta_replay
      (record recovering { pending_replays = [] })
      "b"
      (change "d2" "bob" 5 ∷ [])).pending_replays
    ≡ ("b", change "d2" "bob" 5 ∷ []) ∷ []
unfolding program
received = refl

twice : start_recovery recovering 2 3 ≡ err already_in_progress
unfolding program
twice = refl

abbrev finished : RecoveryManager × RecoveryResult
unfolding program
finished = elim (finish_recovery recovering) [ ok done ↦ done | err e ↦ (recovering, none_found) ]
  where
    none_found : RecoveryResult
    none_found = record {
      deltas_replayed = 0;
      deltas_merged = 0;
      conflicts_found = 0;
      conflicts_resolved = 0;
      conflicts_escalated = 0;
      peers_reconciled = 0;
      conflicts = [];
    }

-- Ann's change and Bob's conflict, and Ann's wins; this node's own change is not compared with them.
one_conflict :
    (finished.1.conflicts_found ≡ 1)
    × (finished.1.conflicts_resolved ≡ 1)
    × (finished.1.deltas_replayed ≡ 2)
unfolding program
one_conflict = (refl, refl, refl)

resolution_of_symm_example :
    (winner
        (change "d1" "ann" 5)
        (change "d2" "bob" 5)
        (resolve_conflict "me" "a.go" (change "d1" "ann" 5) (change "d2" "bob" 5)).resolution
      ≡ winner
          (change "d2" "bob" 5)
          (change "d1" "ann" 5)
          (resolve_conflict "you" "a.go" (change "d2" "bob" 5) (change "d1" "ann" 5)).resolution)
    × ((resolve_conflict "me" "a.go" (change "d1" "ann" 5) (change "d2" "bob" 5)).resolution
          ≡ escalated
        ↔ ((change "d1" "ann" 5).timestamp ≡ (change "d2" "bob" 5).timestamp)
          × ((change "d1" "ann" 5).source_id ≡ (change "d2" "bob" 5).source_id))
resolution_of_symm_example =
    Winners.resolution_of_symm "me" "you" "a.go" (change "d1" "ann" 5) (change "d2" "bob" 5)

finish_recovery_received_example :
    All (Both (λ d. In d (concat (values recovering.pending_replays)))) finished.1.conflicts
unfolding program
finish_recovery_received_example =
    Winners.finish_recovery_received recovering finished.0 finished.1 refl
