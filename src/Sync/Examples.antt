-- ===== src/Sync/Examples.antt =====
-- Tests of the functions of src/domain/ctxsync, and the theorems at concrete inputs.
use agent_collab.Common.{String, ◌≡◌, ◌≢◌, ◌↔◌, refl, true, false, none, [], ◌∷◌, In, pos}
use agent_collab.Common.Dict.{lookup, insert, delete}
use agent_collab.Sync.Clock.{
  VectorClock, time_of, increment, merge_entry, merge, flags, compare, happens_before,
  happens_after, is_concurrent,
}
use agent_collab.Sync.Clock.Order
use agent_collab.Sync.Clock.Order.{Leq}
use agent_collab.Sync.Clock.Merge
use agent_collab.Sync.Delta.{
  Delta, DeltaLog, empty_payload, new_delta_log, get, get_by_source, without_first, set_source,
  evict_oldest, append, get_since, new_delta, new_file_change_delta,
}
use agent_collab.Sync.Delta.Log
use agent_collab.Sync.Delta.Log.{IsLog}
use agent_collab.Sync.Delta.Retention

program : Unit {0}
unfolding lookup insert delete time_of increment merge_entry merge flags compare happens_before
    happens_after is_concurrent new_delta_log get get_by_source without_first set_source
    evict_oldest append get_since new_delta new_file_change_delta
program = tt

abbrev early : VectorClock
early = ("a", 1) ∷ ("b", 2) ∷ []

abbrev late : VectorClock
late = ("b", 3) ∷ ("c", 1) ∷ []

-- Neither is below the other: "a" is ahead in one, "b" and "c" in the other.
apart : is_concurrent early late ≡ true
unfolding program
apart = refl

joined : merge early late ≡ ("a", 1) ∷ ("b", 3) ∷ ("c", 1) ∷ []
unfolding program
joined = refl

after_join : happens_before early (merge early late) ≡ true
unfolding program
after_join = refl

happens_before_iff_example :
    (happens_before early late ≡ true) ↔ (Leq early late × (¬ Leq late early))
happens_before_iff_example = Order.happens_before_iff early late

merge-Leq_example : Leq (merge early late) late ↔ (Leq early late × Leq late late)
unfolding lookup
merge-Leq_example = Merge.merge-Leq early late late (refl, (refl, tt))

abbrev delta_of : String → String → VectorClock → Delta
delta_of id source vc = record {
  id = id;
  kind = "file_change";
  source_id = source;
  source_name = source;
  vector_clock = vc;
  timestamp = 5;
  payload = record empty_payload { file_path = "a.go" };
}

abbrev remote : Delta
remote = delta_of "delta-r" "b" (("b", 1) ∷ [])

-- A log of two deltas at most, with one of each node.
abbrev two : DeltaLog
unfolding program
two = append remote (append (delta_of "delta-l" "a" (("a", 1) ∷ [])) (new_delta_log (pos 2)))

two-IsLog : IsLog two
unfolding two append
two-IsLog =
    Log.append-IsLog remote
      (append (delta_of "delta-l" "a" (("a", 1) ∷ [])) (new_delta_log (pos 2)))
      (Log.append-IsLog (delta_of "delta-l" "a" (("a", 1) ∷ [])) (new_delta_log (pos 2))
        (Log.new_delta_log-IsLog (pos 2)))

third_evicts :
    (append (delta_of "delta-x" "a" []) two).by_source
    ≡ ("a", delta_of "delta-x" "a" [] ∷ []) ∷ ("b", remote ∷ []) ∷ []
unfolding program
third_evicts = refl

append-IsLog_example : IsLog (append (delta_of "delta-x" "a" []) two)
append-IsLog_example = Log.append-IsLog (delta_of "delta-x" "a" []) two two-IsLog

new_delta_log-IsLog_example : IsLog (new_delta_log (pos 0))
new_delta_log-IsLog_example = Log.new_delta_log-IsLog (pos 0)

get_since_iff_example :
    In remote (get_since two late)
    ↔ (In remote two.deltas × (happens_before remote.vector_clock late ≡ false))
get_since_iff_example = Log.get_since_iff two late remote

get-append_example : get (append (delta_of "delta-x" "a" []) two) "delta-x" ≢ none
get-append_example = Retention.get-append (delta_of "delta-x" "a" []) two two-IsLog
