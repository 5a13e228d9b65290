-- ===== src/Network/Batcher/Examples.antt =====
-- Tests of the batcher of src/infrastructure/network/libp2p/batcher.go, and its theorems at concrete
-- inputs.
use agent_collab.Common.{ℕ, ◌≡◌, refl, Bool, false, none, List, [], ◌∷◌, ◌++◌, length, leb}
use agent_collab.Common.Dict.{lookup, insert}
use agent_collab.Network.Batcher.{
  Bytes, MessageBatcher, new_message_batcher, flush_batch, flush_locked, with_message, add, fire,
  process_flush_request, flush_each, flush_all, all_of,
}
use agent_collab.Network.Batcher.Order.{delivered, waiting, history}
use agent_collab.Network.Batcher.Runs
use agent_collab.Network.Batcher.Runs.{
  Action, adds, flushes, fires, processes, flushes_all, added, run,
}

program : Unit {0}
unfolding lookup insert new_message_batcher flush_batch flush_locked with_message add fire
    process_flush_request flush_each flush_all delivered waiting added run
program = tt

-- For the tests, a message is JSON if it is not empty.
is_json : Bytes → Bool
is_json m = leb 1 (length m)

abbrev start : MessageBatcher
start =
    new_message_batcher (record { max_size = 2; max_delay = 0; max_batch_size = 0 }) (λ t b. none)

-- The second message fills the batch of "t", the timer of "u" goes off, and the last one waits.
abbrev actions : List (ℕ × Action)
actions =
    (1, adds "t" (7 ∷ []))
    ∷ (2, adds "u" (8 ∷ []))
    ∷ (3, adds "t" (9 ∷ []))
    ∷ (4, fires "u")
    ∷ (5, processes)
    ∷ (6, adds "t" (6 ∷ []))
    ∷ []

handed : delivered "t" (run is_json start actions).published ≡ (7 ∷ []) ∷ (9 ∷ []) ∷ []
unfolding program is_json
handed = refl

rest : waiting "t" (run is_json start actions).batches ≡ (6 ∷ []) ∷ []
unfolding program is_json
rest = refl

run-history_example :
    history "t" (run is_json start actions) ≡ history "t" start ++ added "t" actions
run-history_example = Runs.run-history is_json start actions "t"

-- A message of no bytes came first.
abbrev poisoned : MessageBatcher
unfolding program
poisoned = (add is_json start "t" [] 1).0

run_poisoned_example :
    (delivered "t" (run is_json poisoned actions).published ≡ [])
    × (all_of is_json (waiting "t" (run is_json poisoned actions).batches) ≡ false)
unfolding program is_json
run_poisoned_example = Runs.run_poisoned is_json poisoned actions "t" refl
