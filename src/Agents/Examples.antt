-- ===== src/Agents/Examples.antt =====
-- Tests of the functions of src/domain/agent/registry.go, and the theorems at concrete inputs.
use agent_collab.Common.{String, ◌≡◌, refl, List, [], ◌∷◌, ok}
use agent_collab.Common.Dict.{lookup, insert, delete}
use agent_collab.Agents.{
  ConnectedAgent, Registry, new_registry, ids_with, has_capability, index_capabilities, stored,
  register, remove_from_slice, remove_everywhere, unregister, agents_of, list_by_capability,
  best_of, find_best_agent,
}
use agent_collab.Agents.Laws
use agent_collab.Agents.Laws.{Online}

program : Unit {0}
unfolding lookup insert delete ids_with has_capability index_capabilities stored register
    remove_from_slice remove_everywhere unregister agents_of list_by_capability best_of
    find_best_agent
program = tt

abbrev agent_with : List String → ConnectedAgent
agent_with skills = record {
  info = record {
    id = "ann";
    name = "Ann";
    provider = "openai";
    model = "m";
    version = "1";
    capabilities = skills;
  };
  peer_id = "p";
  status = "online";
  connected_at = 1;
  last_seen_at = 1;
  tokens_used = 0;
  request_count = 0;
}

-- The agent joined with a capability, and came back without it.
abbrev joined : Registry
joined = record {
  agents = ("ann", agent_with ("chat" ∷ [])) ∷ [];
  by_peer = ("p", "ann") ∷ [];
  by_cap = ("chat", "ann" ∷ []) ∷ [];
}

abbrev came_back : Registry
came_back = record joined { agents = ("ann", record (agent_with []) { last_seen_at = 9 }) ∷ [] }

joins : register new_registry (agent_with ("chat" ∷ [])) 1 ≡ ok joined
unfolding program
joins = refl

still_listed :
    list_by_capability came_back "chat" ≡ record (agent_with []) { last_seen_at = 9 } ∷ []
unfolding program
still_listed = refl

find_best_agent-Online_example : Online joined (ids_with joined "chat") (agent_with ("chat" ∷ []))
unfolding program
find_best_agent-Online_example =
    Laws.find_best_agent-Online joined "chat" "openai" (agent_with ("chat" ∷ [])) refl

abbrev left : Registry
left = record { agents = []; by_peer = []; by_cap = ("chat", []) ∷ [] }
