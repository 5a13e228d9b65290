-- ===== src/Agents.antt =====
-- src/domain/agent/registry.go: the agents that are connected, with an index by peer and one by
-- capability. An agent is a value here: nobody else writes to one that is registered. The callbacks
-- only observe, and are left out, as is the agents' metadata.
pub mod Laws
mod Examples
use agent_collab.Common.{
  ℕ, ◌+◌, ◌-◌, ◌*◌, ◌^◌, String, ◌<>◌, Bool, true, false, not, ◌&&◌, if◌then◌else◌, ltb, str_eq,
  Option, none, some, List, [], ◌∷◌, ◌++◌, length, keep, some_of, Result, ok, err,
}
use agent_collab.Common.Dict.{Dict, lookup, insert, delete, values}

pub record AgentInfo : Type 0 where
  pub id : String
  pub name : String
  pub provider : String
  pub model : String
  pub version : String
  pub capabilities : List String

pub record ConnectedAgent : Type 0 where
  pub info : AgentInfo
  pub peer_id : String
  pub status : String
  pub connected_at : ℕ
  pub last_seen_at : ℕ
  pub tokens_used : ℕ
  pub request_count : ℕ

pub record Registry : Type 0 where
  pub agents : Dict ConnectedAgent
  pub by_peer : Dict String
  pub by_cap : Dict (List String)

abbrev pub new_registry : Registry
new_registry = record { agents = []; by_peer = []; by_cap = [] }

-- `r.byCap[cap]`: a missing capability reads as the nil slice.
unfoldable pub ids_with : Registry → String → List String
ids_with r skill = elim (lookup skill r.by_cap) [ none ↦ [] | some ids ↦ ids ]

unfoldable pub has_capability : Registry → String → String → Bool
unfolding ids_with
has_capability r skill id = some_of (λ i. str_eq i id) (ids_with r skill)

-- The loop of `Register` over the capabilities.
unfoldable pub index_capabilities : List String → String → Registry → Registry
unfolding has_capability
index_capabilities [] id r = r
index_capabilities (skill ∷ caps) id r = index_capabilities caps id (
    if has_capability r skill id
    then r
    else record r { by_cap = insert skill (ids_with r skill ++ id ∷ []) r.by_cap })

-- The agent and its peer's index, as `Register` stores them before it indexes the capabilities.
unfoldable pub stored : Registry → ConnectedAgent → ℕ → Registry
stored r agent now =
    let id = agent.info.id in
    let connected : ℕ = elim (lookup id r.agents) [ none ↦ now | some _ ↦ agent.connected_at ] in
    record r {
      agents =
          insert id
            (record agent { connected_at = connected; last_seen_at = now; status = "online" })
            r.agents;
      by_peer = if str_eq agent.peer_id "" then r.by_peer else insert agent.peer_id id r.by_peer;
    }

unfoldable pub register : Registry → ConnectedAgent → ℕ → Result String Registry
unfolding index_capabilities stored
register r agent now =
    if str_eq agent.info.id ""
    then err "agent ID is required"
    else ok (index_capabilities agent.info.capabilities agent.info.id (stored r agent now))

unfoldable pub remove_from_slice : List String → String → List String
remove_from_slice slice item = keep (λ s. not (str_eq s item)) slice

-- The loop of `Unregister` over the capabilities.
unfoldable pub remove_everywhere : Dict (List String) → String → Dict (List String)
unfolding remove_from_slice
remove_everywhere [] id = []
remove_everywhere ((skill, ids) ∷ rest) id =
    (skill, remove_from_slice ids id) ∷ remove_everywhere rest id

unfoldable pub unregister : Registry → String → Result String Registry
unfolding remove_everywhere
unregister r id = elim (lookup id r.agents) [
  | none ↦ err ("agent not found: " <> id)
  | some agent ↦ ok (record {
    agents = delete id r.agents;
    by_peer = if str_eq agent.peer_id "" then r.by_peer else delete agent.peer_id r.by_peer;
    by_cap = remove_everywhere r.by_cap id;
  })
]

unfoldable pub get_by_peer : Registry → String → Option ConnectedAgent
get_by_peer r peer = elim (lookup peer r.by_peer) [ none ↦ none | some id ↦ lookup id r.agents ]

unfoldable pub list_by_provider : Registry → String → List ConnectedAgent
list_by_provider r provider =
    keep (λ (a : ConnectedAgent). str_eq a.info.provider provider) (values r.agents)

-- The agents of some identifiers, without those that are not registered.
unfoldable pub agents_of : Registry → List String → List ConnectedAgent
agents_of r [] = []
agents_of r (id ∷ ids) =
    let rest = agents_of r ids in elim (lookup id r.agents) [ none ↦ rest | some a ↦ a ∷ rest ]

unfoldable pub list_by_capability : Registry → String → List ConnectedAgent
unfolding agents_of ids_with
list_by_capability r skill = agents_of r (ids_with r skill)

-- The loop of `FindBestAgent`, with the first online agent met so far.
unfoldable pub best_of :
    Registry → String → Option ConnectedAgent → List String → Option ConnectedAgent
best_of r prefer best [] = best
best_of r prefer best (id ∷ ids) =
    let skip = best_of r prefer best ids in
    elim (lookup id r.agents) [
      | none ↦ skip
      | some a ↦
          if not (str_eq a.status "online")
          then skip
          else if not (str_eq prefer "") && str_eq a.info.provider prefer
          then some a
          else best_of r prefer (elim best [ none ↦ some a | some b ↦ some b ]) ids
    ]

unfoldable pub find_best_agent : Registry → String → String → Result String ConnectedAgent
unfolding best_of ids_with
find_best_agent r skill prefer = elim (ids_with r skill) [
  | [] ↦ err ("no agent with capability: " <> skill)
  | i ∷ is ↦ elim (best_of r prefer none (i ∷ is)) [
    | none ↦ err ("no online agent with capability: " <> skill)
    | some a ↦ ok a
  ]
]

unfoldable pub update_status : Registry → String → String → ℕ → Result String Registry
update_status r id status now = elim (lookup id r.agents) [
  | none ↦ err ("agent not found: " <> id)
  | some a ↦
      ok (record r {
        agents = insert id (record a { status = status; last_seen_at = now }) r.agents;
      })
]

unfoldable pub heartbeat : Registry → String → ℕ → Result String Registry
heartbeat r id now = elim (lookup id r.agents) [
  | none ↦ err ("agent not found: " <> id)
  | some a ↦
      let status = if str_eq a.status "offline" then "online" else a.status in
      ok (record r {
        agents = insert id (record a { last_seen_at = now; status = status }) r.agents;
      })
]

unfoldable pub count : Registry → ℕ
count r = length r.agents

-- One agent in the loop of `cleanupStaleAgents`.
unfoldable pub mark_stale : ℕ → ConnectedAgent → ConnectedAgent
mark_stale now a =
    if ltb a.last_seen_at (now - 60 * 10 ^ 9) && str_eq a.status "online"
    then record a { status = "offline" }
    else a

abbrev pub mark_all : ℕ → Dict ConnectedAgent → Dict ConnectedAgent
mark_all now [] = []
mark_all now ((id, a) ∷ rest) = (id, mark_stale now a) ∷ mark_all now rest

unfoldable pub cleanup_stale_agents : Registry → ℕ → Registry
unfolding mark_stale
cleanup_stale_agents r now = record r { agents = mark_all now r.agents }
