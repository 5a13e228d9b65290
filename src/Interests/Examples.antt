-- ===== src/Interests/Examples.antt =====
-- Tests of src/domain/interest, and its theorems at concrete inputs.
use agent_collab.Common.{
  String, ◌≡◌, refl, Bool, false, none, some, [], ◌∷◌, map, keep, str_eq, arith, eq_iff,
}
use agent_collab.Common.Dict.{lookup, insert, delete, has, values}
use agent_collab.Interests.{
  Interest, InterestMatch, Manager, new_manager, level_all, level_locks_only, parse_interest_level,
  show_level, new_interest, is_expired, ids_of, is_member, index_add, index_remove, with_id,
  store_interest, drop_interest, register, unregister, unregister_agent, delete_all, found_among,
  get_agent_interests, drop_each, entries_where, cleanup_expired, clear_remote, merge_remote,
  first_pattern, match_patterns, match_proximity, match_one, match_each, match_path,
}
use agent_collab.Interests.Ownership.{IsManager, has_id}
use agent_collab.Interests.Lifecycle
use agent_collab.Interests.Lifecycle.{Action, registers, unregisters, merges, perform}
use agent_collab.Interests.Matching
use agent_collab.Interests.Matching.{hears}

program : Unit {0}
unfolding lookup insert delete has parse_interest_level show_level new_interest is_expired ids_of
    is_member index_add index_remove with_id store_interest drop_interest register unregister
    unregister_agent delete_all found_among get_agent_interests drop_each entries_where
    cleanup_expired clear_remote merge_remote first_pattern match_patterns match_proximity match_one
    match_each match_path has_id
program = tt

level_round_trip : parse_interest_level (show_level level_locks_only) ≡ level_locks_only
unfolding program
level_round_trip = refl

abbrev interest_of : String → String → String → Interest
interest_of id agent pattern = record {
  id = id;
  agent_id = agent;
  agent_name = agent;
  patterns = pattern ∷ [];
  track_dependencies = false;
  level = level_all;
  expires_at = 0;
  created_at = 0;
  remote = false;
  node_id = "";
}

new-IsManager : IsManager new_manager
unfolding program
new-IsManager = record { distinct = tt; owners = λ a i. refl }

-- Ann registers i1.
abbrev one : Manager
one = perform new_manager 0 (registers (interest_of "i1" "ann" "src/*") "")

one_get : get_agent_interests one "ann" ≡ interest_of "i1" "ann" "src/*" ∷ []
unfolding program
one_get = refl

perform-IsManager_example : IsManager one
unfolding program
perform-IsManager_example =
    Lifecycle.perform-IsManager new_manager 0 (registers (interest_of "i1" "ann" "src/*") "")
      (λ old e. absurd (ground (arith, e))) new-IsManager

one-IsManager : IsManager one
unfolding program
one-IsManager =
    Lifecycle.perform-IsManager new_manager 0 (registers (interest_of "i1" "ann" "src/*") "")
      (λ old e. absurd (ground (arith, e))) new-IsManager

-- Bob registers under Ann's identifier.
abbrev stolen : Manager
stolen = perform one 1 (registers (interest_of "i1" "bob" "doc/*") "")

abbrev ann : String
ann = "ann"

register_steals_example :
    (lookup "i1" stolen.interests ≡ some (interest_of "i1" "bob" "doc/*"))
    × (lookup "i1" (unregister_agent stolen "ann").interests ≡ none)
unfolding program
register_steals_example =
    Lifecycle.register_steals one stolen (interest_of "i1" "bob" "doc/*")
      (interest_of "i1" "ann" "src/*") "" one-IsManager refl (ground (arith, eq_iff ann "bob")) refl

-- For the tests, a pattern matches itself, and each path is its own directory.
covers : String → String → Bool
covers pattern path = str_eq pattern path

dir_of : String → String
dir_of path = path

near :
    map (λ (f : InterestMatch). f.interest.id) (match_path covers dir_of one "src/*" 5) ≡ "i1" ∷ []
unfolding program covers dir_of
near = refl

match_path-hears_example :
    map (λ (f : InterestMatch). f.interest) (match_path covers dir_of one "src/*" 5)
    ≡ keep (hears covers dir_of "src/*" 5) (values one.interests)
match_path-hears_example = Matching.match_path-hears covers dir_of one "src/*" 5
