-- ===== src/Interests.antt =====
-- src/domain/interest: the interests that agents register in file paths, and which of them a path
-- matches. Whether one pattern matches a path (`filepath.Match` or the code's `matchGlobstar`), and
-- the directory of a path (`filepath.Dir`), are parameters. A set of identifiers is a list without
-- repetitions. What the listeners get is collected. The metadata is only carried, and left out.
pub mod Ownership
pub mod Lifecycle
pub mod Matching
mod Examples
use agent_collab.Common.{
  ℕ, ◌+◌, ◌*◌, String, Bool, true, false, not, ◌&&◌, ◌||◌, if◌then◌else◌, ltb, ◌==◌, str_eq, Option,
  none, some, List, [], ◌∷◌, ◌++◌, length, keep, some_of, map, Result, ok, err,
}
use agent_collab.Common.Dict.{Dict, lookup, insert, delete, values, has}

pub data Error : Type 0 where
  nil_interest empty_agent_id empty_patterns interest_not_found : Error

pub data InterestLevel : Type 0 where
  level_all level_direct level_locks_only level_none : InterestLevel

unfoldable pub parse_interest_level : String → InterestLevel
parse_interest_level s =
    if str_eq s "all"
    then level_all
    else if str_eq s "direct"
    then level_direct
    else if str_eq s "locks_only"
    then level_locks_only
    else if str_eq s "none"
    then level_none
    else level_all

unfoldable pub show_level : InterestLevel → String
show_level level_all = "all"
show_level level_direct = "direct"
show_level level_locks_only = "locks_only"
show_level level_none = "none"

pub record Interest : Type 0 where
  pub id : String
  pub agent_id : String
  pub agent_name : String
  pub patterns : List String
  pub track_dependencies : Bool
  pub level : InterestLevel
  pub expires_at : ℕ
  pub created_at : ℕ
  pub remote : Bool
  pub node_id : String

abbrev pub default_ttl : ℕ
default_ttl = 24 * 3600 * 1_000_000_000

-- The identifier is `generateInterestID`'s.
unfoldable pub new_interest : String → String → List String → (id : String) → (now : ℕ) → Interest
new_interest agent_id agent_name patterns id now = record {
  id = id;
  agent_id = agent_id;
  agent_name = agent_name;
  patterns = patterns;
  track_dependencies = false;
  level = level_all;
  expires_at = now + default_ttl;
  created_at = now;
  remote = false;
  node_id = "";
}

-- An instant of 0 is Go's zero time.
unfoldable pub is_expired : Interest → ℕ → Bool
is_expired i now = if i.expires_at == 0 then false else ltb i.expires_at now

pub data MatchType : Type 0 where
  direct dependency proximity : MatchType

-- The relevance is a function of the type, and left out.
pub record InterestMatch : Type 0 where
  pub interest : Interest
  pub match_type : MatchType
  pub matched_path : String

pub data ChangeType : Type 0 where
  added removed updated : ChangeType

pub record Manager : Type 0 where
  pub interests : Dict Interest
  pub by_agent : Dict (List String)
  pub pattern_cache : Dict (List String)
  pub changes : List (ChangeType × Interest)

abbrev pub new_manager : Manager
new_manager = record { interests = []; by_agent = []; pattern_cache = []; changes = [] }

-- `m.byAgent[agent]`, and whether an identifier is in it.
unfoldable pub ids_of : String → Dict (List String) → List String
ids_of agent m = elim (lookup agent m) [ none ↦ [] | some ids ↦ ids ]

unfoldable pub is_member : String → List String → Bool
is_member id ids = some_of (λ j. str_eq j id) ids

unfoldable pub index_add : String → String → Dict (List String) → Dict (List String)
unfolding ids_of is_member
index_add agent id m =
    let ids = ids_of agent m in insert agent (if is_member id ids then ids else ids ++ id ∷ []) m

unfoldable pub index_remove : String → String → Dict (List String) → Dict (List String)
index_remove agent id m = elim (lookup agent m) [
  | none ↦ m
  | some ids ↦
      let rest = keep (λ j. not (str_eq j id)) ids in
      if length rest == 0 then delete agent m else insert agent rest m
]

-- An interest in the three maps.
unfoldable pub store_interest : Interest → Manager → Manager
unfolding index_add
store_interest i m = record m {
  interests = insert i.id i m.interests;
  by_agent = index_add i.agent_id i.id m.by_agent;
  pattern_cache = insert i.id i.patterns m.pattern_cache;
}

unfoldable pub drop_interest : Interest → String → Manager → Manager
unfolding index_remove
drop_interest i id m = record m {
  interests = delete id m.interests;
  by_agent = index_remove i.agent_id id m.by_agent;
  pattern_cache = delete id m.pattern_cache;
}

-- An interest without an identifier gets the generated one.
unfoldable pub with_id : Interest → String → Interest
with_id i generated = record i { id = if str_eq i.id "" then generated else i.id }

-- A nil interest is `none`.
unfoldable pub register : Manager → Option Interest → (generated : String) → Result Error Manager
unfolding store_interest with_id
register m none generated = err nil_interest
register m (some i) generated =
    let named = with_id i generated in
    if str_eq i.agent_id ""
    then err empty_agent_id
    else if length i.patterns == 0
    then err empty_patterns
    else ok (record (store_interest named m) { changes = m.changes ++ (added, named) ∷ [] })

unfoldable pub unregister : Manager → String → Result Error Manager
unfolding drop_interest
unregister m id = elim (lookup id m.interests) [
  | none ↦ err interest_not_found
  | some i ↦ ok (record (drop_interest i id m) { changes = m.changes ++ (removed, i) ∷ [] })
]

unfoldable pub delete_all {ℓ} : {V : Type ℓ} → List String → Dict V → Dict V
delete_all [] d = d
delete_all (k ∷ ks) d = delete_all ks (delete k d)

unfoldable pub unregister_agent : Manager → String → Manager
unfolding delete_all
unregister_agent m agent = elim (lookup agent m.by_agent) [
  | none ↦ m
  | some ids ↦ record m {
    interests = delete_all ids m.interests;
    by_agent = delete agent m.by_agent;
    pattern_cache = delete_all ids m.pattern_cache;
  }
]

unfoldable pub get : Manager → String → Result Error Interest
get m id = elim (lookup id m.interests) [ none ↦ err interest_not_found | some i ↦ ok i ]

unfoldable pub found_among : Dict Interest → List String → List Interest
found_among d [] = []
found_among d (id ∷ ids) = elim (lookup id d) [
  | none ↦ found_among d ids
  | some i ↦ i ∷ found_among d ids
]

unfoldable pub get_agent_interests : Manager → String → List Interest
unfolding found_among ids_of
get_agent_interests m agent = found_among m.interests (ids_of agent m.by_agent)

unfoldable pub list_interests : Manager → List Interest
list_interests m = values m.interests

unfoldable pub count : Manager → ℕ
count m = length m.interests

-- The bodies of the loops of `CleanupExpired` and `ClearRemote`, over the identifiers collected.
unfoldable pub drop_each : List (String × Interest) → Manager → Manager
unfolding drop_interest
drop_each [] m = m
drop_each ((id, i) ∷ rest) m = drop_each rest (drop_interest i id m)

unfoldable pub entries_where : (Interest → Bool) → Dict Interest → List (String × Interest)
entries_where test d = keep (λ e. test e.1) d

unfoldable pub cleanup_expired : Manager → ℕ → Manager × ℕ
unfolding drop_each entries_where
cleanup_expired m now =
    let expired = entries_where (λ i. is_expired i now) m.interests in
    (drop_each expired m, length expired)

unfoldable pub clear_remote : Manager → Manager × ℕ
unfolding drop_each entries_where
clear_remote m =
    let remotes = entries_where (λ i. i.remote) m.interests in (drop_each remotes m, length remotes)

unfoldable pub merge_remote : List Interest → Manager → Manager
unfolding store_interest
merge_remote [] m = m
merge_remote (r ∷ rs) m =
    merge_remote rs
      (if has r.id m.interests then m else store_interest (record r { remote = true }) m)

unfoldable pub get_remote_interests : Manager → List Interest
get_remote_interests m = keep (λ i. i.remote) (values m.interests)

abbrev pub wants_proximity : InterestLevel → Bool
wants_proximity level_all = true
wants_proximity level_direct = false
wants_proximity level_locks_only = false
wants_proximity level_none = false

module _ (covers : (pattern path : String) → Bool) (dir_of : String → String) where
  -- The first pattern that passes, as in both loops over the patterns.
  unfoldable pub first_pattern : (String → Bool) → List String → Option String
  first_pattern test [] = none
  first_pattern test (p ∷ ps) = if test p then some p else first_pattern test ps

  unfoldable pub match_patterns : List String → String → Option String
  unfolding first_pattern
  match_patterns patterns path = first_pattern (λ p. covers p path) patterns

  unfoldable pub match_proximity : List String → String → Option String
  unfolding first_pattern
  match_proximity patterns path = first_pattern (λ p. str_eq (dir_of p) (dir_of path)) patterns

  -- The body of the range loop of `Match`.
  unfoldable pub match_one : Interest → String → ℕ → Option InterestMatch
  unfolding match_patterns match_proximity
  match_one i path now = if is_expired i now then none else elim (match_patterns i.patterns path) [
    | some p ↦ some (record { interest = i; match_type = direct; matched_path = p })
    | none ↦
        if wants_proximity i.level
        then elim (match_proximity i.patterns path) [
          | some p ↦ some (record { interest = i; match_type = proximity; matched_path = p })
          | none ↦ none
        ]
        else none
  ]

  unfoldable pub match_each : List Interest → String → ℕ → List InterestMatch
  unfolding match_one
  match_each [] path now = []
  match_each (i ∷ rest) path now = elim (match_one i path now) [
    | none ↦ match_each rest path now
    | some found ↦ found ∷ match_each rest path now
  ]

  unfoldable pub match_path : Manager → String → ℕ → List InterestMatch
  unfolding match_each
  match_path m path now = match_each (values m.interests) path now

  -- The second loop of `MatchWithDependencies`, with the matches found so far.
  unfoldable pub add_dependencies :
      List Interest → String → List String → ℕ → List InterestMatch → List InterestMatch
  unfolding match_patterns
  add_dependencies [] path deps now matches = matches
  add_dependencies (i ∷ rest) path deps now matches =
      let skipped =
        is_expired i now
        || not i.track_dependencies
        || some_of (λ (f : InterestMatch). str_eq f.interest.id i.id) matches in
      let hit =
        some_of
          (λ d. elim (match_patterns i.patterns d) as (λ x. Bool) [ none ↦ false | some _ ↦ true ])
          deps in
      add_dependencies rest path deps now (
        if not skipped && hit
        then matches ++ record { interest = i; match_type = dependency; matched_path = path } ∷ []
        else matches)

  unfoldable pub match_with_dependencies : Manager → String → List String → ℕ → List InterestMatch
  unfolding match_path add_dependencies
  match_with_dependencies m path deps now =
      add_dependencies (values m.interests) path deps now (match_path m path now)
