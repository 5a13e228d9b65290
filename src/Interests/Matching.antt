-- ===== src/Interests/Matching.antt =====
-- Which interests a path matches (src/domain/interest/manager.go).
use agent_collab.Common.{
  ℕ, String, ◌≡◌, refl, Bool, true, false, not, ◌&&◌, ◌||◌, str_eq, none, some, List, [], ◌∷◌,
  some_of, arith, map, keep,
}
use agent_collab.Common.Dict.{values}
use agent_collab.Interests.{
  Interest, InterestMatch, Manager, is_expired, wants_proximity, first_pattern, match_patterns,
  match_proximity, match_one, match_each, match_path,
}

module _ (covers : (pattern path : String) → Bool) (dir_of : String → String) where
  first_pattern-some :
      (test : String → Bool) (ps : List String)
      → (elim (first_pattern covers dir_of test ps) as (λ x. Bool) [ none ↦ false | some _ ↦ true ])
        ≡ some_of test ps
  unfolding first_pattern
  first_pattern-some test [] = refl
  first_pattern-some test (p ∷ ps) = ground (arith, first_pattern-some test ps)

  -- An interest hears of a path: it has not run out, and one of its patterns matches the path or, if it
  -- wants everything, is in the path's directory.
  abbrev pub hears : String → ℕ → Interest → Bool
  hears path now i =
      not (is_expired i now)
      && (some_of (λ p. covers p path) i.patterns
          || (wants_proximity i.level && some_of (λ p. str_eq (dir_of p) (dir_of path)) i.patterns))

  match_each-hears :
      (is : List Interest) (path : String) (now : ℕ)
      → map (λ (f : InterestMatch). f.interest) (match_each covers dir_of is path now)
        ≡ keep (hears path now) is
  unfolding match_each match_one match_patterns match_proximity
  match_each-hears [] path now = refl
  match_each-hears (i ∷ is) path now = ground (
    arith,
    match_each-hears is path now,
    first_pattern-some (λ p. covers p path) i.patterns,
    first_pattern-some (λ p. str_eq (dir_of p) (dir_of path)) i.patterns,
  )

  -- The interests that match a path are those that have not run out and have a pattern that matches it
  -- or, if they want everything, a pattern in the path's directory; each once, in the manager's order.
  pub match_path-hears :
      (m : Manager) (path : String) (now : ℕ)
      → map (λ (f : InterestMatch). f.interest) (match_path covers dir_of m path now)
        ≡ keep (hears path now) (values m.interests)
  unfolding match_path
  match_path-hears m path now = match_each-hears (values m.interests) path now
