-- ===== src/Agents/Laws.antt =====
-- What src/domain/agent/registry.go finds, and what its capability index keeps.
use agent_collab.Common.{
  ℕ, String, ◌≡◌, refl, sym, subst, ◌⊎◌, inl, inr, not, ◌&&◌, if◌then◌else◌, str_eq, eq_iff,
  eq_refl, Option, none, some, List, [], ◌∷◌, ◌++◌, In, keep-In, arith, ok, Option-cases,
  Bool-cases, text_cases,
}
use agent_collab.Common.Dict.{Dict, lookup, insert, lookup-insert, lookup-delete}
use agent_collab.Agents.{
  ConnectedAgent, Registry, ids_with, has_capability, index_capabilities, stored, register,
  remove_from_slice, remove_everywhere, unregister, best_of, find_best_agent,
}

-- An identifier is bound to an online agent.
pub record Online (r : Registry) (ids : List String) (a : ConnectedAgent) : Type 0 where
  pub id : String
  pub listed : In id ids
  pub bound : lookup id r.agents ≡ some a
  pub status : a.status ≡ "online"

later_Online :
    (r : Registry) (i : String) (ids : List String) (a : ConnectedAgent)
    → Online r ids a
    → Online r (i ∷ ids) a
later_Online r i ids a o = record {
  id = o.id;
  listed = inr o.listed;
  bound = o.bound;
  status = o.status;
}

best_of-Online :
    (r : Registry) (prefer : String) (best : Option ConnectedAgent) (ids : List String)
    (a : ConnectedAgent)
    → best_of r prefer best ids ≡ some a
    → (best ≡ some a) ⊎ Online r ids a
unfolding best_of
best_of-Online r prefer best [] a e = inl e
best_of-Online r prefer best (i ∷ ids) a e = elim (Option-cases (lookup i r.agents)) [
  | inl n ↦ elim (best_of-Online r prefer best ids a (ground arith)) [
    | inl b ↦ inl b
    | inr o ↦ inr (later_Online r i ids a o)
  ]
  | inr (x, n) ↦ elim (Bool-cases (str_eq x.status "online")) [
    | inr off ↦ elim (best_of-Online r prefer best ids a (ground arith)) [
      | inl b ↦ inl b
      | inr o ↦ inr (later_Online r i ids a o)
    ]
    | inl on ↦
        let here : x ≡ a → Online r (i ∷ ids) a = λ p. record {
          id = i;
          listed = inl refl;
          bound = ground arith;
          status =
              subst (λ (y : ConnectedAgent). y.status ≡ "online") p
                ((eq_iff x.status "online").0 on);
        } in
        elim (Bool-cases (not (str_eq prefer "") && str_eq x.info.provider prefer)) [
          | inl wanted ↦ inr (here (ground arith))
          | inr other ↦ elim (Option-cases best) [
            | inl b ↦ elim (best_of-Online r prefer (some x) ids a (ground arith)) [
              | inl p ↦ inr (here (ground arith))
              | inr o ↦ inr (later_Online r i ids a o)
            ]
            | inr (y, b) ↦ elim (best_of-Online r prefer (some y) ids a (ground arith)) [
              | inl p ↦ inl (ground arith)
              | inr o ↦ inr (later_Online r i ids a o)
            ]
          ]
        ]
  ]
]

-- An agent that is found for a capability is online, and its identifier is in the capability's
-- index.
pub find_best_agent-Online :
    (r : Registry) (skill prefer : String) (a : ConnectedAgent)
    → find_best_agent r skill prefer ≡ ok a
    → Online r (ids_with r skill) a
unfolding find_best_agent
find_best_agent-Online r skill prefer a e =
    elim (Option-cases (best_of r prefer none (ids_with r skill))) [
      | inl n ↦ absurd (ground arith)
      | inr (x, n) ↦ elim (best_of-Online r prefer none (ids_with r skill) x n) [
        | inl b ↦ absurd (ground arith)
        | inr o ↦ subst (Online r (ids_with r skill)) (ground arith) o
      ]
    ]

lookup-remove_everywhere :
    (index : Dict (List String)) (id skill : String)
    → elim (lookup skill (remove_everywhere index id)) [ none ↦ [] | some ids ↦ ids ]
      ≡ remove_from_slice (elim (lookup skill index) [ none ↦ [] | some ids ↦ ids ]) id
unfolding lookup remove_everywhere remove_from_slice
lookup-remove_everywhere [] id skill = refl
lookup-remove_everywhere ((c, ids) ∷ rest) id skill =
    ground (arith, lookup-remove_everywhere rest id skill)

-- After an agent is unregistered, its identifier is not bound and is in no capability's index.
pub unregister_gone :
    (r r' : Registry) (id skill : String)
    → unregister r id ≡ ok r'
    → (lookup id r'.agents ≡ none) × (In id (ids_with r' skill) → ⊥)
unfolding unregister ids_with
unregister_gone r r' id skill h = elim (Option-cases (lookup id r.agents)) [
  | inl n ↦ absurd (ground arith)
  | inr (a, n) ↦ (
    ground (arith, lookup-delete id id r.agents, eq_refl id),
    (λ m.
        let index : r'.by_cap ≡ remove_everywhere r.by_cap id = ground arith in
        let left : ids_with r' skill ≡ remove_from_slice (ids_with r skill) id =
          subst
            (λ (k : Dict (List String)).
              elim (lookup skill k) [ none ↦ [] | some ids ↦ ids ]
              ≡ remove_from_slice (ids_with r skill) id)
            (sym index) (lookup-remove_everywhere r.by_cap id skill) in
        let hit =
          (keep-In (λ s. not (str_eq s id)) id (ids_with r skill) (subst (In id) left m)).1 in
        ground (arith, hit, eq_refl id)),
  )
]

In-append : (i : String) (xs ys : List String) → In i xs → In i (xs ++ ys)
In-append i [] ys m = elim m [ ]
In-append i (x ∷ xs) ys m = ground (arith, In-append i xs ys)

ids_with-inserted :
    (r : Registry) (c skill : String) (ids : List String)
    → ids_with (record r { by_cap = insert c ids r.by_cap }) skill
      ≡ (if str_eq c skill then ids else ids_with r skill)
unfolding ids_with
ids_with-inserted r c skill ids = ground (arith, lookup-insert c skill ids r.by_cap)

ids_with-insert :
    (r : Registry) (c skill id i : String)
    → In i (ids_with r skill)
    → In i (ids_with (record r { by_cap = insert c (ids_with r c ++ id ∷ []) r.by_cap }) skill)
ids_with-insert r c skill id i m =
    let grown = ids_with r c ++ id ∷ [] in
    subst (In i) (sym (ids_with-inserted r c skill grown)) (elim (text_cases c skill) [
      | inl (p, t) ↦
          rw t (In-append i (ids_with r c) (id ∷ []) (subst (λ k. In i (ids_with r k)) (sym p) m))
      | inr (p, t) ↦ rw t m
    ])

index_capabilities-keeps :
    (caps : List String) (id : String) (r : Registry) (skill i : String)
    → In i (ids_with r skill)
    → In i (ids_with (index_capabilities caps id r) skill)
unfolding index_capabilities
index_capabilities-keeps [] id r skill i m = m
index_capabilities-keeps (c ∷ caps) id r skill i m = elim (Bool-cases (has_capability r c id)) [
  | inl y ↦ rw (y, index_capabilities) (index_capabilities-keeps caps id r skill i m)
  | inr n ↦
      rw (n, index_capabilities)
        (index_capabilities-keeps caps id _ skill i (ids_with-insert r c skill id i m))
]

-- Registering an agent again takes it out of no capability's index, whatever capabilities it now has.
pub register_stale :
    (r r' : Registry) (agent : ConnectedAgent) (skill : String) (now : ℕ)
    → register r agent now ≡ ok r'
    → In agent.info.id (ids_with r skill)
    → In agent.info.id (ids_with r' skill)
unfolding register stored ids_with
register_stale r r' agent skill now h m =
    let id = agent.info.id in
    let e : index_capabilities agent.info.capabilities id (stored r agent now) ≡ r' =
      ground arith in
    subst (λ k. In id (ids_with k skill)) e
      (index_capabilities-keeps agent.info.capabilities id (stored r agent now) skill id m)
