-- ===== src/Events/Router/Delivery.antt =====
-- Who is handed an event (src/domain/event/router.go).
use agent_collab.Common.{
  ℕ, String, ◌≡◌, refl, sym, ◌∙◌, subst, inl, inr, Bool, true, false, not, ◌&&◌, ◌||◌,
  if◌then◌else◌, str_eq, eq_iff, none, some, List, [], ◌∷◌, ◌++◌, some_of, map, keep, arith,
  Bool-cases, Option-cases, text_cases,
}
use agent_collab.Common.Dict.{Dict, IsDict, lookup, insert, keys, values, lookup-insert}
use agent_collab.Events.{Event}
use agent_collab.Interests.{Interest, InterestMatch, match_path, is_member}
use agent_collab.Interests.Matching.{hears, match_path-hears}
use agent_collab.Events.Router.{
  Channel, Router, should_notify, add_targets, offer, notify_subscribers, collect_notify_targets,
  publish_local,
}

-- The list of targets has each agent of a match that is notified.
is_member-append :
    (ids : List String) (i j : String)
    → is_member j (ids ++ i ∷ []) ≡ (if str_eq i j then true else is_member j ids)
unfolding is_member
is_member-append [] i j = refl
is_member-append (x ∷ ids) i j = ground (arith, is_member-append ids i j)

is_member-same : (ids : List String) (i j : String) → i ≡ j → is_member i ids ≡ is_member j ids
is_member-same ids i j e = cc e

is_member-add_targets :
    (e : Event) (fs : List InterestMatch) (targets : List String) (agent : String)
    → is_member agent (add_targets e fs targets) ≡ (
        is_member agent targets
        || some_of
            (λ (i : Interest). should_notify i e && str_eq i.agent_id agent)
            (map (λ (f : InterestMatch). f.interest) fs))
unfolding add_targets
is_member-add_targets e [] targets agent = ground arith
is_member-add_targets e (f ∷ fs) targets agent =
    let grown = targets ++ f.interest.agent_id ∷ [] in
    ground (
      arith,
      is_member-add_targets e fs grown agent,
      is_member-add_targets e fs targets agent,
      is_member-append targets f.interest.agent_id agent,
      is_member-same targets f.interest.agent_id agent,
      eq_iff f.interest.agent_id agent,
    )

-- A set: no identifier twice.
abbrev Once : List String → Type 0
Once [] = Unit
Once (x ∷ xs) = (is_member x xs ≡ false) × Once xs

Once-append :
    (xs : List String) (y : String) → is_member y xs ≡ false → Once xs → Once (xs ++ y ∷ [])
unfolding is_member
Once-append [] y n o = (refl, tt)
Once-append (x ∷ xs) y n (m, o) =
    let rest : Once (xs ++ y ∷ []) = Once-append xs y (ground (arith, n)) o in
    (ground (arith, n, m, is_member-append xs y x, eq_iff x y, eq_iff y x), rest)

add_targets-Once :
    (e : Event) (fs : List InterestMatch) (targets : List String)
    → Once targets
    → Once (add_targets e fs targets)
unfolding add_targets
add_targets-Once e [] targets o = o
add_targets-Once e (f ∷ fs) targets o =
    elim (Bool-cases (should_notify f.interest e && not (is_member f.interest.agent_id targets))) [
      | inl y ↦
          rw (y, add_targets)
            (add_targets-Once e fs (targets ++ f.interest.agent_id ∷ [])
              (Once-append targets f.interest.agent_id (ground (arith, y)) o))
      | inr n ↦ rw (n, add_targets) (add_targets-Once e fs targets o)
    ]

is_member-keys :
    (agent : String) (d : Dict (List Channel))
    → is_member agent (keys d)
      ≡ (elim (lookup agent d) as (λ x. Bool) [ none ↦ false | some _ ↦ true ])
unfolding is_member lookup
is_member-keys agent [] = refl
is_member-keys agent ((k, cs) ∷ d) = ground (arith, is_member-keys agent d)

keys-Once : (d : Dict (List Channel)) → IsDict d → Once (keys d)
keys-Once [] p = tt
keys-Once ((k, cs) ∷ d) (n, p) = (ground (arith, is_member-keys k d, n), keys-Once d p)

-- A set of agents gets an event once.
lookup-notify_subscribers :
    (r : ℕ) (agents : List String) (subs : Dict (List Channel)) (agent : String)
    (channels : List Channel)
    → Once agents
    → lookup agent subs ≡ some channels
    → lookup agent (notify_subscribers r agents subs)
      ≡ some (if is_member agent agents then map (offer r) channels else channels)
unfolding notify_subscribers is_member
lookup-notify_subscribers r [] subs agent channels o e = e
lookup-notify_subscribers r (a ∷ agents) subs agent channels (n, o) e = elim (text_cases a agent) [
  | inl (p, y) ↦
      let mine : lookup a subs ≡ some channels =
        subst (λ k. lookup k subs ≡ some channels) (sym p) e in
      let absent : is_member agent agents ≡ false = subst (λ k. is_member k agents ≡ false) p n in
      rw (mine, notify_subscribers, y)
        (lookup-notify_subscribers r agents (insert a (map (offer r) channels) subs) agent
            (map (offer r) channels) o
            (rw (lookup-insert a agent (map (offer r) channels) subs, y) refl)
          ∙ rw (absent, is_member) refl)
  | inr (p, m) ↦ elim (Option-cases (lookup a subs)) [
    | inl q ↦
        rw (q, notify_subscribers, m) (lookup-notify_subscribers r agents subs agent channels o e)
    | inr (cs, q) ↦
        rw (q, notify_subscribers, m)
          (lookup-notify_subscribers r agents (insert a (map (offer r) cs) subs) agent channels o
            (rw (lookup-insert a agent (map (offer r) cs) subs, m) e))
  ]
]

module _ (covers : (pattern path : String) → Bool) (dir_of : String → String) where
  -- An event is offered once to each channel of exactly the agents that have an interest which hears of
  -- its path and wants events of its kind, or to every subscriber if the event has no path; the
  -- channels of the others stay as they are.
  pub publish_local-subscribers :
      (ro : Router) (r now : ℕ) (agent : String) (channels : List Channel)
      → IsDict ro.subscribers
      → lookup agent ro.subscribers ≡ some channels
      → let e = ro.event_log.heap r in
        let wants =
          str_eq e.file_path ""
          || some_of
              (λ (i : Interest). should_notify i e && str_eq i.agent_id agent)
              (keep (hears covers dir_of e.file_path now) (values ro.interests.interests)) in
        lookup agent (publish_local covers dir_of ro r now).subscribers
        ≡ some (if wants then map (offer r) channels else channels)
  unfolding publish_local collect_notify_targets
  publish_local-subscribers ro r now agent channels d e =
      elim (Bool-cases (str_eq (ro.event_log.heap r).file_path "")) [
        | inl y ↦
            rw (y, collect_notify_targets)
              (lookup-notify_subscribers r (keys ro.subscribers) ro.subscribers agent channels
                  (keys-Once ro.subscribers d) e
                ∙ rw (is_member-keys agent ro.subscribers, e) refl)
        | inr n ↦
            let ev = ro.event_log.heap r in
            let found = match_path covers dir_of ro.interests ev.file_path now in
            rw (n, collect_notify_targets)
              (lookup-notify_subscribers r (add_targets ev found []) ro.subscribers agent channels
                  (add_targets-Once ev found [] tt) e
                ∙ rw
                    (
                      is_member-add_targets ev found [] agent,
                      match_path-hears covers dir_of ro.interests ev.file_path now,
                    )
                    (unfold is_member in refl))
      ]
