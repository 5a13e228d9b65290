-- ===== src/Events/Router/Queries.antt =====
-- What `GetEvents` of src/domain/event/router.go gives.
use agent_collab.Common.{
  ℕ, zero, suc, ◌-◌, ◌*◌, ◌≤◌, ◌<◌, String, ◌≡◌, refl, ap, ◌⊎◌, inr, Bool, true, false, ◌||◌,
  if◌then◌else◌, ltb, ◌==◌, some, List, [], ◌∷◌, length, take, drop, keep, length-drop, In, keep-In,
  arith,
}
use agent_collab.Events.{Event}
use agent_collab.Events.Log.{EventLog, filter_active, get_recent, is_active}
use agent_collab.Interests.{get_agent_interests}
use agent_collab.Events.Router.{
  Router, EventFilter, passes_filters, passes_type_filter, passes_time_filter,
  passes_file_path_filter, passes_source_filter, apply_filters, apply_limit, matches_any_interest,
  filter_by_interests, get_events,
}

In-take : (n : ℕ) (x : ℕ) (xs : List ℕ) → In x (take n xs) → In x xs
In-take zero x xs m = elim m [ ]
In-take (suc n) x [] m = m
In-take (suc n) x (y ∷ ys) m = ground (arith, m, In-take n x ys)

In-drop : (n : ℕ) (x : ℕ) (xs : List ℕ) → In x (drop n xs) → In x xs
In-drop zero x xs m = m
In-drop (suc n) x [] m = m
In-drop (suc n) x (y ∷ ys) m = inr (In-drop n x ys m)

length-take-le : (n : ℕ) (xs : List ℕ) → length (take n xs) ≤ n
length-take-le zero xs = omega arith
length-take-le (suc n) [] = omega arith
length-take-le (suc n) (x ∷ xs) = omega (arith, length-take-le n xs)

In-apply_limit : (rs : List ℕ) (limit r : ℕ) → In r (apply_limit rs limit) → In r rs
unfolding apply_limit
In-apply_limit rs limit r m = ground (arith, m, In-take limit r rs)

In-get_recent :
    (ro : Router) (n now r : ℕ)
    → In r (get_recent ro.event_log n now)
    → In r ro.event_log.events × (is_active (ro.event_log.heap r) now ≡ true)
unfolding get_recent filter_active
In-get_recent ro n now r m =
    let active : ℕ → Bool = λ (q : ℕ). is_active (ro.event_log.heap q) now in
    let found = keep active ro.event_log.events in
    let count = if n == 0 || ltb (length found) n then length found else n in
    keep-In active r ro.event_log.events (In-drop (length found - count) r found m)

apply_limit-le : (rs : List ℕ) (limit : ℕ) → 0 < limit → length (apply_limit rs limit) ≤ limit
unfolding apply_limit
apply_limit-le rs limit p = ground (arith, p, length-take-le limit rs)

get_recent-many :
    (el : EventLog) (n now : ℕ)
    → 0 < n
    → let active = filter_active el el.events now in
      n ≤ length active → get_recent el n now ≡ drop (length active - n) active
unfolding get_recent
get_recent-many el n now p many =
    let some_left : (n == 0 || ltb (length (filter_active el el.events now)) n) ≡ false =
      ground (arith, p, many) in
    rw (some_left, get_recent) refl

-- A filter that passes all.
abbrev pub no_filter : ℕ → EventFilter
no_filter limit = record {
  types = [];
  since = 0;
  file_path = "";
  source_id = "";
  limit = limit;
  include_all = true;
}

apply_filters-no_filter :
    (heap : ℕ → Event) (rs : List ℕ) (limit : ℕ) → apply_filters heap rs (no_filter limit) ≡ rs
unfolding apply_filters passes_filters passes_type_filter passes_time_filter passes_file_path_filter
    passes_source_filter
apply_filters-no_filter heap [] limit = refl
apply_filters-no_filter heap (r ∷ rs) limit =
    ap (λ (k : List ℕ). r ∷ k) (apply_filters-no_filter heap rs limit)

apply_limit-many :
    (rs : List ℕ) (limit : ℕ) → 0 < limit → limit < length rs → apply_limit rs limit ≡ take limit rs
unfolding apply_limit
apply_limit-many rs limit p many = ground (arith, p, many)

module _ (covers : (pattern path : String) → Bool) (dir_of : String → String) where
  In-found :
      (ro : Router) (agent : String) (f : EventFilter) (now r : ℕ)
      → let mine = get_agent_interests ro.interests agent in
        let recent = get_recent ro.event_log (f.limit * 2) now in
        In r (
          if f.include_all
          then recent
          else filter_by_interests covers dir_of ro.interests ro.event_log.heap recent mine now)
        → In r recent
          × ((f.include_all ≡ true)
              ⊎ (matches_any_interest covers dir_of ro.interests (ro.event_log.heap r) mine now
                  ≡ true))
  unfolding filter_by_interests
  In-found ro agent f now r m =
      let mine = get_agent_interests ro.interests agent in
      let recent = get_recent ro.event_log (f.limit * 2) now in
      let test : ℕ → Bool =
        λ (q : ℕ). matches_any_interest covers dir_of ro.interests (ro.event_log.heap q) mine now in
      ground (arith, m, keep-In test r recent)

  -- The events that an agent gets are active events of the log that pass the filter, and match one of
  -- its interests unless the filter includes all; and there are at most as many as a positive limit.
  pub get_events_sound :
      (ro : Router) (agent : String) (f : EventFilter) (now : ℕ)
      → ((r : ℕ)
          → In r (get_events covers dir_of ro agent (some f) now)
          → In r ro.event_log.events
            × (is_active (ro.event_log.heap r) now ≡ true)
            × (passes_filters (ro.event_log.heap r) f ≡ true)
            × ((f.include_all ≡ true)
                ⊎ (matches_any_interest covers dir_of ro.interests
                      (ro.event_log.heap r)
                      (get_agent_interests ro.interests agent)
                      now
                    ≡ true)))
        × (0 < f.limit → length (get_events covers dir_of ro agent (some f) now) ≤ f.limit)
  unfolding get_events apply_filters
  get_events_sound ro agent f now =
      let heap = ro.event_log.heap in
      let mine = get_agent_interests ro.interests agent in
      let recent = get_recent ro.event_log (f.limit * 2) now in
      let found =
        if f.include_all
        then recent
        else filter_by_interests covers dir_of ro.interests heap recent mine now in
      let passing : ℕ → Bool = λ (r : ℕ). passes_filters (heap r) f in
      (
        (λ r m.
            let (inside, passes) =
              keep-In passing r found (In-apply_limit (keep passing found) f.limit r m) in
            let (seen, wanted) = In-found ro agent f now r inside in
            let (listed, active) = In-get_recent ro (f.limit * 2) now r seen in
            (listed, active, passes, wanted)),
        (λ p. apply_limit-le (keep passing found) f.limit p),
      )

  -- Where the limit is not 0 and at least twice as many events are active, a query without filters gives
  -- the older half of the most recent events, which are twice as many as the limit: the newest ones, as
  -- many as the limit, are not among them.
  pub get_events_older_half :
      (ro : Router) (agent : String) (limit now : ℕ)
      → 0 < limit
      → let active = filter_active ro.event_log ro.event_log.events now in
        limit * 2 ≤ length active
        → get_events covers dir_of ro agent (some (no_filter limit)) now
          ≡ take limit (drop (length active - limit * 2) active)
  unfolding get_events
  get_events_older_half ro agent limit now p many =
      let el = ro.event_log in
      let active = filter_active el el.events now in
      let recent = drop (length active - limit * 2) active in
      let enough : limit < length recent =
        omega (arith, p, many, length-drop (length active - limit * 2) active) in
      rw
        (
          get_recent-many el (limit * 2) now (omega (arith, p)) many,
          apply_filters-no_filter el.heap recent limit,
        )
        (apply_limit-many recent limit p enough)
