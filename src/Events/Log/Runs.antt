-- ===== src/Events/Log/Runs.antt =====
-- The calls of src/domain/event/eventlog.go in any order, and what readers see.
use agent_collab.Common.{
  ℕ, zero, suc, ◌+◌, ◌-◌, ◌≤◌, String, ◌≡◌, refl, sym, ◌∙◌, ap, subst, inl, inr, Bool, true, false,
  ◌&&◌, ltb, str_eq, Option, List, [], ◌∷◌, ◌++◌, length, drop, keep, length-append, length-drop,
  length-keep-le, arith, Bool-cases,
}
use agent_collab.Common.Dict.{lookup, has}
use agent_collab.Events.{Event}
use agent_collab.Events.Log.{
  EventLog, EventLogConfig, new_event_log, listed, has_event, remove_from_indexes, remove_oldest,
  enforce_rounds, enforce_size_limit, append, should_keep, compact, clear,
  mark_file_events_completed, get, get_by_type, get_by_source, get_recent, size, filter_active,
  is_active,
}
use agent_collab.Events.Log.Index.{keep-cong}
use agent_collab.Events.Log.Views.{search, IsEventLog, Unique}
use agent_collab.Events.Log.Writes.{heap-IsViewOf, complete_all-Alike}
use agent_collab.Events.Log.Steps.{
  append-IsEventLog, compact-IsEventLog, compact_events-kept, limited_files, limited_files-events,
  append-limited, has-has_event,
}

remove_oldest-events :
    (el : EventLog)
    → ((remove_oldest el).events ≡ drop 1 el.events) × ((remove_oldest el).config ≡ el.config)
unfolding remove_oldest remove_from_indexes
remove_oldest-events el = ground arith

drop-all : (xs : List ℕ) (m : ℕ) → length xs ≤ 0 → drop (length xs - m) xs ≡ xs
drop-all [] m h = ground arith
drop-all (x ∷ xs) m h = absurd (omega (arith, h))

-- To drop one and then the others is to drop them all.
drop-one :
    (xs : List ℕ) (m : ℕ)
    → ltb m (length xs) ≡ true
    → drop (length (drop 1 xs) - m) (drop 1 xs) ≡ drop (length xs - m) xs
drop-one [] m h = refl
drop-one (x ∷ xs) m h =
    let more : suc (length xs) - m ≡ suc (length xs - m) = ground (arith, h) in rw more refl

enforce_rounds-events :
    (n : ℕ) (el : EventLog)
    → length el.events ≤ n
    → ((enforce_rounds n el).events ≡ drop (length el.events - el.config.max_size) el.events)
      × ((enforce_rounds n el).config ≡ el.config)
unfolding enforce_rounds
enforce_rounds-events zero el h = (rw (drop-all el.events el.config.max_size h) refl, refl)
enforce_rounds-events (suc n) el h = elim (Bool-cases (ltb el.config.max_size (length el.events))) [
  | inr m ↦
      let none_over : length el.events - el.config.max_size ≡ 0 = ground (arith, m) in
      rw (m, enforce_rounds) (rw none_over refl, refl)
  | inl y ↦
      let (fewer, same) = remove_oldest-events el in
      let shorter : length (remove_oldest el).events ≤ n =
        subst (λ (k : List ℕ). length k ≤ n) (sym fewer)
          (omega (arith, h, length-drop 1 el.events)) in
      let (rest, config) = enforce_rounds-events n (remove_oldest el) shorter in
      rw (y, enforce_rounds)
        (rest ∙ rw (fewer, same) (drop-one el.events el.config.max_size y), config ∙ same)
]

-- The loop of `enforceSizeLimitLocked` ends: what is left is the newest events, as many as the limit
-- allows.
pub enforce_size_limit-events :
    (el : EventLog)
    → ((enforce_size_limit el).events ≡ drop (length el.events - el.config.max_size) el.events)
      × (length (enforce_size_limit el).events ≤ el.config.max_size)
unfolding enforce_size_limit
enforce_size_limit-events el =
    let e = (enforce_rounds-events (length el.events) el (omega arith)).0 in
    (
      e,
      subst (λ (k : List ℕ). length k ≤ el.config.max_size) (sym e)
          (omega (arith, length-drop (length el.events - el.config.max_size) el.events)),
    )

enforce_size_limit-config : (el : EventLog) → (enforce_size_limit el).config ≡ el.config
unfolding enforce_size_limit
enforce_size_limit-config el = (enforce_rounds-events (length el.events) el (omega arith)).1

-- An event whose identifier the log has changes nothing; any other becomes the newest, and the oldest
-- events beyond the limit go.
pub append-events :
    (el : EventLog) (r : ℕ)
    → IsEventLog el
    → (has_event el.heap (el.heap r).id el.events ≡ true → append el r ≡ el)
      × (has_event el.heap (el.heap r).id el.events ≡ false
          → (append el r).events
            ≡ drop (length el.events + 1 - el.config.max_size) (el.events ++ r ∷ []))
append-events el r v =
    let same = has-has_event el (el.heap r).id v in
    let (all, config) = limited_files-events el r in
    (
      (λ y. (append-limited el r).0 (same ∙ y)),
      (λ n.
          ap (λ (l : EventLog). l.events) ((append-limited el r).1 (same ∙ n))
          ∙ (enforce_size_limit-events (limited_files el r)).0
          ∙ rw (all, config, length-append el.events (r ∷ [])) refl),
    )

append-config : (el : EventLog) (r : ℕ) → (append el r).config ≡ el.config
append-config el r = elim (Bool-cases (has (el.heap r).id el.by_id)) [
  | inl y ↦ ap (λ (l : EventLog). l.config) ((append-limited el r).0 y)
  | inr n ↦
      ap (λ (l : EventLog). l.config) ((append-limited el r).1 n)
      ∙ enforce_size_limit-config (limited_files el r)
      ∙ (limited_files-events el r).1
]

append-size :
    (el : EventLog) (r : ℕ)
    → length el.events ≤ el.config.max_size
    → length (append el r).events ≤ (append el r).config.max_size
append-size el r h = elim (Bool-cases (has (el.heap r).id el.by_id)) [
  | inl y ↦ rw ((append-limited el r).0 y) h
  | inr n ↦
      rw ((append-limited el r).1 n, enforce_size_limit-config (limited_files el r))
        (enforce_size_limit-events (limited_files el r)).1
]

-- Compaction keeps the events that are neither archived nor expired.
pub compact-kept :
    (el : EventLog) (now : ℕ)
    → ((compact el now).events ≡ keep (λ r. is_active (el.heap r) now) el.events)
      × ((compact el now).heap ≡ el.heap)
      × ((compact el now).config ≡ el.config)
unfolding compact
compact-kept el now =
    let (kept, heap, config) = compact_events-kept el.events now el in
    (
      kept
          ∙ keep-cong (λ (r : ℕ). should_keep (el.heap r) now)
              (λ (r : ℕ). is_active (el.heap r) now) el.events
              (λ r. unfold should_keep is_active in ground arith),
      heap,
      config,
    )

-- What a log is used for.
pub data Action : Type 0 where
  appends : ℕ → Action
  compacts : Action
  completes : String → Action
  clears : Action

abbrev pub perform : EventLog → ℕ → Action → EventLog
perform el now (appends r) = append el r
perform el now compacts = compact el now
perform el now (completes path) = mark_file_events_completed el path
perform el now clears = clear el

unfoldable pub run : EventLog → List (ℕ × Action) → EventLog
run el [] = el
run el ((now, a) ∷ acts) = run (perform el now a) acts

-- Well-formed, and within the limit.
abbrev IsBounded : EventLog → Type 0
IsBounded el = IsEventLog el × (length el.events ≤ el.config.max_size)

perform-IsBounded :
    (el : EventLog) (now : ℕ) (a : Action) → IsBounded el → IsBounded (perform el now a)
unfolding mark_file_events_completed clear
perform-IsBounded el now (appends r) (v, h) = (append-IsEventLog el r v, append-size el r h)
perform-IsBounded el now compacts (v, h) =
    let (kept, _, config) = compact-kept el now in
    (
      compact-IsEventLog el now v,
      rw (kept, config)
          (omega (arith, h, length-keep-le (λ (r : ℕ). is_active (el.heap r) now) el.events)),
    )
perform-IsBounded el now (completes path) (v, h) = (
  heap-IsViewOf el (mark_file_events_completed el path) el.events
      (complete_all-Alike (listed path el.by_file) el.heap) refl refl refl v,
  h,
)
perform-IsBounded el now clears (v, h) = (
  record {
    unique = tt;
    ids = λ i. unfold lookup search in refl;
    kinds = λ k. unfold listed lookup in refl;
    sources = λ k. unfold listed lookup in refl;
  },
  omega arith,
)

run-IsBounded : (el : EventLog) (acts : List (ℕ × Action)) → IsBounded el → IsBounded (run el acts)
unfolding run
run-IsBounded el [] b = b
run-IsBounded el ((now, a) ∷ acts) b =
    run-IsBounded (perform el now a) acts (perform-IsBounded el now a b)

keep-keep : (p q : ℕ → Bool) (xs : List ℕ) → keep p (keep q xs) ≡ keep (λ r. q r && p r) xs
keep-keep p q [] = refl
keep-keep p q (x ∷ xs) = ground (arith, keep-keep p q xs)

-- What readers see of a well-formed log.
abbrev Reads : EventLog → Type 0
Reads el =
    ((i : String) → get el i ≡ search el.heap i el.events)
    × ((k : String) (now : ℕ)
        → get_by_type el k now
          ≡ keep (λ r. str_eq (el.heap r).kind k && is_active (el.heap r) now) el.events)
    × ((k : String) (now : ℕ)
        → get_by_source el k now
          ≡ keep (λ r. str_eq (el.heap r).source_id k && is_active (el.heap r) now) el.events)

IsEventLog-Reads : (el : EventLog) → IsEventLog el → Reads el
unfolding get get_by_type get_by_source filter_active
IsEventLog-Reads el v = (
  v.ids,
  (λ k now. rw (v.kinds k) (
      keep-keep (λ (r : ℕ). is_active (el.heap r) now) (λ (r : ℕ). str_eq (el.heap r).kind k)
        el.events)),
  (λ k now. rw (v.sources k) (
      keep-keep (λ (r : ℕ). is_active (el.heap r) now) (λ (r : ℕ). str_eq (el.heap r).source_id k)
        el.events)),
)

-- However a new log is used, it is one sequence of events, at most as many as its limit and no two with
-- one identifier, and its indexes cannot be told from searches in it: an identifier leads to its event,
-- and a kind or a source to exactly its active events, in order.
pub run-Reads :
    (heap : ℕ → Event) (cfg : Option EventLogConfig) (acts : List (ℕ × Action))
    → let el = run (new_event_log heap cfg) acts in
      (length el.events ≤ el.config.max_size)
      × Unique el.heap el.events
      × ((i : String) → get el i ≡ search el.heap i el.events)
      × ((k : String) (now : ℕ)
          → get_by_type el k now
            ≡ keep (λ r. str_eq (el.heap r).kind k && is_active (el.heap r) now) el.events)
      × ((k : String) (now : ℕ)
          → get_by_source el k now
            ≡ keep (λ r. str_eq (el.heap r).source_id k && is_active (el.heap r) now) el.events)
unfolding new_event_log
run-Reads heap cfg acts =
    let empty : IsBounded (new_event_log heap cfg) = (
      record {
        unique = tt;
        ids = λ i. unfold lookup search in refl;
        kinds = λ k. unfold listed lookup in refl;
        sources = λ k. unfold listed lookup in refl;
      },
      omega arith,
    ) in
    let (v, h) = run-IsBounded (new_event_log heap cfg) acts empty in
    let (ids, kinds, sources) = IsEventLog-Reads (run (new_event_log heap cfg) acts) v in
    (h, v.unique, ids, kinds, sources)

keep-same : (p : ℕ → Bool) (xs : List ℕ) → keep p (keep p xs) ≡ keep p xs
keep-same p [] = refl
keep-same p (x ∷ xs) = ground (arith, keep-same p xs)

keep-twice :
    (p q : ℕ → Bool) (xs : List ℕ) → keep (λ r. q r && p r) (keep p xs) ≡ keep (λ r. q r && p r) xs
keep-twice p q [] = refl
keep-twice p q (x ∷ xs) = ground (arith, keep-twice p q xs)

-- At the instant at which a well-formed log is compacted, the readers `GetByType`, `GetBySource`,
-- `GetRecent` and `Size` give the same before and after: the active events of each kind and each source,
-- the most recent ones and their number.
pub compact-Reads :
    (el : EventLog) (now : ℕ)
    → IsEventLog el
    → ((k : String) → get_by_type (compact el now) k now ≡ get_by_type el k now)
      × ((k : String) → get_by_source (compact el now) k now ≡ get_by_source el k now)
      × ((n : ℕ) → get_recent (compact el now) n now ≡ get_recent el n now)
      × (size (compact el now) now ≡ size el now)
unfolding get_recent size filter_active
compact-Reads el now v =
    let (kept, heap, _) = compact-kept el now in
    let active : ℕ → Bool = λ (r : ℕ). is_active (el.heap r) now in
    let (_, kinds, sources) = IsEventLog-Reads el v in
    let (_, kinds', sources') = IsEventLog-Reads (compact el now) (compact-IsEventLog el now v) in
    let again : keep (λ (r : ℕ). is_active ((compact el now).heap r) now) (compact el now).events
        ≡ keep active el.events =
      unfold is_active in rw (kept, heap) (keep-same active el.events) in
    (
      (λ k.
          kinds' k now
          ∙ rw (kept, heap) (keep-twice active (λ (r : ℕ). str_eq (el.heap r).kind k) el.events)
          ∙ sym (kinds k now)),
      (λ k.
          sources' k now
          ∙ rw (kept, heap)
              (keep-twice active (λ (r : ℕ). str_eq (el.heap r).source_id k) el.events)
          ∙ sym (sources k now)),
      (λ n. rw again refl),
      rw again refl,
    )
