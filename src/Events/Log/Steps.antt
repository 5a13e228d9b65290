-- ===== src/Events/Log/Steps.antt =====
-- What the operations of src/domain/event/eventlog.go do to the sequence of events.
use agent_collab.Common.{
  ℕ, String, ◌≡◌, refl, sym, ◌∙◌, ap, subst, inl, inr, Bool, true, false, ◌||◌, ◌==◌, length,
  if◌then◌else◌, leb, take, drop, ◌-◌, str_eq, eq_iff, none, some, List, [], ◌∷◌, ◌++◌, keep, arith,
  Bool-cases, text_cases,
}
use mathlib.Core.List.{append_assoc}
use agent_collab.Common.Dict.{insert, has, lookup-insert}
use agent_collab.Events.{Event}
use agent_collab.Events.Log.{
  EventLog, listed, push, has_event, remove_from_indexes, enforce_size_limit, archive_all,
  compact_file_events, append, should_keep, compact_events, compact, id_of, last_of,
}
use agent_collab.Events.Log.Index.{listed-push, has_event-append, keep-append}
use agent_collab.Events.Log.Writes.{heap-IsViewOf, archive_all-Alike}
use agent_collab.Events.Log.Views.{
  search, of_kind, of_source, Unique, IsViewOf, IsEventLog, IsViewOf-events,
  remove_from_indexes-IsViewOf, enforce_size_limit-IsEventLog,
}

compact_file_events-IsViewOf :
    (el : EventLog) (path : String) (rs : List ℕ)
    → IsViewOf rs el
    → IsViewOf rs (compact_file_events el path)
unfolding compact_file_events
compact_file_events-IsViewOf el path rs v =
    let file_events = listed path el.by_file in
    let limit = el.config.max_events_per_file in
    elim (Bool-cases (limit == 0 || leb (length file_events) limit)) [
      | inl y ↦ rw (y, compact_file_events) v
      | inr n ↦
          let olds = take (length file_events - limit) file_events in
          let newest = id_of el.heap (last_of file_events) in
          rw (n, compact_file_events)
            (heap-IsViewOf el
              (record el {
                heap = archive_all newest olds el.heap;
                by_file = insert path (drop (length file_events - limit) file_events) el.by_file;
              })
              rs (archive_all-Alike newest olds el.heap) refl refl refl v)
    ]

compact_file_events-events :
    (el : EventLog) (path : String)
    → ((compact_file_events el path).events ≡ el.events)
      × ((compact_file_events el path).config ≡ el.config)
unfolding compact_file_events
compact_file_events-events el path = ground arith

-- The log with an event more, before the limits.
abbrev entered : EventLog → ℕ → EventLog
entered el r =
    let e = el.heap r in
    record el {
      events = el.events ++ r ∷ [];
      by_id = insert e.id r el.by_id;
      by_type = push e.kind r el.by_type;
      by_source = push e.source_id r el.by_source;
    }

Unique-append :
    (heap : ℕ → Event) (r : ℕ) (rs : List ℕ)
    → has_event heap (heap r).id rs ≡ false
    → Unique heap rs
    → Unique heap (rs ++ r ∷ [])
unfolding has_event
Unique-append heap r [] h u = (refl, tt)
Unique-append heap r (q ∷ rs) h u =
    let rest : Unique heap (rs ++ r ∷ []) = Unique-append heap r rs (ground (arith, h)) u.1 in
    (
      ground (
        arith,
        h,
        u.0,
        has_event-append heap (heap q).id rs (r ∷ []),
        eq_iff (heap q).id (heap r).id,
        eq_iff (heap r).id (heap q).id,
      ),
      rest,
    )

search-append :
    (heap : ℕ → Event) (i : String) (r : ℕ) (rs : List ℕ)
    → has_event heap (heap r).id rs ≡ false
    → search heap i (rs ++ r ∷ []) ≡ (if str_eq (heap r).id i then some r else search heap i rs)
unfolding search has_event
search-append heap i r [] h = refl
search-append heap i r (q ∷ rs) h = ground (
  arith,
  h,
  search-append heap i r rs,
  eq_iff (heap q).id i,
  eq_iff (heap r).id i,
  eq_iff (heap q).id (heap r).id,
)

pub has_event-search :
    (heap : ℕ → Event) (i : String) (rs : List ℕ)
    → search heap i rs ≡ none
    → has_event heap i rs ≡ false
unfolding search has_event
has_event-search heap i [] h = refl
has_event-search heap i (q ∷ rs) h = ground (arith, h, has_event-search heap i rs)

entered-IsEventLog :
    (el : EventLog) (r : ℕ)
    → has (el.heap r).id el.by_id ≡ false
    → IsEventLog el
    → IsEventLog (entered el r)
unfolding has
entered-IsEventLog el r new v =
    let absent : has_event el.heap (el.heap r).id el.events ≡ false =
      has_event-search el.heap (el.heap r).id el.events
        (ground (arith, new, v.ids (el.heap r).id)) in
    record {
      unique = Unique-append el.heap r el.events absent v.unique;
      ids = λ i.
          rw
            (
              lookup-insert (el.heap r).id i r el.by_id,
              search-append el.heap i r el.events absent,
              v.ids i,
            )
            refl;
      kinds = λ k.
          rw
            (
              listed-push (el.heap r).kind k r el.by_type,
              keep-append (λ (q : ℕ). str_eq (el.heap q).kind k) r el.events,
              v.kinds k,
            )
            (elim (text_cases (el.heap r).kind k) [
              | inl (p, y) ↦ rw y (
                  ap (λ (xs : List ℕ). xs ++ r ∷ []) (v.kinds (el.heap r).kind)
                  ∙ ap (λ t. of_kind el.heap t el.events ++ r ∷ []) p)
              | inr (p, n) ↦ rw n refl
            ]);
      sources = λ k.
          rw
            (
              listed-push (el.heap r).source_id k r el.by_source,
              keep-append (λ (q : ℕ). str_eq (el.heap q).source_id k) r el.events,
              v.sources k,
            )
            (elim (text_cases (el.heap r).source_id k) [
              | inl (p, y) ↦ rw y (
                  ap (λ (xs : List ℕ). xs ++ r ∷ []) (v.sources (el.heap r).source_id)
                  ∙ ap (λ t. of_source el.heap t el.events ++ r ∷ []) p)
              | inr (p, n) ↦ rw n refl
            ]);
    }

-- What `append` hands to the size limit.
unfoldable pub limited_files : EventLog → ℕ → EventLog
limited_files el r =
    if str_eq (el.heap r).file_path ""
    then entered el r
    else compact_file_events
        (record (entered el r) { by_file = push (el.heap r).file_path r el.by_file })
        (el.heap r).file_path

pub limited_files-events :
    (el : EventLog) (r : ℕ)
    → ((limited_files el r).events ≡ el.events ++ r ∷ [])
      × ((limited_files el r).config ≡ el.config)
unfolding limited_files
limited_files-events el r = ground (
  arith,
  compact_file_events-events
      (record (entered el r) { by_file = push (el.heap r).file_path r el.by_file })
      (el.heap r).file_path,
)

pub append-limited :
    (el : EventLog) (r : ℕ)
    → (has (el.heap r).id el.by_id ≡ true → append el r ≡ el)
      × (has (el.heap r).id el.by_id ≡ false
          → append el r ≡ enforce_size_limit (limited_files el r))
unfolding append limited_files
append-limited el r = (λ y. rw (y, append) refl, λ n. rw (n, append) refl)

pub has-has_event :
    (el : EventLog) (i : String) → IsEventLog el → has i el.by_id ≡ has_event el.heap i el.events
unfolding has search has_event
has-has_event el i v = rw (v.ids i, has) (go el.events)
  where
    go :
        (rs : List ℕ)
        → (elim (search el.heap i rs) as (λ x. Bool) [ none ↦ false | some _ ↦ true ])
          ≡ has_event el.heap i rs
    go [] = refl
    go (q ∷ rs) = ground (arith, go rs)

pub append-IsEventLog : (el : EventLog) (r : ℕ) → IsEventLog el → IsEventLog (append el r)
unfolding append limited_files
append-IsEventLog el r v = elim (Bool-cases (has (el.heap r).id el.by_id)) [
  | inl y ↦ rw (y, append) v
  | inr n ↦
      let w = entered-IsEventLog el r n v in
      rw (n, append)
        (enforce_size_limit-IsEventLog (limited_files el r)
          (elim (Bool-cases (str_eq (el.heap r).file_path "")) [
            | inl y ↦ rw (y, limited_files) w
            | inr m ↦
                rw (m, limited_files)
                  (let full = record (entered el r) {
                    by_file = push (el.heap r).file_path r el.by_file;
                  } in
                    let path = (el.heap r).file_path in
                    subst (λ k. IsViewOf k (compact_file_events full path))
                      (sym (compact_file_events-events full path).0)
                      (compact_file_events-IsViewOf full path full.events (
                        heap-IsViewOf (entered el r) full full.events (λ q. (refl, refl, refl)) refl
                          refl refl w)))
          ]))
]

compact_events-IsViewOf :
    (rs xs : List ℕ) (now : ℕ) (el : EventLog)
    → IsViewOf (xs ++ rs) el
    → IsViewOf (xs ++ (compact_events rs now el).1) (compact_events rs now el).0
unfolding compact_events
compact_events-IsViewOf [] xs now el v = v
compact_events-IsViewOf (r ∷ rs) xs now el v = elim (Bool-cases (should_keep (el.heap r) now)) [
  | inl y ↦
      rw (y, compact_events)
        (subst (λ k. IsViewOf k (compact_events rs now el).0)
          (append_assoc xs (r ∷ []) (compact_events rs now el).1)
          (compact_events-IsViewOf rs (xs ++ r ∷ []) now el
            (subst (λ k. IsViewOf k el) (sym (append_assoc xs (r ∷ []) rs)) v)))
  | inr n ↦
      rw (n, compact_events)
        (compact_events-IsViewOf rs xs now (remove_from_indexes el (el.heap r))
          (remove_from_indexes-IsViewOf el r xs rs v))
]

pub compact-IsEventLog : (el : EventLog) (now : ℕ) → IsEventLog el → IsEventLog (compact el now)
unfolding compact
compact-IsEventLog el now v =
    let (el', kept) = compact_events el.events now el in
    IsViewOf-events el' kept kept (compact_events-IsViewOf el.events [] now el v)

pub compact_events-kept :
    (rs : List ℕ) (now : ℕ) (el : EventLog)
    → ((compact_events rs now el).1 ≡ keep (λ r. should_keep (el.heap r) now) rs)
      × ((compact_events rs now el).0.heap ≡ el.heap)
      × ((compact_events rs now el).0.config ≡ el.config)
unfolding compact_events remove_from_indexes
compact_events-kept [] now el = (refl, refl, refl)
compact_events-kept (r ∷ rs) now el = elim (Bool-cases (should_keep (el.heap r) now)) [
  | inl y ↦
      let (a, b, c) = compact_events-kept rs now el in
      rw (y, compact_events) (ap (λ (k : List ℕ). r ∷ k) a, b, c)
  | inr n ↦ rw (n, compact_events) (compact_events-kept rs now (remove_from_indexes el (el.heap r)))
]
