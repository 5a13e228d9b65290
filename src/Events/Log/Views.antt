-- ===== src/Events/Log/Views.antt =====
-- The log of src/domain/event/eventlog.go as one sequence of events: its indexes are views of it.
use agent_collab.Common.{
  ℕ, zero, suc, String, ◌≡◌, refl, sym, subst, inl, inr, false, length, if◌then◌else◌, ltb, str_eq,
  eq_iff, Option, none, some, List, [], ◌∷◌, ◌++◌, keep, arith, Bool-cases, text_cases,
}
use agent_collab.Common.Dict.{lookup, lookup-delete}
use agent_collab.Events.{Event}
use agent_collab.Events.Log.{
  EventLog, listed, has_event, remove_from_source_index, remove_from_indexes, remove_oldest,
  enforce_rounds, enforce_size_limit,
}
use agent_collab.Events.Log.Index.{
  listed-remove_from_type_index, listed-remove_from_index, has_event-append, remove_first-middle,
  keep-middle,
}

-- The first event with an identifier.
unfoldable pub search : (ℕ → Event) → String → List ℕ → Option ℕ
search heap id [] = none
search heap id (r ∷ rs) = if str_eq (heap r).id id then some r else search heap id rs

-- The events of a kind, and of a source.
abbrev pub of_kind : (ℕ → Event) → String → List ℕ → List ℕ
of_kind heap k rs = keep (λ r. str_eq (heap r).kind k) rs

abbrev pub of_source : (ℕ → Event) → String → List ℕ → List ℕ
of_source heap k rs = keep (λ r. str_eq (heap r).source_id k) rs

-- No two events have the same identifier.
abbrev pub Unique : (ℕ → Event) → List ℕ → Type 0
Unique heap [] = Unit
Unique heap (r ∷ rs) = (has_event heap (heap r).id rs ≡ false) × Unique heap rs

-- The indexes of a log are those of a sequence of events.
pub record IsViewOf (events : List ℕ) (el : EventLog) : Type 0 where
  pub unique : Unique el.heap events
  pub ids : (i : String) → lookup i el.by_id ≡ search el.heap i events
  pub kinds : (k : String) → listed k el.by_type ≡ of_kind el.heap k events
  pub sources : (k : String) → listed k el.by_source ≡ of_source el.heap k events

abbrev pub IsEventLog : EventLog → Type 0
IsEventLog el = IsViewOf el.events el

Unique-middle :
    (heap : ℕ → Event) (e : ℕ) (xs ys : List ℕ)
    → Unique heap (xs ++ e ∷ ys)
    → Unique heap (xs ++ ys)
      × (has_event heap (heap e).id xs ≡ false)
      × (has_event heap (heap e).id ys ≡ false)
unfolding has_event
Unique-middle heap e [] ys u = (u.1, refl, u.0)
Unique-middle heap e (x ∷ xs) ys u =
    let (rest, before, after) = Unique-middle heap e xs ys u.1 in
    (
      (
        ground (
          arith,
          u.0,
          has_event-append heap (heap x).id xs (e ∷ ys),
          has_event-append heap (heap x).id xs ys,
        ),
        rest,
      ),
      ground (
        arith,
        u.0,
        before,
        has_event-append heap (heap x).id xs (e ∷ ys),
        eq_iff (heap x).id (heap e).id,
        eq_iff (heap e).id (heap x).id,
      ),
      after,
    )

search-absent :
    (heap : ℕ → Event) (id : String) (rs : List ℕ)
    → has_event heap id rs ≡ false
    → search heap id rs ≡ none
unfolding has_event search
search-absent heap id [] h = refl
search-absent heap id (r ∷ rs) h = ground (arith, h, search-absent heap id rs)

search-middle :
    (heap : ℕ → Event) (id : String) (e : ℕ) (xs ys : List ℕ)
    → str_eq (heap e).id id ≡ false
    → search heap id (xs ++ e ∷ ys) ≡ search heap id (xs ++ ys)
unfolding search
search-middle heap id e [] ys n = ground (arith, n)
search-middle heap id e (x ∷ xs) ys n = ground (arith, search-middle heap id e xs ys n)

-- An event that is taken out of the indexes is taken out of the sequence.
pub remove_from_indexes-IsViewOf :
    (el : EventLog) (e : ℕ) (xs ys : List ℕ)
    → IsViewOf (xs ++ e ∷ ys) el
    → IsViewOf (xs ++ ys) (remove_from_indexes el (el.heap e))
unfolding remove_from_indexes remove_from_source_index
remove_from_indexes-IsViewOf el e xs ys v =
    let (u, before, after) = Unique-middle el.heap e xs ys v.unique in
    record {
      unique = u;
      ids = λ i. rw (lookup-delete (el.heap e).id i el.by_id) (elim (text_cases (el.heap e).id i) [
        | inl (p, y) ↦ rw y (
            sym (
              search-absent el.heap i (xs ++ ys) (
                subst (λ k. has_event el.heap k (xs ++ ys) ≡ false) p
                  (ground (arith, before, after, has_event-append el.heap (el.heap e).id xs ys)))))
        | inr (p, n) ↦ rw (n, v.ids i) (search-middle el.heap i e xs ys n)
      ]);
      kinds = λ k.
          rw (listed-remove_from_type_index el.heap (el.heap e) k el.by_type, v.kinds k)
            (elim (Bool-cases (str_eq (el.heap e).kind k)) [
              | inl y ↦ rw y (
                  remove_first-middle el.heap (λ (r : ℕ). str_eq (el.heap r).kind k) e xs ys y
                    before)
              | inr n ↦ rw n (keep-middle (λ (r : ℕ). str_eq (el.heap r).kind k) e xs ys n)
            ]);
      sources = λ k.
          rw
            (
              listed-remove_from_index el.heap (el.heap e).source_id (el.heap e).id k el.by_source,
              v.sources k,
            )
            (elim (Bool-cases (str_eq (el.heap e).source_id k)) [
              | inl y ↦ rw y (
                  remove_first-middle el.heap (λ (r : ℕ). str_eq (el.heap r).source_id k) e xs ys y
                    before)
              | inr n ↦ rw n (keep-middle (λ (r : ℕ). str_eq (el.heap r).source_id k) e xs ys n)
            ]);
    }

pub IsViewOf-events :
    (el : EventLog) (xs ys : List ℕ) → IsViewOf xs el → IsViewOf xs (record el { events = ys })
IsViewOf-events el xs ys v = record {
  unique = v.unique;
  ids = v.ids;
  kinds = v.kinds;
  sources = v.sources;
}

pub remove_oldest-IsEventLog : (el : EventLog) → IsEventLog el → IsEventLog (remove_oldest el)
unfolding remove_oldest remove_from_indexes
remove_oldest-IsEventLog el v = go el.events refl
  where
    go : (rs : List ℕ) → el.events ≡ rs → IsEventLog (remove_oldest el)
    go [] e = rw (e, remove_oldest) v
    go (r ∷ rs) e =
        rw (e, remove_oldest)
          (remove_from_indexes-IsViewOf (record el { events = rs }) r [] rs
            (IsViewOf-events el (r ∷ rs) rs (subst (λ k. IsViewOf k el) e v)))

enforce_rounds-IsEventLog :
    (n : ℕ) (el : EventLog) → IsEventLog el → IsEventLog (enforce_rounds n el)
unfolding enforce_rounds
enforce_rounds-IsEventLog zero el v = v
enforce_rounds-IsEventLog (suc n) el v =
    elim (Bool-cases (ltb el.config.max_size (length el.events))) [
      | inl y ↦
          rw (y, enforce_rounds)
            (enforce_rounds-IsEventLog n (remove_oldest el) (remove_oldest-IsEventLog el v))
      | inr m ↦ rw (m, enforce_rounds) v
    ]

pub enforce_size_limit-IsEventLog :
    (el : EventLog) → IsEventLog el → IsEventLog (enforce_size_limit el)
unfolding enforce_size_limit
enforce_size_limit-IsEventLog el = enforce_rounds-IsEventLog (length el.events) el
