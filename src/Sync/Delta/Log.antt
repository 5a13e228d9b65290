-- ===== src/Sync/Delta/Log.antt =====
-- The log of src/domain/ctxsync/delta.go and its two indexes.
use agent_collab.Common.{
  ◌≤◌, String, ◌≡◌, ◌↔◌, refl, sym, ap, ◌∙◌, subst, inl, inr, false, if◌then◌else◌, ltb, str_eq,
  eq_iff, eq_refl, Option, none, some, List, [], ◌∷◌, ◌++◌, ℤ, pos, negsuc, arith, length, keep, In,
  keep-In, In-keep, length-append, Bool-cases, Option-cases, text_cases,
}
use agent_collab.Common.Dict.{Dict, lookup, insert, lookup-insert, lookup-delete}
use agent_collab.Sync.Clock.{VectorClock, happens_before, happens_after, is_concurrent, compare}
use agent_collab.Sync.Delta.{
  Delta, DeltaLog, new_delta_log, get, get_by_source, without_first, set_source, evict_oldest,
  append, get_since,
}

-- The first delta with an identifier, and the deltas of a source, found without an index.
unfoldable pub find : String → List Delta → Option Delta
find id [] = none
find id (d ∷ ds) = if str_eq d.id id then some d else find id ds

abbrev pub from_source : String → List Delta → List Delta
from_source source ds = keep (λ (d : Delta). str_eq d.source_id source) ds

abbrev pub IsUnique : List Delta → Type 0
IsUnique [] = Unit
IsUnique (d ∷ ds) = (find d.id ds ≡ none) × IsUnique ds

-- The log without its size limit: no identifier comes twice, and the indexes say what a search says.
pub record IsIndexed (dl : DeltaLog) : Type 0 where
  pub unique : IsUnique dl.deltas
  pub ids : (id : String) → get dl id ≡ find id dl.deltas
  pub sources : (source : String) → get_by_source dl source ≡ from_source source dl.deltas

pub record IsLog (dl : DeltaLog) : Type 0 where
  pub indexed : IsIndexed dl
  pub room : 1 ≤ dl.max_size
  pub bounded : length dl.deltas ≤ dl.max_size

find-append :
    (id : String) (d : Delta) (ds : List Delta)
    → find id (ds ++ d ∷ [])
      ≡ elim (find id ds) [ some x ↦ some x | none ↦ if str_eq d.id id then some d else none ]
unfolding find
find-append id d [] = refl
find-append id d (x ∷ ds) = ground (arith, find-append id d ds)

append-IsUnique :
    (d : Delta) (ds : List Delta) → find d.id ds ≡ none → IsUnique ds → IsUnique (ds ++ d ∷ [])
unfolding find
append-IsUnique d [] e u = (refl, tt)
append-IsUnique d (x ∷ ds) e u = (
  ground (arith, find-append x.id d ds, u.0, eq_iff x.id d.id, eq_iff d.id x.id),
  append-IsUnique d ds (ground arith) u.1,
)

from_source-append :
    (source : String) (d : Delta) (ds : List Delta)
    → from_source source (ds ++ d ∷ [])
      ≡ from_source source ds ++ (if str_eq d.source_id source then d ∷ [] else [])
from_source-append source d [] = ground arith
from_source-append source d (x ∷ ds) = ground (arith, from_source-append source d ds)

-- The log that a new delta makes before the size limit.
grown : DeltaLog → Delta → DeltaLog
grown dl d = record dl {
  deltas = dl.deltas ++ d ∷ [];
  by_id = insert d.id d dl.by_id;
  by_source = insert d.source_id (get_by_source dl d.source_id ++ d ∷ []) dl.by_source;
}

get_by_source-grown :
    (dl : DeltaLog) (d : Delta) (source : String)
    → get_by_source (grown dl d) source ≡ (
        if str_eq d.source_id source
        then get_by_source dl d.source_id ++ d ∷ []
        else get_by_source dl source)
unfolding grown get_by_source
get_by_source-grown dl d source =
    ground (
      arith,
      lookup-insert d.source_id source (get_by_source dl d.source_id ++ d ∷ []) dl.by_source,
    )

append_nil : (xs : List Delta) → xs ++ [] ≡ xs
append_nil [] = refl
append_nil (x ∷ xs) = ground (arith, append_nil xs)

grown-IsIndexed :
    (dl : DeltaLog) (d : Delta) → get dl d.id ≡ none → IsIndexed dl → IsIndexed (grown dl d)
unfolding grown get get_by_source
grown-IsIndexed dl d fresh v = record {
  unique = append-IsUnique d dl.deltas (sym (v.ids d.id) ∙ fresh) v.unique;
  ids = λ id. ground (
    arith,
    find-append id d dl.deltas,
    lookup-insert d.id id d dl.by_id,
    v.ids id,
    fresh,
    eq_iff d.id id,
  );
  sources = λ source. by_source source;
}
  where
    from_grown :
        (source : String) (more : List Delta)
        → get_by_source (grown dl d) source ≡ get_by_source dl source ++ more
        → (if str_eq d.source_id source then d ∷ [] else []) ≡ more
        → get_by_source (grown dl d) source ≡ from_source source (dl.deltas ++ d ∷ [])
    from_grown source more e m =
        ground (arith, e, m, v.sources source, from_source-append source d dl.deltas)

    by_source :
        (source : String)
        → get_by_source (grown dl d) source ≡ from_source source (dl.deltas ++ d ∷ [])
    by_source source = elim (text_cases d.source_id source) [
      | inl (p, t) ↦
          from_grown source (d ∷ [])
            (get_by_source-grown dl d source
              ∙ rw t (
                  subst (λ k. get_by_source dl k ++ d ∷ [] ≡ get_by_source dl source ++ d ∷ [])
                    (sym p) refl))
            (rw t refl)
      | inr (p, t) ↦
          from_grown source []
            (get_by_source-grown dl d source ∙ rw t (sym (append_nil (get_by_source dl source))))
            (rw t refl)
    ]

without_first-source : (d : Delta) (ds : List Delta) → without_first d.id (d ∷ ds) ≡ ds
unfolding without_first
without_first-source d ds = ground (arith, eq_refl d.id)

-- What the index says after a slice is put back.
lookup-set_source :
    (source s : String) (ds : List Delta) (index : Dict (List Delta))
    → elim (lookup s (set_source source ds index)) [ none ↦ [] | some xs ↦ xs ]
      ≡ (if str_eq source s then ds else elim (lookup s index) [ none ↦ [] | some xs ↦ xs ])
unfolding set_source
lookup-set_source source s [] index = ground (arith, lookup-delete source s index)
lookup-set_source source s (d ∷ ds) index = ground (arith, lookup-insert source s (d ∷ ds) index)

evict-IsIndexed :
    (dl : DeltaLog) (d : Delta) (ds : List Delta)
    → dl.deltas ≡ d ∷ ds
    → IsIndexed dl
    → IsIndexed (evict_oldest dl (d ∷ ds))
unfolding evict_oldest find get get_by_source
evict-IsIndexed dl d ds e v = record {
  unique = (subst IsUnique e v.unique).1;
  ids = λ id. ground (
    arith,
    subst (λ l. get dl id ≡ find id l) e (v.ids id),
    lookup-delete d.id id dl.by_id,
    (subst IsUnique e v.unique).0,
    eq_iff d.id id,
  );
  sources = by_source;
}
  where
    listed : (source : String) → get_by_source dl source ≡ from_source source (d ∷ ds)
    listed source = subst (λ l. get_by_source dl source ≡ from_source source l) e (v.sources source)

    by_source :
        (source : String) → get_by_source (evict_oldest dl (d ∷ ds)) source ≡ from_source source ds
    by_source source = elim (Option-cases (lookup d.source_id dl.by_source)) [
      | inl n ↦ absurd (ground (arith, n, listed d.source_id, eq_refl d.source_id))
      | inr (l, n) ↦
          let whole : l ≡ d ∷ from_source d.source_id ds =
            ground (arith, n, listed d.source_id, eq_refl d.source_id) in
          let left : without_first d.id l ≡ from_source d.source_id ds =
            subst (λ k. without_first d.id k ≡ from_source d.source_id ds) (sym whole)
              (without_first-source d (from_source d.source_id ds)) in
          rw (n, left)
            (lookup-set_source d.source_id source (from_source d.source_id ds) dl.by_source
              ∙ elim (text_cases d.source_id source) [
                | inl (p, t) ↦
                    rw t (subst (λ k. from_source d.source_id ds ≡ from_source k ds) p refl)
                | inr (p, t) ↦ ground (arith, t, listed source)
              ])
    ]

evict-IsLog :
    (dl : DeltaLog) (d : Delta) (ds : List Delta)
    → dl.deltas ≡ d ∷ ds
    → IsIndexed dl
    → 1 ≤ dl.max_size
    → length ds ≤ dl.max_size
    → IsLog (evict_oldest dl (d ∷ ds))
unfolding evict_oldest
evict-IsLog dl d ds e v room small = record {
  indexed = evict-IsIndexed dl d ds e v;
  room = room;
  bounded = small;
}

first_of : (ds : List Delta) (d : Delta) → (x : Delta) × (xs : List Delta) × (ds ++ d ∷ [] ≡ x ∷ xs)
first_of [] d = (d, [], refl)
first_of (x ∷ ds) d = (x, ds ++ d ∷ [], refl)

-- Appending a delta keeps a well-formed log well-formed: within its limit, without a repeated
-- identifier, and with both indexes giving what a search of the deltas gives.
pub append-IsLog : (d : Delta) (dl : DeltaLog) → IsLog dl → IsLog (append d dl)
unfolding append grown
append-IsLog d dl v = elim (Option-cases (get dl d.id)) [
  | inr (x, e) ↦ rw (e, append) v
  | inl e ↦
      let v' = grown-IsIndexed dl d e v.indexed in
      let count = length-append dl.deltas (d ∷ []) in
      elim (Bool-cases (ltb dl.max_size (length (dl.deltas ++ d ∷ [])))) [
        | inl full ↦
            let (x, xs, split) = first_of dl.deltas d in
            rw (e, append)
              (rw full (
                subst (λ l. IsLog (evict_oldest (grown dl d) l)) (sym split)
                  (evict-IsLog (grown dl d) x xs split v' v.room
                    (omega (arith, v.bounded, count, ap length split)))))
        | inr fits ↦
            rw (e, append)
              (rw fits (record { indexed = v'; room = v.room; bounded = ground (arith, fits) }))
      ]
]

-- A new log is well-formed, whatever limit is asked for.
pub new_delta_log-IsLog : (max_size : ℤ) → IsLog (new_delta_log max_size)
unfolding new_delta_log find get get_by_source lookup
new_delta_log-IsLog max_size = record {
  indexed = record { unique = tt; ids = λ id. refl; sources = λ source. refl };
  room = room max_size;
  bounded = omega arith;
}
  where
    room : (n : ℤ) → 1 ≤ (new_delta_log n).max_size
    room (pos n) = ground arith
    room (negsuc n) = ground arith

-- The deltas that a request gets are those of the log that did not happen before the clock that it
-- names, in the log's order and no others.
pub get_since_iff :
    (dl : DeltaLog) (vc : VectorClock) (d : Delta)
    → In d (get_since dl vc) ↔ (In d dl.deltas × (happens_before d.vector_clock vc ≡ false))
unfolding get_since happens_before happens_after is_concurrent compare
get_since_iff dl vc d = (
  (λ m. let (at, h) = keep-In _ d dl.deltas m in (at, ground arith)),
  (λ (at, h). In-keep _ d dl.deltas at (ground arith)),
)
