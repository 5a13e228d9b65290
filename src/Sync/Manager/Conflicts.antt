-- ===== src/Sync/Manager/Conflicts.antt =====
-- What src/domain/ctxsync/sync.go takes for a conflict, and what a second delivery does.
use agent_collab.Common.{
  ℕ, String, ◌≡◌, ◌↔◌, ◌≢◌, refl, sym, ap, subst, inl, inr, true, none, some, List, [], ◌∷◌, map,
  In, keep, keep-In, In-keep, arith, str_eq, eq_iff, Option-cases,
}
use agent_collab.Sync.Clock.{is_concurrent}
use agent_collab.Sync.Delta.{Delta, get, get_by_source}
use agent_collab.Sync.Delta.Log.{IsLog}
use agent_collab.Sync.Delta.Retention.{get-append}
use agent_collab.Sync.Manager.{
  SyncManager, Conflict, clashes, detect_conflicts, notify_conflicts, receive_delta,
}

abbrev conflict_with : Delta → ℕ → Delta → Conflict
conflict_with remote now l = record {
  file_path = remote.payload.file_path;
  local_delta = l;
  remote_delta = remote;
  detected_at = now;
}

map-In :
    (f : Delta → Conflict) (c : Conflict) (ds : List Delta)
    → In c (map f ds) ↔ ((l : Delta) × In l ds × (c ≡ f l))
map-In f c [] = ((λ m. absurd m), λ (l, m, e). absurd m)
map-In f c (d ∷ ds) = (
  (λ m. elim m [
    | inl e ↦ (d, inl refl, e)
    | inr q ↦ let (l, at, e) = (map-In f c ds).0 q in (l, inr at, e)
  ]),
  (λ (l, m, e). elim m [
    | inl p ↦ inl (subst (λ k. c ≡ f k) p e)
    | inr q ↦ inr ((map-In f c ds).1 (l, q, e))
  ]),
)

-- With a well-formed log, the conflicts of a remote change to a named file are exactly those with the
-- changes of the same file in the log that this node made and that are concurrent with it.
pub detect_conflicts_iff :
    (sm : SyncManager) (remote l : Delta) (now : ℕ)
    → IsLog sm.delta_log
    → remote.kind ≡ "file_change"
    → remote.payload.file_path ≢ ""
    → In (conflict_with remote now l) (detect_conflicts sm remote now) ↔ (
        In l sm.delta_log.deltas
        × (l.source_id ≡ sm.node_id)
        × (l.kind ≡ "file_change")
        × (l.payload.file_path ≡ remote.payload.file_path)
        × (is_concurrent l.vector_clock remote.vector_clock ≡ true))
unfolding detect_conflicts clashes
detect_conflicts_iff sm remote l now v changed named =
    let ds = get_by_source sm.delta_log sm.node_id in
    let f = conflict_with remote now in
    let c = f l in
    let listed = map-In f c (keep (clashes remote) ds) in
    let whole : detect_conflicts sm remote now ≡ map f (keep (clashes remote) ds) =
      ground (arith, eq_iff remote.kind "file_change", eq_iff remote.payload.file_path "") in
    (
      (λ m.
          let (l', at, e) = listed.0 (subst (In c) whole m) in
          let same : l ≡ l' = ap (λ (k : Conflict). k.local_delta) e in
          let kept = subst (λ k. In k (keep (clashes remote) ds)) (sym same) at in
          let (found, hit) = keep-In (clashes remote) l ds kept in
          let (logged, mine) =
            keep-In (λ (x : Delta). str_eq x.source_id sm.node_id) l sm.delta_log.deltas
              (subst (In l) (v.indexed.sources sm.node_id) found) in
          (
            logged,
            (eq_iff l.source_id sm.node_id).0 mine,
            ground (arith, hit, eq_iff l.kind "file_change"),
            ground (arith, hit, eq_iff l.payload.file_path remote.payload.file_path),
            ground (arith, hit),
          )),
      (λ (at, mine, kind, path, both). subst (In c) (sym whole) (
          listed.1 (
            l,
            In-keep (clashes remote) l ds
                (subst (In l) (sym (v.indexed.sources sm.node_id)) (
                  In-keep (λ (x : Delta). str_eq x.source_id sm.node_id) l sm.delta_log.deltas at
                    ((eq_iff l.source_id sm.node_id).1 mine)))
                (ground (
                  arith,
                  eq_iff l.kind "file_change",
                  eq_iff l.payload.file_path remote.payload.file_path,
                )),
            refl,
          ))),
    )

-- A delta that was received without an error changes nothing when it comes again, with any content.
pub receive_delta_twice :
    (sm sm' : SyncManager) (d again : Delta) (now later : ℕ)
    → IsLog sm.delta_log
    → receive_delta sm d now ≡ (sm', none)
    → again.id ≡ d.id
    → receive_delta sm' again later ≡ (sm', none)
unfolding receive_delta
receive_delta_twice sm sm' d again now later v h same =
    elim (Option-cases (get sm'.delta_log again.id)) [
      | inr (x, e) ↦ rw (e, receive_delta) refl
      | inl e ↦ absurd (there (subst (λ i. get sm'.delta_log i ≡ none) same e))
    ]
  where
    there : get sm'.delta_log d.id ≢ none
    there = elim (Option-cases (get sm.delta_log d.id)) [
      | inr (x, e) ↦ λ n. ground (arith, e, n, h)
      | inl e ↦ elim (Option-cases (notify_conflicts sm.on_conflict (detect_conflicts sm d now))) [
        | inr (x, c) ↦ absurd (ground arith)
        | inl c ↦ subst (λ l. get l d.id ≢ none) (ground arith) (get-append d sm.delta_log v)
      ]
    ]

-- An error of the conflict handler leaves the manager as it was.
pub receive_delta_error :
    (sm : SyncManager) (d : Delta) (now : ℕ) (e : String)
    → (receive_delta sm d now).1 ≡ some e
    → (receive_delta sm d now).0 ≡ sm
unfolding receive_delta
receive_delta_error sm d now e h = elim (Option-cases (get sm.delta_log d.id)) [
  | inr (x, known) ↦ rw (known, receive_delta) refl
  | inl fresh ↦ elim (Option-cases (notify_conflicts sm.on_conflict (detect_conflicts sm d now))) [
    | inr (x, c) ↦ rw (fresh, receive_delta) (rw c refl)
    | inl c ↦ absurd (ground arith)
  ]
]
