-- ===== src/Sync/Recovery/Winners.antt =====
-- How src/domain/ctxsync/recovery.go settles conflicts, and which it sees.
use agent_collab.Common.{
  String, ◌≡◌, refl, sym, subst, inl, inr, ◌↔◌, Bool, not, ◌&&◌, leb, str_eq, Option, none, some,
  List, [], ◌∷◌, ◌++◌, length, In, ok, arith, Bool-cases, Option-cases,
}
use agent_collab.Common.Dict.{Dict, lookup, insert, values}
use agent_collab.Common.Order.{text_lt_asym, text_lt_total, text_lt_same}
use agent_collab.Sync.Clock.{is_concurrent}
use agent_collab.Sync.Delta.{Delta, get}
use agent_collab.Sync.Recovery.{
  RecoveryManager, RecoveryConflict, RecoveryResult, Resolution, keep_first, keep_second, escalated,
  Replay, resolution_of, resolve_conflict, note_conflict, replay_delta, replay_all, compare_with,
  compare_pairs, compare_files, finish_recovery, concat, sort_in_order, insert_in_order,
  replays_before,
}

-- The delta that a resolution keeps.
abbrev pub winner : Delta → Delta → Resolution → Option Delta
winner d e keep_first = some d
winner d e keep_second = some e
winner d e escalated = none

-- Which delta wins a conflict does not depend on the order in which a node compares the two; there is
-- no winner just if both have one time and one source.
pub resolution_of_symm :
    (node other path : String) (d e : Delta)
    → (winner d e (resolve_conflict node path d e).resolution
        ≡ winner e d (resolve_conflict other path e d).resolution)
      × ((resolve_conflict node path d e).resolution ≡ escalated
          ↔ (d.timestamp ≡ e.timestamp) × (d.source_id ≡ e.source_id))
unfolding resolve_conflict resolution_of
resolution_of_symm node other path d e =
    let s = d.source_id in
    let t = e.source_id in
    (
      ground (arith, text_lt_asym s t, text_lt_asym t s),
      (
        (λ h. ground (arith, h, text_lt_total s t)),
        (λ (same, from). ground (arith, same, text_lt_same s t from, text_lt_same t s (sym from))),
      ),
    )

-- Both deltas of a conflict satisfy a property.
abbrev pub Both : (Delta → Type 0) → RecoveryConflict → Type 0
Both P c = P c.local_delta × P c.remote_delta

abbrev pub All : {A : Type 0} → (A → Type 0) → List A → Type 0
All P [] = Unit
All P (x ∷ xs) = P x × All P xs

All-append :
    {A : Type 0} (P : A → Type 0) (xs : List A) (x : A) → All P xs → P x → All P (xs ++ x ∷ [])
All-append P [] x a p = (p, tt)
All-append P (y ∷ ys) x (q, a) p = (q, All-append P ys x a p)

resolve_conflict-Both :
    (P : Delta → Type 0) (node path : String) (d e : Delta)
    → P d
    → P e
    → Both P (resolve_conflict node path d e)
unfolding resolve_conflict
resolve_conflict-Both P node path d e p q = ground (arith, p, q)

compare_with-All :
    (P : Delta → Type 0) (node path : String) (d : Delta) (es : List Delta) (r : RecoveryResult)
    → P d
    → All P es
    → All (Both P) r.conflicts
    → All (Both P) (compare_with node path d es r).conflicts
unfolding compare_with note_conflict
compare_with-All P node path d [] r p a c = c
compare_with-All P node path d (e ∷ es) r p (q, a) c =
    elim (Bool-cases (is_concurrent d.vector_clock e.vector_clock)) [
      | inl y ↦
          rw (y, compare_with)
            (compare_with-All P node path d es (note_conflict (resolve_conflict node path d e) r) p
              a
              (All-append (Both P) r.conflicts (resolve_conflict node path d e) c
                (resolve_conflict-Both P node path d e p q)))
      | inr n ↦ rw (n, compare_with) (compare_with-All P node path d es r p a c)
    ]

compare_pairs-All :
    (P : Delta → Type 0) (node path : String) (ds : List Delta) (r : RecoveryResult)
    → All P ds
    → All (Both P) r.conflicts
    → All (Both P) (compare_pairs node path ds r).conflicts
unfolding compare_pairs
compare_pairs-All P node path [] r a c = c
compare_pairs-All P node path (d ∷ ds) r (p, a) c =
    compare_pairs-All P node path ds (compare_with node path d ds r) a
      (compare_with-All P node path d ds r p a c)

-- Every entry's deltas satisfy a property.
abbrev Entries : (Delta → Type 0) → Dict (List Delta) → Type 0
Entries P m = All (λ (entry : String × List Delta). All P entry.1) m

compare_files-All :
    (P : Delta → Type 0) (node : String) (m : Dict (List Delta)) (r : RecoveryResult)
    → Entries P m
    → All (Both P) r.conflicts
    → All (Both P) (compare_files node m r).conflicts
unfolding compare_files
compare_files-All P node [] r a c = c
compare_files-All P node ((path, ds) ∷ rest) r (p, a) c = elim (Bool-cases (leb (length ds) 1)) [
  | inl y ↦ rw (y, compare_files) (compare_files-All P node rest r a c)
  | inr n ↦
      rw (n, compare_files)
        (compare_files-All P node rest (compare_pairs node path ds r) a
          (compare_pairs-All P node path ds r p c))
]

Entries-put :
    (P : Delta → Type 0) (path : String) (xs : List Delta) (m : Dict (List Delta))
    → All P xs
    → Entries P m
    → Entries P (insert path xs m)
unfolding insert
Entries-put P path xs [] p a = (p, tt)
Entries-put P path xs ((k, ds) ∷ m) p (q, a) = elim (Bool-cases (str_eq k path)) [
  | inl y ↦ rw (y, insert) (p, a)
  | inr n ↦ rw (n, insert) (q, Entries-put P path xs m p a)
]

Entries-lookup :
    (P : Delta → Type 0) (path : String) (m : Dict (List Delta))
    → Entries P m
    → All P (elim (lookup path m) as (λ x. List Delta) [ none ↦ [] | some ds ↦ ds ])
unfolding lookup
Entries-lookup P path [] a = tt
Entries-lookup P path ((k, ds) ∷ m) (q, a) = elim (Bool-cases (str_eq k path)) [
  | inl y ↦ rw (y, lookup) q
  | inr n ↦ rw (n, lookup) (Entries-lookup P path m a)
]

Entries-insert :
    (P : Delta → Type 0) (path : String) (d : Delta) (m : Dict (List Delta))
    → P d
    → Entries P m
    → Entries P (
        insert path
          ((elim (lookup path m) as (λ x. List Delta) [ none ↦ [] | some ds ↦ ds ]) ++ d ∷ [])
          m)
Entries-insert P path d m p a =
    let before : List Delta = elim (lookup path m) [ none ↦ [] | some ds ↦ ds ] in
    Entries-put P path (before ++ d ∷ []) m (All-append P before d (Entries-lookup P path m a) p) a

replay_all-Entries :
    (P : Delta → Type 0) (ds : List Delta) (r : Replay)
    → All P ds
    → Entries P r.file_changes
    → Entries P (replay_all ds r).file_changes
unfolding replay_all replay_delta
replay_all-Entries P [] r a c = c
replay_all-Entries P (d ∷ ds) r (p, a) c =
    replay_all-Entries P ds (replay_delta d r) a (elim (Option-cases (get r.log d.id)) [
      | inr (known, e) ↦ rw (e, replay_delta) c
      | inl e ↦
          rw (e, replay_delta)
            (elim (Bool-cases
              (str_eq d.kind "file_change" && not (str_eq d.payload.file_path ""))) [
                | inl y ↦ rw y (Entries-insert P d.payload.file_path d r.file_changes p c)
                | inr n ↦ rw n c
              ])
    ])

insert_in_order-All :
    (P : Delta → Type 0) (before : Delta → Delta → Bool) (d : Delta) (ds : List Delta)
    → P d
    → All P ds
    → All P (insert_in_order before d ds)
unfolding insert_in_order
insert_in_order-All P before d [] p a = (p, tt)
insert_in_order-All P before d (e ∷ es) p (q, a) = elim (Bool-cases (before e d)) [
  | inl y ↦ rw y (q, insert_in_order-All P before d es p a)
  | inr n ↦ rw n (p, (q, a))
]

sort_in_order-All :
    (P : Delta → Type 0) (before : Delta → Delta → Bool) (ds : List Delta)
    → All P ds
    → All P (sort_in_order before ds)
unfolding sort_in_order
sort_in_order-All P before [] a = tt
sort_in_order-All P before (d ∷ ds) (p, a) =
    insert_in_order-All P before d (sort_in_order before ds) p (sort_in_order-All P before ds a)

All-In : (ds es : List Delta) → ((d : Delta) → In d ds → In d es) → All (λ d. In d es) ds
All-In [] es sub = tt
All-In (d ∷ ds) es sub = (sub d (inl refl), All-In ds es (λ e m. sub e (inr m)))

-- A recovery compares only deltas that peers replayed with each other: of every conflict that it finds,
-- both deltas were received, so a conflict with a delta that only this node has is never found.
pub finish_recovery_received :
    (rm rm' : RecoveryManager) (result : RecoveryResult)
    → finish_recovery rm ≡ ok (rm', result)
    → All (Both (λ d. In d (concat (values rm.pending_replays)))) result.conflicts
unfolding finish_recovery
finish_recovery_received rm rm' result h = elim (Bool-cases rm.in_recovery) [
  | inr n ↦ absurd (ground (arith, n, h))
  | inl y ↦
      let received = concat (values rm.pending_replays) in
      let P : Delta → Type 0 = λ d. In d received in
      let sorted = sort_in_order replays_before received in
      let r =
        replay_all sorted
          (record { log = rm.delta_log; file_changes = []; replayed = 0; merged = 0 }) in
      let start : RecoveryResult = record {
        deltas_replayed = r.replayed;
        deltas_merged = r.merged;
        conflicts_found = 0;
        conflicts_resolved = 0;
        conflicts_escalated = 0;
        peers_reconciled = length rm.pending_replays;
        conflicts = [];
      } in
      let same : result ≡ compare_files rm.node_id r.file_changes start = ground (arith, y, h) in
      subst (λ (k : RecoveryResult). All (Both P) k.conflicts) (sym same)
        (compare_files-All P rm.node_id r.file_changes start
          (replay_all-Entries P sorted
            (record { log = rm.delta_log; file_changes = []; replayed = 0; merged = 0 })
            (sort_in_order-All P replays_before received (All-In received received (λ d m. m))) tt)
          tt)
]
