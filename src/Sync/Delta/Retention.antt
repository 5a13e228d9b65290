-- ===== src/Sync/Delta/Retention.antt =====
-- Which deltas the log of src/domain/ctxsync/delta.go keeps.
use agent_collab.Common.{
  ℕ, ◌+◌, ◌-◌, ◌≤◌, ◌≡◌, ◌≢◌, refl, sym, ◌∙◌, zero, suc, subst, ◌⊎◌, inl, inr, none, some, List, [],
  ◌∷◌, ◌++◌, In, arith, ltb, length, drop, length-append, Bool-cases, Option-cases, eq_refl,
}
use agent_collab.Sync.Delta.{Delta, DeltaLog, get, append, evict_oldest}
use agent_collab.Sync.Delta.Log.{IsLog, append-IsLog, find}

-- A delta that the log has is not appended again.
pub append_known : (d x : Delta) (dl : DeltaLog) → get dl d.id ≡ some x → append d dl ≡ dl
unfolding append
append_known d x dl e = rw (e, append) refl

evicted :
    (dl : DeltaLog) (ds : List Delta) → dl.deltas ≡ ds → (evict_oldest dl ds).deltas ≡ drop 1 ds
unfolding evict_oldest
evicted dl [] e = e
evicted dl (d ∷ ds) e = refl

-- A delta that a well-formed log does not have is appended at the end, and the log then holds as
-- many of its last deltas as its limit allows.
pub append_fresh :
    (d : Delta) (dl : DeltaLog)
    → IsLog dl
    → get dl d.id ≡ none
    → (append d dl).deltas ≡ drop (length dl.deltas + 1 - dl.max_size) (dl.deltas ++ d ∷ [])
unfolding append
append_fresh d dl v e =
    let count = length-append dl.deltas (d ∷ []) in
    elim (Bool-cases (ltb dl.max_size (length (dl.deltas ++ d ∷ [])))) [
      | inl full ↦
          let one : length dl.deltas + 1 - dl.max_size ≡ 1 =
            ground (arith, full, count, v.bounded) in
          rw one (rw (e, append) (rw full (evicted _ (dl.deltas ++ d ∷ []) refl)))
      | inr fits ↦
          let none_over : length dl.deltas + 1 - dl.max_size ≡ 0 = ground (arith, fits, count) in
          rw none_over (rw (e, append) (rw fits refl))
    ]

In-append_one : (x d : Delta) (ds : List Delta) → In x (ds ++ d ∷ []) → In x ds ⊎ (x ≡ d)
In-append_one x d [] m = ground arith
In-append_one x d (y ∷ ds) m = ground (arith, In-append_one x d ds)

In-drop : (x : Delta) (n : ℕ) (ds : List Delta) → In x (drop n ds) → In x ds
In-drop x zero ds m = m
In-drop x (suc n) [] m = m
In-drop x (suc n) (d ∷ ds) m = inr (In-drop x n ds m)

-- A delta of the log after an append was there before or is the new one.
pub append-In :
    (x d : Delta) (dl : DeltaLog) → IsLog dl → In x (append d dl).deltas → In x dl.deltas ⊎ (x ≡ d)
append-In x d dl v m = elim (Option-cases (get dl d.id)) [
  | inr (y, e) ↦ inl (subst (λ (l : DeltaLog). In x l.deltas) (append_known d y dl e) m)
  | inl e ↦
      In-append_one x d dl.deltas
        (In-drop x _ (dl.deltas ++ d ∷ []) (subst (In x) (append_fresh d dl v e) m))
]

find_last :
    (d : Delta) (n : ℕ) (ds : List Delta) → n ≤ length ds → find d.id (drop n (ds ++ d ∷ [])) ≢ none
unfolding find
find_last d zero [] h = λ e. ground (arith, e, eq_refl d.id)
find_last d (suc n) [] h = absurd (omega arith)
find_last d zero (x ∷ ds) h = λ e. find_last d 0 ds (omega arith) (ground arith)
find_last d (suc n) (x ∷ ds) h = find_last d n ds (omega arith)

-- After an append to a well-formed log, the log has the delta's identifier.
pub get-append : (d : Delta) (dl : DeltaLog) → IsLog dl → get (append d dl) d.id ≢ none
get-append d dl v = elim (Option-cases (get dl d.id)) [
  | inr (y, e) ↦
      subst (λ (l : DeltaLog). get l d.id ≢ none) (sym (append_known d y dl e))
        (λ n. ground (arith, e, n))
  | inl e ↦ λ n.
      find_last d (length dl.deltas + 1 - dl.max_size) dl.deltas (omega (arith, v.room, v.bounded))
        (subst (λ l. find d.id l ≡ none) (append_fresh d dl v e)
          (sym ((append-IsLog d dl v).indexed.ids d.id) ∙ n))
]
