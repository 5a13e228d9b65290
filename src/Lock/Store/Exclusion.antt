-- ===== src/Lock/Store/Exclusion.antt =====
-- Mutual exclusion over src/domain/lock/store.go: no two live locks of the store overlap.
use agent_collab.Common.{
  ℕ, ◌≤◌, String, ◌≡◌, refl, ap, sym, ◌∙◌, ◌⊎◌, inl, inr, true, false, some, [], ok, arith, subst,
  text_cases,
}
use agent_collab.Common.Dict.{lookup, insert, IsDict, lookup-insert, lookup-delete}
use agent_collab.Lock.Target.{SemanticTarget, overlaps}
use agent_collab.Lock.Semantic.{SemanticLock, is_expired}
use agent_collab.Lock.Store.{LockStore, write, alloc, add, remove, find_conflicts, cleanup_expired}
use agent_collab.Lock.Store.Valid.{IsStore}
use agent_collab.Lock.Store.Laws.{
  overlaps_symm, add-locks, remove-locks, find_conflicts-nil, cleanup_entries-heap,
  cleanup_expired-lookup,
}

-- The binding of an identifier is a lock that has not run out.
pub record Live (s : LockStore) (now : ℕ) (i : String) (r : ℕ) : Type 0 where
  pub bound : lookup i s.locks ≡ some r
  pub fresh : is_expired (s.heap r) now ≡ false

abbrev pub IsExclusive : LockStore → ℕ → Type 0
IsExclusive s now =
    (i j : String) (r q : ℕ)
    → Live s now i r
    → Live s now j q
    → overlaps (s.heap r).target (s.heap q).target ≡ true
    → i ≡ j

is_expired_mono :
    (l : SemanticLock) (now later : ℕ)
    → now ≤ later
    → is_expired l later ≡ false
    → is_expired l now ≡ false
unfolding is_expired
is_expired_mono l now later h e = ground arith

-- A store that has fewer live locks, with the same targets, stays exclusive.
pub IsExclusive-shrink :
    (s s' : LockStore) (now now' : ℕ)
    → ((i : String) (r : ℕ)
        → Live s' now' i r
        → Live s now i r × ((s'.heap r).target ≡ (s.heap r).target))
    → IsExclusive s now
    → IsExclusive s' now'
IsExclusive-shrink s s' now now' back ex i j r q a b o = ex i j r q (back i r a).0 (back j q b).0 (
    subst (λ t. overlaps t (s.heap q).target ≡ true) (back i r a).1
      (subst (λ u. overlaps (s'.heap r).target u ≡ true) (back j q b).1 o))

pub IsExclusive-later :
    (s : LockStore) (now later : ℕ) → now ≤ later → IsExclusive s now → IsExclusive s later
IsExclusive-later s now later h = IsExclusive-shrink s s now later λ i r a.
    (record { bound = a.bound; fresh = is_expired_mono (s.heap r) now later h a.fresh }, refl)

-- What is live after `add` is the new lock, or was live before.
pub add-Live :
    (s : LockStore) (r now : ℕ) (s' : LockStore) (i : String) (p : ℕ)
    → add s r now ≡ ok s'
    → Live s' now i p
    → ((i ≡ (s.heap r).id) × (p ≡ r)) ⊎ Live s now i p
add-Live s r now s' i p added a = elim (text_cases (s.heap r).id i) [
  | inl (same, e) ↦ inl (sym same, ground (arith, l, lookup-insert (s.heap r).id i r s.locks))
  | inr (other, e) ↦ inr (record {
    bound = ground (arith, l, lookup-insert (s.heap r).id i r s.locks);
    fresh = subst (λ h. is_expired (h p) now ≡ false) l.0 a.fresh;
  })
]
  where
    l : (s'.heap ≡ s.heap) × (s'.locks ≡ insert (s.heap r).id r s.locks)
    l = let (h, _, m, _, _) = add-locks s r now s' added in (h, m)

-- A target that no live lock overlaps.
abbrev pub IsClear : LockStore → SemanticTarget → ℕ → Type 0
IsClear s t now = (i : String) (p : ℕ) → Live s now i p → overlaps (s.heap p).target t ≡ false

-- What `find_conflicts` decides.
pub find_conflicts-IsClear :
    (s : LockStore) (t : SemanticTarget) (now : ℕ) → find_conflicts s t now ≡ [] → IsClear s t now
find_conflicts-IsClear s t now e i p a = find_conflicts-nil s t now i p e a.bound a.fresh

-- A lock whose target overlaps no live lock may be added.
pub add-IsExclusive :
    (s : LockStore) (r now : ℕ) (s' : LockStore)
    → IsClear s (s.heap r).target now
    → add s r now ≡ ok s'
    → IsExclusive s now
    → IsExclusive s' now
add-IsExclusive s r now s' clear added ex i j p q a b o =
    cases (add-Live s r now s' i p added a) (add-Live s r now s' j q added b)
  where
    o' : overlaps (s.heap p).target (s.heap q).target ≡ true
    o' = subst (λ k. overlaps (k p).target (k q).target ≡ true) (add-locks s r now s' added).0 o

    cases :
        ((i ≡ (s.heap r).id) × (p ≡ r)) ⊎ Live s now i p
        → ((j ≡ (s.heap r).id) × (q ≡ r)) ⊎ Live s now j q
        → i ≡ j
    cases (inl (e, _)) (inl (f, _)) = e ∙ sym f
    cases (inl (_, e)) (inr y) =
        absurd (ground (arith, o', clear j q y, overlaps_symm (s.heap r).target (s.heap q).target))
    cases (inr x) (inl (_, f)) = absurd (ground (arith, o', clear i p x))
    cases (inr x) (inr y) = ex i j p q x y o'

-- Removal and the sweep leave fewer locks.
pub remove-IsExclusive :
    (s : LockStore) (id : String) (now : ℕ) (s' : LockStore)
    → remove s id now ≡ ok s'
    → IsExclusive s now
    → IsExclusive s' now
remove-IsExclusive s id now s' h =
    let (e, _, m) = remove-locks s id now s' h in
    IsExclusive-shrink s s' now now λ i r a. (
      record {
        bound = ground (arith, m, a.bound, lookup-delete id i s.locks);
        fresh = subst (λ k. is_expired (k r) now ≡ false) e a.fresh;
      },
      ap (λ (k : ℕ → SemanticLock). (k r).target) e,
    )

pub cleanup_expired-heap : (s : LockStore) (now : ℕ) → (cleanup_expired s now).heap ≡ s.heap
unfolding cleanup_expired
cleanup_expired-heap s now = cleanup_entries-heap now s.locks s

pub cleanup_expired-IsExclusive :
    (s : LockStore) (now : ℕ)
    → IsDict s.locks
    → IsExclusive s now
    → IsExclusive (cleanup_expired s now) now
cleanup_expired-IsExclusive s now d =
    let e = cleanup_expired-heap s now in
    IsExclusive-shrink s (cleanup_expired s now) now now λ i r a. (
      record {
        bound = ground (arith, a.bound, cleanup_expired-lookup s now i d);
        fresh = subst (λ k. is_expired (k r) now ≡ false) e a.fresh;
      },
      ap (λ (k : ℕ → SemanticLock). (k r).target) e,
    )

-- A write to a live lock that keeps its target, as a renewal makes.
pub write-IsExclusive :
    (s : LockStore) (now : ℕ) (id : String) (r : ℕ) (l : SemanticLock)
    → Live s now id r
    → l.target ≡ (s.heap r).target
    → IsExclusive s now
    → IsExclusive (record s { heap = write s.heap r l }) now
write-IsExclusive s now id r l a t =
    IsExclusive-shrink s (record s { heap = write s.heap r l }) now now λ i p b. ground arith

-- A fresh cell changes no lock of the store.
alloc-Live :
    (s : LockStore) (l : SemanticLock) (now : ℕ) (i : String) (p : ℕ)
    → IsStore s
    → Live (alloc l s).0 now i p
    → Live s now i p × (((alloc l s).0.heap p).target ≡ (s.heap p).target)
unfolding alloc
alloc-Live s l now i p v b = ground (arith, v.allocated i p b.bound, b.fresh)

pub alloc-IsExclusive :
    (s : LockStore) (l : SemanticLock) (now : ℕ)
    → IsStore s
    → IsExclusive s now
    → IsExclusive (alloc l s).0 now
alloc-IsExclusive s l now v =
    IsExclusive-shrink s (alloc l s).0 now now λ i p b. alloc-Live s l now i p v b

pub alloc-IsClear :
    (s : LockStore) (l : SemanticLock) (t : SemanticTarget) (now : ℕ)
    → IsStore s
    → IsClear s t now
    → IsClear (alloc l s).0 t now
alloc-IsClear s l t now v clear i p b =
    let (live, same) = alloc-Live s l now i p v b in
    subst (λ u. overlaps u t ≡ false) (sym same) (clear i p live)
