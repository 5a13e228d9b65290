-- ===== src/Sync/Clock/Order.antt =====
-- The order of the clocks of src/domain/ctxsync/vector_clock.go.
use agent_collab.Common.{
  ◌≤◌, String, ◌≡◌, ◌↔◌, refl, sym, subst, ◌⊎◌, inl, inr, Bool, true, false, not, ◌&&◌, eq_iff,
  List, [], ◌∷◌, ◌++◌, arith, In,
}
use agent_collab.Common.Dict.{lookup, keys}
use agent_collab.Sync.Clock.{
  VectorClock, time_of, flags, compare, happens_before, happens_after, is_concurrent,
}

-- The pointwise order of clocks.
abbrev pub Leq : VectorClock → VectorClock → Type 0
Leq vc other = (node : String) → time_of vc node ≤ time_of other node

-- A flag is set exactly by some node.
flags_low :
    (vc other : VectorClock) (nodes : List String) (n : String)
    → In n nodes
    → (flags vc other nodes).0 ≡ false
    → time_of other n ≤ time_of vc n
unfolding flags
flags_low vc other [] n m e = elim m [ ]
flags_low vc other (node ∷ nodes) n m e = elim m [
  | inl p ↦ subst (λ k. time_of other k ≤ time_of vc k) (sym p) (ground arith)
  | inr q ↦ ground (arith, flags_low vc other nodes n q)
]

flags_high :
    (vc other : VectorClock) (nodes : List String) (n : String)
    → In n nodes
    → (flags vc other nodes).1 ≡ false
    → time_of vc n ≤ time_of other n
unfolding flags
flags_high vc other [] n m e = elim m [ ]
flags_high vc other (node ∷ nodes) n m e = elim m [
  | inl p ↦ subst (λ k. time_of vc k ≤ time_of other k) (sym p) (ground arith)
  | inr q ↦ ground (arith, flags_high vc other nodes n q)
]

flags_less :
    (vc other : VectorClock) (nodes : List String) → Leq other vc → (flags vc other nodes).0 ≡ false
unfolding flags
flags_less vc other [] h = refl
flags_less vc other (node ∷ nodes) h = ground (arith, h node, flags_less vc other nodes h)

flags_greater :
    (vc other : VectorClock) (nodes : List String) → Leq vc other → (flags vc other nodes).1 ≡ false
unfolding flags
flags_greater vc other [] h = refl
flags_greater vc other (node ∷ nodes) h = ground (arith, h node, flags_greater vc other nodes h)

-- A node outside the two clocks is at 0 in both.
absent : (vc : VectorClock) (n : String) → In n (keys vc) ⊎ (time_of vc n ≡ 0)
unfolding time_of lookup
absent [] n = inr refl
absent ((k, t) ∷ vc) n = ground (arith, eq_iff k n, absent vc n)

In-left : (n : String) (xs ys : List String) → In n xs → In n (xs ++ ys)
In-left n [] ys m = elim m [ ]
In-left n (x ∷ xs) ys m = ground (arith, In-left n xs ys)

In-right : (n : String) (xs ys : List String) → In n ys → In n (xs ++ ys)
In-right n [] ys m = m
In-right n (x ∷ xs) ys m = inr (In-right n xs ys m)

-- The nodes of the two clocks are enough.
nodes_enough :
    (vc other : VectorClock) (n : String)
    → (In n (keys vc ++ keys other) → time_of vc n ≤ time_of other n)
    → time_of vc n ≤ time_of other n
nodes_enough vc other n h = elim (absent vc n) [
  | inl m ↦ h (In-left n (keys vc) (keys other) m)
  | inr z ↦ omega (arith, z)
]

nodes_enough_high :
    (vc other : VectorClock) (n : String)
    → (In n (keys vc ++ keys other) → time_of other n ≤ time_of vc n)
    → time_of other n ≤ time_of vc n
nodes_enough_high vc other n h = elim (absent other n) [
  | inl m ↦ h (In-right n (keys vc) (keys other) m)
  | inr z ↦ omega (arith, z)
]

flags-Leq :
    (vc other : VectorClock)
    → (((flags vc other (keys vc ++ keys other)).1 ≡ false) ↔ Leq vc other)
      × (((flags vc other (keys vc ++ keys other)).0 ≡ false) ↔ Leq other vc)
flags-Leq vc other =
    let nodes = keys vc ++ keys other in
    (
      (
        (λ e n. nodes_enough vc other n (λ m. flags_high vc other nodes n m e)),
        flags_greater vc other nodes,
      ),
      (
        (λ e n. nodes_enough_high vc other n (λ m. flags_low vc other nodes n m e)),
        flags_less vc other nodes,
      ),
    )

both_flags :
    {P Q : Type 0} (less greater : Bool)
    → ((greater ≡ false) ↔ P)
    → ((less ≡ false) ↔ Q)
    → ((less && not greater) ≡ true) ↔ (P × (¬ Q))
both_flags true true p q = ground (arith, p, q)
both_flags true false p q = ((λ _. (p.0 refl, λ x. absurd (ground (arith, q.1 x)))), λ _. refl)
both_flags false greater p q = ((λ e. absurd (ground arith)), λ h. absurd (h.1 (q.0 refl)))

same_flags :
    {P Q : Type 0} (less greater : Bool)
    → ((greater ≡ false) ↔ P)
    → ((less ≡ false) ↔ Q)
    → (less ≡ greater) ↔ (P ↔ Q)
same_flags true true p q = (
  (λ _. ((λ x. absurd (ground (arith, p.1 x))), (λ y. absurd (ground (arith, q.1 y))))),
  λ _. refl,
)
same_flags true false p q =
    ((λ e. absurd (ground arith)), λ h. absurd (ground (arith, q.1 (h.0 (p.0 refl)))))
same_flags false true p q =
    ((λ e. absurd (ground arith)), λ h. absurd (ground (arith, p.1 (h.1 (q.0 refl)))))
same_flags false false p q = ((λ _. ((λ x. q.0 refl), (λ y. p.0 refl))), λ _. refl)

-- A clock happens before another exactly if it is below it in the pointwise order and not above it.
pub happens_before_iff :
    (vc other : VectorClock) → (happens_before vc other ≡ true) ↔ (Leq vc other × (¬ Leq other vc))
unfolding happens_before compare
happens_before_iff vc other =
    let nodes = keys vc ++ keys other in
    let (less, greater) = flags vc other nodes in
    let (upper, lower) = flags-Leq vc other in
    let (only, back) = both_flags less greater upper lower in
    ((λ h. only (ground arith)), (λ h. ground (arith, back h)))

-- Two clocks are concurrent exactly if both or neither is below the other: a clock is concurrent with
-- itself.
pub is_concurrent_iff :
    (vc other : VectorClock) → (is_concurrent vc other ≡ true) ↔ (Leq vc other ↔ Leq other vc)
unfolding is_concurrent compare
is_concurrent_iff vc other =
    let nodes = keys vc ++ keys other in
    let (less, greater) = flags vc other nodes in
    let (upper, lower) = flags-Leq vc other in
    let (only, back) = same_flags less greater upper lower in
    ((λ h. only (ground arith)), (λ h. ground (arith, back h)))

false_iff : (x y : Bool) → (x ≡ false) ↔ (y ≡ false) → x ≡ y
false_iff x y h = ground (arith, h.0, h.1)

pub happens_after-before :
    (vc other : VectorClock) → happens_after vc other ≡ happens_before other vc
unfolding happens_after happens_before compare
happens_after-before vc other =
    let (upper, lower) = flags-Leq vc other in
    let (upper', lower') = flags-Leq other vc in
    let swap =
      false_iff (flags vc other (keys vc ++ keys other)).0
        (flags other vc (keys other ++ keys vc)).1
        ((λ e. upper'.1 (lower.0 e)), (λ e. lower.1 (upper'.0 e))) in
    let back =
      false_iff (flags vc other (keys vc ++ keys other)).1
        (flags other vc (keys other ++ keys vc)).0
        ((λ e. lower'.1 (upper.0 e)), (λ e. upper.1 (lower'.0 e))) in
    ground (arith, swap, back)
