-- ===== src/Sync/Clock/Merge.antt =====
-- What `Merge` and `Increment` of src/domain/ctxsync/vector_clock.go do to the order of clocks.
use agent_collab.Common.{
  ℕ, ◌+◌, ◌%◌, ◌^◌, ◌≤◌, ◌<◌, String, ◌≡◌, ◌↔◌, true, if◌then◌else◌, ltb, str_eq, eq_iff, eq_refl,
  [], ◌∷◌, arith,
}
use agent_collab.Common.Dict.{lookup, IsDict, lookup-insert}
use agent_collab.Sync.Clock.{VectorClock, time_of, increment, merge_entry, merge, happens_before}
use agent_collab.Sync.Clock.Order.{Leq, happens_before_iff}

later : ℕ → ℕ → ℕ
later a b = if ltb a b then b else a

time_of-merge_entry :
    (vc : VectorClock) (node n : String) (t : ℕ)
    → time_of (merge_entry vc node t) n
      ≡ (if str_eq node n then later (time_of vc n) t else time_of vc n)
unfolding time_of merge_entry later
time_of-merge_entry vc node n t = ground (arith, lookup-insert node n t vc, eq_iff node n)

-- Merging gives each node the later of its two times.
time_of-merge :
    (vc other : VectorClock) (n : String)
    → IsDict other
    → time_of (merge vc other) n ≡ later (time_of vc n) (time_of other n)
unfolding time_of merge lookup later
time_of-merge vc [] n d = ground arith
time_of-merge vc ((node, t) ∷ other) n d =
    let rest = time_of-merge (merge_entry vc node t) other n d.1 in
    ground (arith, rest, time_of-merge_entry vc node n t, eq_iff node n, d.0)

-- Where the other clock binds each node once, merging it gives the least clock above both: the merged
-- clock is below a clock exactly if both are.
pub merge-Leq :
    (vc other bound : VectorClock)
    → IsDict other
    → Leq (merge vc other) bound ↔ (Leq vc bound × Leq other bound)
unfolding later
merge-Leq vc other bound d = (
  (λ h. ((λ n. omega (arith, h n, above n)), (λ n. omega (arith, h n, above n)))),
  (λ (p, q) n. ground (arith, p n, q n, time_of-merge vc other n d)),
)
  where
    above :
        (n : String)
        → (time_of vc n ≤ time_of (merge vc other) n)
          × (time_of other n ≤ time_of (merge vc other) n)
    above n = ground (arith, time_of-merge vc other n d)

time_of-increment :
    (node n : String) (vc : VectorClock)
    → time_of (increment node vc) n
      ≡ (if str_eq node n then (time_of vc node + 1) % 2 ^ 64 else time_of vc n)
unfolding time_of increment
time_of-increment node n vc =
    ground (arith, lookup-insert node n ((time_of vc node + 1) % 2 ^ 64) vc)

-- As long as the node's counter does not wrap around, its increment happens after every clock that
-- was below it.
pub increment-after :
    (node : String) (vc past : VectorClock)
    → time_of vc node + 1 < 2 ^ 64
    → Leq past vc
    → happens_before past (increment node vc) ≡ true
increment-after node vc past small below = (happens_before_iff past (increment node vc)).1 (
  (λ n. ground (arith, time_of-increment node n vc, below n, eq_iff node n, same n)),
  (λ h. omega (arith, h node, below node, mine)),
)
  where
    mine : time_of (increment node vc) node ≡ time_of vc node + 1
    mine = ground (arith, time_of-increment node node vc, eq_refl node)

    same : (n : String) → node ≡ n → time_of vc node ≡ time_of vc n
    same n e = cc e

pub increment-Leq :
    (node : String) (vc : VectorClock) → time_of vc node + 1 < 2 ^ 64 → Leq vc (increment node vc)
increment-Leq node vc small =
    ((happens_before_iff vc (increment node vc)).0
      (increment-after node vc vc small (λ n. omega arith))).0
