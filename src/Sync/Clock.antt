-- ===== src/Sync/Clock.antt =====
-- src/domain/ctxsync/vector_clock.go. A clock is a value here, so `Clone`, `ToMap` and `FromMap`
-- return their argument.
pub mod Order
pub mod Merge
use agent_collab.Common.{
  ℕ, ◌+◌, ◌%◌, ◌^◌, String, Bool, true, false, not, ◌&&◌, if◌then◌else◌, ltb, ◌==◌, Option, none,
  some, List, [], ◌∷◌, ◌++◌, ℤ, pos, negsuc,
}
use agent_collab.Common.Dict.{Dict, lookup, insert, keys}

abbrev pub VectorClock : Type 0
VectorClock = Dict ℕ

abbrev pub new_vector_clock : VectorClock
new_vector_clock = []

-- `Get`: a node that the clock does not know is at 0.
unfoldable pub time_of : VectorClock → String → ℕ
time_of vc node = elim (lookup node vc) [ none ↦ 0 | some t ↦ t ]

unfoldable pub increment : String → VectorClock → VectorClock
unfolding time_of
increment node vc = insert node ((time_of vc node + 1) % 2 ^ 64) vc

-- The body of the loop of `Merge`.
unfoldable pub merge_entry : VectorClock → String → ℕ → VectorClock
unfolding time_of
merge_entry vc node t = if ltb (time_of vc node) t then insert node t vc else vc

unfoldable pub merge : VectorClock → VectorClock → VectorClock
unfolding merge_entry
merge vc [] = vc
merge vc ((node, t) ∷ other) = merge (merge_entry vc node t) other

-- The flags `less` and `greater` after the loop over some nodes. A node that comes twice sets the
-- flags it has set before.
unfoldable pub flags : VectorClock → VectorClock → List String → Bool × Bool
unfolding time_of
flags vc other [] = (false, false)
flags vc other (node ∷ nodes) =
    let (less, greater) = flags vc other nodes in
    if ltb (time_of vc node) (time_of other node)
    then (true, greater)
    else if ltb (time_of other node) (time_of vc node)
    then (less, true)
    else (less, greater)

unfoldable pub compare : VectorClock → VectorClock → ℤ
unfolding flags
compare vc other =
    let (less, greater) = flags vc other (keys vc ++ keys other) in
    if less && not greater then negsuc 0 else if greater && not less then pos 1 else pos 0

abbrev same_ℤ : ℤ → ℤ → Bool
same_ℤ (pos m) (pos n) = m == n
same_ℤ (negsuc m) (negsuc n) = m == n
same_ℤ _ _ = false

unfoldable pub happens_before : VectorClock → VectorClock → Bool
unfolding compare
happens_before vc other = same_ℤ (compare vc other) (negsuc 0)

unfoldable pub happens_after : VectorClock → VectorClock → Bool
unfolding compare
happens_after vc other = same_ℤ (compare vc other) (pos 1)

unfoldable pub is_concurrent : VectorClock → VectorClock → Bool
unfolding compare
is_concurrent vc other = same_ℤ (compare vc other) (pos 0)
