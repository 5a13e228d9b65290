-- ===== src/Network/Allocator/Search.antt =====
-- Which address `findNextAvailable` of src/infrastructure/network/wireguard/ip_allocator.go finds.
use agent_collab.Common.{
  ℕ, zero, suc, ◌+◌, ◌-◌, ◌%◌, ◌^◌, ◌≤◌, ◌<◌, ◌≡◌, ◌≢◌, sym, subst, ◌⊎◌, inl, inr, none, some,
  arith, Option-cases, Bool-cases, ltb→lt, if◌then◌else◌, ltb,
}
use native.Mathlib.Nat.{add-mod_right, mod-eq_of_lt, pow-le-pow_right}
use agent_collab.Common.Table.{find}
use agent_collab.Network.Allocator.{IpAllocator, max_hosts, index_at, candidate, scan}

-- What the loop returns is a free index of a round, and what it passes over is taken.
pub scan-some :
    (a : IpAllocator) (hosts rounds i idx : ℕ)
    → scan a hosts rounds i ≡ some idx
    → (find (candidate a idx) a.allocated ≡ none)
      × ((k : ℕ) × (idx ≡ index_at hosts a.next_index k))
unfolding scan
scan-some a hosts zero i idx e = absurd (ground arith)
scan-some a hosts (suc rounds) i idx e =
    elim (Option-cases (find (candidate a (index_at hosts a.next_index i)) a.allocated)) [
      | inl free ↦
          let same : idx ≡ index_at hosts a.next_index i = ground arith in
          (subst (λ k. find (candidate a k) a.allocated ≡ none) (sym same) free, (i, same))
      | inr (p, taken) ↦ scan-some a hosts rounds (i + 1) idx (ground arith)
    ]

pub scan-none :
    (a : IpAllocator) (hosts rounds i k : ℕ)
    → scan a hosts rounds i ≡ none
    → i ≤ k
    → k < i + rounds
    → find (candidate a (index_at hosts a.next_index k)) a.allocated ≢ none
unfolding scan
scan-none a hosts zero i k e low high = absurd (omega arith)
scan-none a hosts (suc rounds) i k e low high = elim (split i k low) [
  | inl here ↦ λ free. ground (arith, here, free)
  | inr later ↦ scan-none a hosts rounds (i + 1) k (ground arith) (omega arith) (omega arith)
]
  where
    split : (m n : ℕ) → m ≤ n → (m ≡ n) ⊎ (m + 1 ≤ n)
    split m n h = ground arith

pub index_at-bounds :
    (hosts next i : ℕ) → 0 < hosts → (1 ≤ index_at hosts next i) × (index_at hosts next i ≤ hosts)
unfolding index_at
index_at-bounds hosts next i h = grind arith

-- The round that visits an index.
pub round_of : ℕ → ℕ → ℕ → ℕ
round_of hosts next idx = if ltb idx next then idx + hosts - next else idx - next

pub index_at-round_of :
    (hosts next idx : ℕ)
    → hosts < 2 ^ 31
    → 1 ≤ next
    → next ≤ hosts
    → 1 ≤ idx
    → idx ≤ hosts
    → (index_at hosts next (round_of hosts next idx) ≡ idx) × (round_of hosts next idx < hosts)
unfolding index_at round_of
index_at-round_of hosts next idx small n1 n2 i1 i2 = elim (Bool-cases (ltb idx next)) [
  | inl below ↦
      let k = idx + hosts - next in
      let word : (next + k + 2 ^ 32 - 1) % 2 ^ 32 ≡ idx - 1 + hosts =
        omega (arith, ltb→lt idx next below) in
      rw below (
        rw word (
            omega (
              arith,
              add-mod_right (idx - 1) hosts,
              mod-eq_of_lt (less (idx - 1) hosts (omega arith)),
            )),
        omega (arith, ltb→lt idx next below),
      )
  | inr above ↦
      let word : (next + (idx - next) + 2 ^ 32 - 1) % 2 ^ 32 ≡ idx - 1 = ground (arith, above) in
      rw above
        (rw word (omega (arith, mod-eq_of_lt (less (idx - 1) hosts (omega arith)))), omega arith)
]
  where
    less : (m n : ℕ) → m + 1 ≤ n → m < n
    less m n h = omega arith

-- A prefix of 1 to 30 bits leaves hosts, and fewer than half of the words.
pub max_hosts-small :
    (ones : ℕ)
    → 1 ≤ ones
    → ones ≤ 30
    → (0 < max_hosts ones) × (max_hosts ones < 2 ^ 31) × (max_hosts ones + 2 ≡ 2 ^ (32 - ones))
unfolding max_hosts
max_hosts-small ones low high =
    let k = 32 - ones in
    omega (
      arith,
      pow-le-pow_right {n = 2} (omega arith) {i = 2} {j = k} (omega arith),
      pow-le-pow_right {n = 2} (omega arith) {i = k} {j = 31} (omega arith),
    )
