-- ===== src/Network/Allocator/Examples.antt =====
-- Tests of the allocator of src/infrastructure/network/wireguard/ip_allocator.go, and its theorems
-- at concrete inputs.
use agent_collab.Common.{ℕ, ◌+◌, ◌-◌, ◌≤◌, ◌^◌, ◌≡◌, refl, none, some, [], ◌∷◌, ok, arith}
use agent_collab.Common.Dict.{lookup, insert, delete}
use agent_collab.Common.Table.{find, put, erase}
use agent_collab.Network.Allocator.{
  IpAllocator, new_ip_allocator, max_hosts, index_at, candidate, scan, find_next_available,
  allocate, allocate_specific, subnet_contains, release,
}
use agent_collab.Network.Allocator.Leases
use agent_collab.Network.Allocator.Leases.{IsAllocator}

program : Unit {0}
unfolding lookup insert delete find put erase new_ip_allocator max_hosts index_at candidate scan
    find_next_available allocate allocate_specific subnet_contains release
program = tt

-- 10.100.0.0.
abbrev network : ℕ
network = 174_325_760

abbrev empty : IpAllocator
empty = record {
  subnet = record { ip = network; ones = 24 };
  allocated = [];
  peer_to_ip = [];
  next_index = 1;
}

made : new_ip_allocator (some (record { ip = network + 77; ones = 24 })) ≡ ok empty
unfolding program
made = refl

-- One peer at 10.100.0.1.
abbrev one : IpAllocator
one = record {
  subnet = record { ip = network; ones = 24 };
  allocated = (network + 1, "p") ∷ [];
  peer_to_ip = ("p", record { ip = network + 1; ones = 24 }) ∷ [];
  next_index = 2;
}

first_address : allocate empty "p" ≡ ok (one, record { ip = network + 1; ones = 24 })
unfolding program
first_address = refl

-- A prefix of 32 bits leaves no host, and yet 2 ^ 32 - 1 rounds.
wraps : max_hosts 32 ≡ 2 ^ 32 - 1
unfolding program
wraps = refl

empty-IsAllocator : IsAllocator empty
unfolding program
empty-IsAllocator = record {
  hosts = omega arith;
  small = omega arith;
  next = (omega arith, omega arith);
  held = λ p c e. absurd (ground arith);
  leased = λ ip p e. absurd (ground arith);
}

allocate-IsAllocator_example :
    IsAllocator one
    × (find (network + 1) empty.allocated ≡ none)
    × (find (network + 1) one.allocated ≡ some "p")
    × ((idx : ℕ) × (1 ≤ idx) × (idx ≤ max_hosts 24) × (network + 1 ≡ candidate empty idx))
unfolding program
allocate-IsAllocator_example =
    Leases.allocate-IsAllocator empty one "p" (record { ip = network + 1; ones = 24 })
      empty-IsAllocator refl refl

abbrev emptied : IpAllocator
emptied = record one { allocated = []; peer_to_ip = [] }

-- The peer at 10.100.0.1 asks for 10.100.0.9, and leaves.
abbrev moved : IpAllocator
moved = record one {
  allocated = (network + 1, "p") ∷ (network + 9, "p") ∷ [];
  peer_to_ip = ("p", record { ip = network + 9; ones = 24 }) ∷ [];
}

abbrev leaked : IpAllocator
leaked = record one { peer_to_ip = [] }
