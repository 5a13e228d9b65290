-- ===== src/Network/Allocator.antt =====
-- src/infrastructure/network/wireguard/ip_allocator.go. Addresses of IPv4 are numbers below 2 ^ 32,
-- as `binary.BigEndian` reads them; the parsing and printing of them is the standard library's.
pub mod Search
pub mod Leases
mod Examples
use agent_collab.Common.{
  ℕ, zero, suc, ◌+◌, ◌-◌, ◌*◌, ◌/◌, ◌%◌, ◌^◌, String, Bool, not, ◌&&◌, if◌then◌else◌, ltb, leb,
  ◌==◌, str_eq, Option, none, some, List, [], ◌∷◌, length, Result, ok, err,
}
use agent_collab.Common.Dict.{Dict, lookup, insert, delete}
use agent_collab.Common.Table.{Table, find, put, erase}

pub data Error : Type 0 where
  subnet_exhausted ip_already_allocated ip_not_allocated : Error
  invalid_subnet invalid_local_ip outside_subnet : Error

-- An address with the length of its network prefix.
pub record Cidr : Type 0 where
  pub ip : ℕ
  pub ones : ℕ

-- `subnet` is the network's own address.
pub record IpAllocator : Type 0 where
  pub subnet : Cidr
  pub allocated : Table String
  pub peer_to_ip : Dict Cidr
  pub next_index : ℕ

-- `net.ParseCIDR` of the argument: the network has its host bits cleared.
unfoldable pub new_ip_allocator : Option Cidr → Result Error IpAllocator
new_ip_allocator none = err invalid_subnet
new_ip_allocator (some c) = ok (record {
  subnet = record { ip = c.ip / 2 ^ (32 - c.ones) * 2 ^ (32 - c.ones); ones = c.ones };
  allocated = [];
  peer_to_ip = [];
  next_index = 1;
})

-- `uint32(1<<(bits-ones)) - 2`, which wraps around.
unfoldable pub max_hosts : ℕ → ℕ
max_hosts ones = (2 ^ (32 - ones) % 2 ^ 32 + 2 ^ 32 - 2) % 2 ^ 32

-- `(a.nextIndex+i-1)%maxHosts + 1`, in 32 bits.
unfoldable pub index_at : ℕ → ℕ → ℕ → ℕ
index_at hosts next i = (next + i + 2 ^ 32 - 1) % 2 ^ 32 % hosts + 1

unfoldable pub candidate : IpAllocator → ℕ → ℕ
candidate a idx = (a.subnet.ip + idx) % 2 ^ 32

-- The loop of `findNextAvailable`, with the rounds that are left.
unfoldable pub scan : IpAllocator → ℕ → ℕ → ℕ → Option ℕ
unfolding index_at candidate
scan a hosts zero i = none
scan a hosts (suc rounds) i =
    let rest = scan a hosts rounds (i + 1) in
    elim (find (candidate a (index_at hosts a.next_index i)) a.allocated) [
      | none ↦ some (index_at hosts a.next_index i)
      | some _ ↦ rest
    ]

-- The address and the index after it.
unfoldable pub find_next_available : IpAllocator → Result Error (ℕ × ℕ)
unfolding scan max_hosts
find_next_available a =
    let hosts = max_hosts a.subnet.ones in
    elim (scan a hosts hosts 0) [
      | none ↦ err subnet_exhausted
      | some idx ↦ ok (candidate a idx, if ltb hosts (idx + 1) then 1 else idx + 1)
    ]

unfoldable pub allocate : IpAllocator → String → Result Error (IpAllocator × Cidr)
unfolding find_next_available
allocate a peer = elim (lookup peer a.peer_to_ip) [
  | some c ↦ ok (a, c)
  | none ↦ elim (find_next_available a) [
    | err e ↦ err e
    | ok (ip, next) ↦
        let c : Cidr = record { ip = ip; ones = a.subnet.ones } in
        ok (
          record a {
            allocated = put ip peer a.allocated;
            peer_to_ip = insert peer c a.peer_to_ip;
            next_index = next;
          },
          c,
        )
  ]
]

-- `subnet.Contains`: the address has the network's prefix.
unfoldable pub subnet_contains : Cidr → ℕ → Bool
subnet_contains net ip = ip / 2 ^ (32 - net.ones) == net.ip / 2 ^ (32 - net.ones)

-- The argument is what `net.ParseCIDR` makes of the text.
unfoldable pub allocate_specific : IpAllocator → String → Option Cidr → Result Error IpAllocator
unfolding subnet_contains
allocate_specific a peer none = err invalid_local_ip
allocate_specific a peer (some c) =
    if not (subnet_contains a.subnet c.ip)
    then err outside_subnet
    else elim (find c.ip a.allocated) [
      | some existing ↦ if str_eq existing peer then ok a else err ip_already_allocated
      | none ↦ ok (record a {
        allocated = put c.ip peer a.allocated;
        peer_to_ip = insert peer c a.peer_to_ip;
      })
    ]

unfoldable pub release : IpAllocator → String → Result Error IpAllocator
release a peer = elim (lookup peer a.peer_to_ip) [
  | none ↦ err ip_not_allocated
  | some c ↦
      ok (record a { allocated = erase c.ip a.allocated; peer_to_ip = delete peer a.peer_to_ip })
]

unfoldable pub get_ip : IpAllocator → String → Option Cidr
get_ip a peer = lookup peer a.peer_to_ip

unfoldable pub get_peer : IpAllocator → ℕ → Option String
get_peer a ip = find ip a.allocated

unfoldable pub is_allocated : IpAllocator → ℕ → Bool
is_allocated a ip = elim (find ip a.allocated) [ none ↦ Bool.false | some _ ↦ Bool.true ]

unfoldable pub allocated_count : IpAllocator → ℕ
allocated_count a = length a.allocated
