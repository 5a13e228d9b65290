-- ===== src/Network/Allocator/Leases.antt =====
-- Who holds which address of src/infrastructure/network/wireguard/ip_allocator.go.
use agent_collab.Common.{
  ℕ, ◌+◌, ◌^◌, ◌≤◌, ◌<◌, String, ◌≡◌, ◌≢◌, refl, sym, subst, ap, inl, inr, none, some, arith,
  Option-cases, Result-cases, text_cases, if◌then◌else◌, ltb, eq_iff, eq_refl, ok, Bool-cases, ◌==◌,
}
use agent_collab.Common.Dict.{lookup, insert, delete, lookup-insert, lookup-delete}
use agent_collab.Common.Table.{find, put, erase, find-put, find-erase}
use agent_collab.Network.Allocator.{
  IpAllocator, Cidr, max_hosts, candidate, scan, find_next_available, allocate, allocate_specific,
  release,
}
use agent_collab.Network.Allocator.Search.{scan-some, index_at-bounds}

-- The subnet has at least one host and fewer than 2³¹, the two maps are each other's inverse, and the
-- next index is a host's.
pub record IsAllocator (a : IpAllocator) : Type 0 where
  pub hosts : 0 < max_hosts a.subnet.ones
  pub small : max_hosts a.subnet.ones < 2 ^ 31
  pub next : (1 ≤ a.next_index) × (a.next_index ≤ max_hosts a.subnet.ones)
  pub held :
      (p : String) (c : Cidr) → lookup p a.peer_to_ip ≡ some c → find c.ip a.allocated ≡ some p
  pub leased :
      (ip : ℕ) (p : String)
      → find ip a.allocated ≡ some p
      → (c : Cidr) × (lookup p a.peer_to_ip ≡ some c) × (c.ip ≡ ip)

-- What the search returns is the address of a free host.
find_next_available-ok :
    (a : IpAllocator) (ip next : ℕ)
    → IsAllocator a
    → find_next_available a ≡ ok (ip, next)
    → (find ip a.allocated ≡ none)
      × ((idx : ℕ) × (1 ≤ idx) × (idx ≤ max_hosts a.subnet.ones) × (ip ≡ candidate a idx))
      × (1 ≤ next)
      × (next ≤ max_hosts a.subnet.ones)
unfolding find_next_available
find_next_available-ok a ip next v e =
    let hosts = max_hosts a.subnet.ones in
    elim (Option-cases (scan a hosts hosts 0)) [
      | inl n ↦ absurd (ground arith)
      | inr (idx, n) ↦
          let (free, (k, visited)) = scan-some a hosts hosts 0 idx n in
          let same : ip ≡ candidate a idx = ground arith in
          let after : next ≡ (if ltb hosts (idx + 1) then 1 else idx + 1) = ground arith in
          let range = index_at-bounds hosts a.next_index k v.hosts in
          (
            subst (λ i. find i a.allocated ≡ none) (sym same) free,
            (idx, omega (arith, visited, range), omega (arith, visited, range), same),
            ground (arith, after),
            ground (arith, after, v.hosts),
          )
    ]

-- In a well-formed allocator, whose subnet has at least one host and fewer than 2³¹, whose maps are each
-- other's inverse and whose next index is a host's, an address that is allocated to a peer without one is
-- a host's of the subnet, was free, and is then that peer's; the allocator stays well-formed.
pub allocate-IsAllocator :
    (a a' : IpAllocator) (peer : String) (c : Cidr)
    → IsAllocator a
    → lookup peer a.peer_to_ip ≡ none
    → allocate a peer ≡ ok (a', c)
    → IsAllocator a'
      × (find c.ip a.allocated ≡ none)
      × (find c.ip a'.allocated ≡ some peer)
      × ((idx : ℕ) × (1 ≤ idx) × (idx ≤ max_hosts a.subnet.ones) × (c.ip ≡ candidate a idx))
unfolding allocate
allocate-IsAllocator a a' peer c v fresh e = elim (Result-cases (find_next_available a)) [
  | inr (x, f) ↦ absurd (ground arith)
  | inl ((ip, next), f) ↦
      let (free, host, low, high) = find_next_available-ok a ip next v f in
      let lease : Cidr = record { ip = ip; ones = a.subnet.ones } in
      let result : IpAllocator = record a {
        allocated = put ip peer a.allocated;
        peer_to_ip = insert peer lease a.peer_to_ip;
        next_index = next;
      } in
      let same : a' ≡ result = ground arith in
      let same_c : c ≡ lease = ground arith in
      subst
        (λ (d : Cidr).
          IsAllocator a'
          × (find d.ip a.allocated ≡ none)
          × (find d.ip a'.allocated ≡ some peer)
          × ((idx : ℕ) × (1 ≤ idx) × (idx ≤ max_hosts a.subnet.ones) × (d.ip ≡ candidate a idx)))
        (sym same_c)
        (subst
          (λ (b : IpAllocator).
            IsAllocator b
            × (find ip a.allocated ≡ none)
            × (find ip b.allocated ≡ some peer)
            × ((idx : ℕ) × (1 ≤ idx) × (idx ≤ max_hosts a.subnet.ones) × (ip ≡ candidate a idx)))
          (sym same)
          (
            record {
              hosts = v.hosts;
              small = v.small;
              next = (low, high);
              held = λ p d l. ground (
                arith,
                lookup-insert peer p lease a.peer_to_ip,
                find-put ip d.ip peer a.allocated,
                eq_iff peer p,
                v.held p d,
                free,
              );
              leased = λ i p l. elim (Bool-cases (ip == i)) [
                | inl here ↦
                    let mine : peer ≡ p = ground (arith, l, here, find-put ip i peer a.allocated) in
                    (
                      lease,
                      ground (arith, lookup-insert peer p lease a.peer_to_ip, eq_iff peer p, mine),
                      ground (arith, here),
                    )
                | inr there ↦
                    let old : find i a.allocated ≡ some p =
                      ground (arith, l, there, find-put ip i peer a.allocated) in
                    let (d, bound, at) = v.leased i p old in
                    (
                      d,
                      ground (
                        arith,
                        lookup-insert peer p lease a.peer_to_ip,
                        eq_iff peer p,
                        bound,
                        fresh,
                      ),
                      at,
                    )
              ];
            },
            free,
            ground (arith, find-put ip ip peer a.allocated),
            host,
          ))
]

-- Releasing keeps the maps each other's inverse, and frees the peer's address.
pub release-IsAllocator :
    (a a' : IpAllocator) (peer : String)
    → IsAllocator a
    → release a peer ≡ ok a'
    → IsAllocator a'
      × (lookup peer a'.peer_to_ip ≡ none)
      × ((c : Cidr) × (lookup peer a.peer_to_ip ≡ some c) × (find c.ip a'.allocated ≡ none))
unfolding release
release-IsAllocator a a' peer v e = elim (Option-cases (lookup peer a.peer_to_ip)) [
  | inl n ↦ absurd (ground arith)
  | inr (c, n) ↦
      let result : IpAllocator = record a {
        allocated = erase c.ip a.allocated;
        peer_to_ip = delete peer a.peer_to_ip;
      } in
      let same : a' ≡ result = ground arith in
      subst
        (λ (b : IpAllocator).
          IsAllocator b
          × (lookup peer b.peer_to_ip ≡ none)
          × ((d : Cidr) × (lookup peer a.peer_to_ip ≡ some d) × (find d.ip b.allocated ≡ none)))
        (sym same)
        (
          record {
            hosts = v.hosts;
            small = v.small;
            next = v.next;
            held = λ p d l. ground (
              arith,
              lookup-delete peer p a.peer_to_ip,
              find-erase c.ip d.ip a.allocated,
              eq_iff peer p,
              v.held p d,
              v.held peer c,
              n,
            );
            leased = λ i p l.
                let apart : c.ip ≢ i = λ q. ground (arith, l, q, find-erase c.ip i a.allocated) in
                let old : find i a.allocated ≡ some p =
                  ground (arith, l, find-erase c.ip i a.allocated) in
                let (d, bound, at) = v.leased i p old in
                (
                  d,
                  elim (text_cases peer p) [
                    | inl (q, t) ↦
                        absurd (apart (cc (n, bound, at, ap (λ k. lookup k a.peer_to_ip) q)))
                    | inr (q, t) ↦ rw (lookup-delete peer p a.peer_to_ip, t) bound
                  ],
                  at,
                );
          },
          ground (arith, lookup-delete peer peer a.peer_to_ip, eq_refl peer),
          (c, n, ground (arith, find-erase c.ip c.ip a.allocated)),
        )
]

-- Giving a specific address to a peer that has another leaks the other: after the peer is released,
-- its first address stays allocated, and no peer has it.
pub allocate_specific_leaks :
    (a b a' : IpAllocator) (peer : String) (old new : Cidr)
    → IsAllocator a
    → lookup peer a.peer_to_ip ≡ some old
    → old.ip ≢ new.ip
    → find new.ip a.allocated ≡ none
    → allocate_specific a peer (some new) ≡ ok b
    → release b peer ≡ ok a'
    → (find old.ip a'.allocated ≡ some peer) × (lookup peer a'.peer_to_ip ≡ none)
unfolding allocate_specific release
allocate_specific_leaks a b a' peer old new v had apart free given released =
    let e1 : b.allocated ≡ put new.ip peer a.allocated = ground arith in
    let e2 : b.peer_to_ip ≡ insert peer new a.peer_to_ip = ground arith in
    let e3 : lookup peer b.peer_to_ip ≡ some new =
      rw e2 (rw (lookup-insert peer peer new a.peer_to_ip, eq_refl peer) refl) in
    let e4 : a'.allocated ≡ erase new.ip b.allocated = ground (arith, e3, released) in
    let e5 : a'.peer_to_ip ≡ delete peer b.peer_to_ip = ground (arith, e3, released) in
    (
      ground (
        arith,
        e4,
        e1,
        find-erase new.ip old.ip (put new.ip peer a.allocated),
        find-put new.ip old.ip peer a.allocated,
        v.held peer old had,
        apart,
      ),
      ground (arith, e5, lookup-delete peer peer b.peer_to_ip, eq_refl peer),
    )
