-- ===== src/Controller/Addresses/Search.antt =====
-- What the search for an address finds.
use ztgotroller.Base.{
  ℕ, zero, suc, ◌≡◌, refl, sym, ◌∙◌, arith, Bool, true, false, List, [], ◌∷◌, is_among, get_elem?,
  Bool-cases, inl, inr, ◌⊎◌, some, Bytes,
}
use ztgotroller.Controller.{bool_eq}
use ztgotroller.Controller.Addresses.{
  Scan, found, gave_up, passed, is_past, is_taken, scan_pool, scan_pools, first_available_address,
  address_has_managed_route,
}
use ztgotroller.Domain.Networks.{Network, Route, IpPool}
use ztgotroller.Netip.{
  Addr, zero_addr, ip4, ip6, addr_keys, is_valid, is4, addr_above, addr_next, bytes_lt,
}

bytes_lt_irrefl : (z : Bytes) → bytes_lt z z ≡ false
unfolding bytes_lt
bytes_lt_irrefl [] = refl
bytes_lt_irrefl (b ∷ z) = ground (arith, bytes_lt_irrefl z)

above_irrefl : (a : Addr) → addr_above a a ≡ false
unfolding addr_above
above_irrefl zero_addr = refl
above_irrefl (ip4 a) = ground arith
above_irrefl (ip6 a z) = ground (arith, bytes_lt_irrefl z)

-- What is not below the next address is not below this one.
above-next :
    (c a : Addr)
    → is_valid (addr_next c) ≡ true
    → addr_above (addr_next c) a ≡ false
    → addr_above c a ≡ false
unfolding addr_above addr_next is_valid
above-next zero_addr a v h = refl
above-next (ip4 n) zero_addr v h = ground arith
above-next (ip4 n) (ip4 b) v h = ground arith
above-next (ip4 n) (ip6 b y) v h = refl
above-next (ip6 n z) zero_addr v h = ground arith
above-next (ip6 n z) (ip4 b) v h = ground arith
above-next (ip6 n z) (ip6 b y) v h = ground arith

is4-next : (c : Addr) → is_valid (addr_next c) ≡ true → is4 (addr_next c) ≡ is4 c
unfolding addr_next is4 is_valid
is4-next zero_addr h = refl
is4-next (ip4 n) h = ground arith
is4-next (ip6 n z) h = ground arith

-- An address from `start` to the end, free and with a managed route.
pub record IsFound (routes : List Route) (used : List Addr) (start end a : Addr) : Type 0 where
  pub unused : is_among a used ≡ false
  pub routed : address_has_managed_route routes a ≡ true
  pub valid : is_valid a ≡ true
  pub from_start : addr_above start a ≡ false
  pub to_end : addr_above a end ≡ false
  pub family : is4 a ≡ is4 start

here-IsFound :
    (routes : List Route) (used : List Addr) (end a : Addr)
    → is_past a end ≡ false
    → is_taken routes used a ≡ false
    → IsFound routes used a end a
here-IsFound routes used end a p t = record {
  unused = ground arith;
  routed = ground arith;
  valid = ground arith;
  from_start = above_irrefl a;
  to_end = ground arith;
  family = refl;
}

scan_pool-IsFound :
    (routes : List Route) (used : List Addr) (end : Addr) (left : ℕ) (c : Addr) {a : Addr}
    → scan_pool routes used end left c ≡ found a
    → IsFound routes used c end a
unfolding scan_pool
scan_pool-IsFound routes used end zero c h = absurd (ground arith)
scan_pool-IsFound routes used end (suc left) c {a} h = elim (Bool-cases (is_past c end)) [
  | inl past ↦ absurd (ground arith)
  | inr within ↦ elim (Bool-cases (is_taken routes used c)) [
    | inr free ↦
        let same : c ≡ a = ground arith in rw (← same) (here-IsFound routes used end c within free)
    | inl taken ↦
        let step = scan_pool-IsFound routes used end left (addr_next c) {a = a} (ground arith) in
        let next = next_valid routes used end left (addr_next c) {a = a} (ground arith) in
        record {
          unused = step.unused;
          routed = step.routed;
          valid = step.valid;
          from_start = above-next c a next step.from_start;
          to_end = step.to_end;
          family = step.family ∙ is4-next c next;
        }
  ]
]
  where
    next_valid :
        (routes : List Route) (used : List Addr) (end : Addr) (left : ℕ) (c : Addr) {a : Addr}
        → scan_pool routes used end left c ≡ found a
        → is_valid c ≡ true
    next_valid routes used end zero c h = unfold scan_pool in ground arith
    next_valid routes used end (suc left) c h = unfold scan_pool in ground arith

-- An address of one of the pools, of the family that was asked for.
pub record IsAvailable (routes : List Route) (used : List Addr) (ipv4 : Bool) (pools : List IpPool)
    (a : Addr) : Type 0 where
  pub pool : IpPool
  pub index : ℕ
  pub is_pool : get_elem? pools index ≡ some pool
  pub in_pool : IsFound routes used pool.start pool.end a
  pub family : is4 a ≡ ipv4

in_later_pool :
    (routes : List Route) (used : List Addr) (ipv4 : Bool) (p : IpPool) (pools : List IpPool)
    {a : Addr}
    → IsAvailable routes used ipv4 pools a
    → IsAvailable routes used ipv4 (p ∷ pools) a
in_later_pool routes used ipv4 p pools h = record {
  pool = h.pool;
  index = suc h.index;
  is_pool = h.is_pool;
  in_pool = h.in_pool;
  family = h.family;
}

same_family : (a b : Bool) → bool_eq a b ≡ true → a ≡ b
same_family true b h = sym h
same_family false b h = ground arith

scan-cases :
    (s : Scan) → ((a : Addr) × (s ≡ found a)) ⊎ ((s ≡ gave_up) ⊎ ((more : ℕ) × (s ≡ passed more)))
scan-cases (found a) = inl (a, refl)
scan-cases gave_up = inr (inl refl)
scan-cases (passed more) = inr (inr (more, refl))

scan_pools-IsAvailable :
    (routes : List Route) (used : List Addr) (ipv4 : Bool) (left : ℕ) (pools : List IpPool)
    {a : Addr}
    → scan_pools routes used ipv4 left pools ≡ some a
    → IsAvailable routes used ipv4 pools a
unfolding scan_pools
scan_pools-IsAvailable routes used ipv4 left [] h = absurd (cc)
scan_pools-IsAvailable routes used ipv4 left (p ∷ pools) {a} h =
    elim (Bool-cases (bool_eq (is4 p.start) ipv4)) [
      | inr other ↦
          in_later_pool routes used ipv4 p pools
            (scan_pools-IsAvailable routes used ipv4 left pools {a = a} (ground arith))
      | inl family ↦ elim (scan-cases (scan_pool routes used p.end left p.start)) [
        | inl (b, is) ↦
            let same : b ≡ a = ground arith in
            let at = scan_pool-IsFound routes used p.end left p.start is in
            rw (← same) (record {
              pool = p;
              index = zero;
              is_pool = refl;
              in_pool = at;
              family = at.family ∙ same_family (is4 p.start) ipv4 family;
            })
        | inr (inl up) ↦ absurd (ground arith)
        | inr (inr (more, is)) ↦
            in_later_pool routes used ipv4 p pools
              (scan_pools-IsAvailable routes used ipv4 more pools {a = a} (ground arith))
      ]
    ]

-- An address that `firstAvailableAddress` finds is of the family asked for, lies between the ends
-- of one of the network's pools, is not used, and has a managed route.
pub first_available_address-IsAvailable :
    (network : Network) (used : List Addr) (ipv4 : Bool) {a : Addr}
    → first_available_address network used ipv4 ≡ some a
    → IsAvailable network.routes used ipv4 network.ip_pools a
unfolding first_available_address
first_available_address-IsAvailable network used ipv4 h =
    scan_pools-IsAvailable network.routes used ipv4 1048576 network.ip_pools h
