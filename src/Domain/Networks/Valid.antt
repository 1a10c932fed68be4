-- ===== src/Domain/Networks/Valid.antt =====
-- What a valid network is, and the checks of its single parts.
use ztgotroller.Base.{
  Bool-cases, ◌⊎◌, inl, inr, ℕ, ◌≤◌, ◌<◌, ◌≡◌, ◌↔◌, refl, arith, true, false, not, List, [], ◌∷◌,
  Bytes, Option, none, some, length, map, All, AreDistinct, nat_eq, pos, negsuc, ℤ, int_is, ok,
  fail_if, check_each-ok_iff, IsHexDigit,
}
use ztgotroller.Domain.Ids.{parse_network_id, parse_node_id}
use ztgotroller.Domain.Ids.Laws.{validate_hex_id-ok_iff}
use ztgotroller.Domain.Networks.{
  invalid_dns_server, from_id_error, Route, IpPool, Rule, Capability, TagDefinition, DnsConfig,
  Network, validate_route, validate_pool, validate_rule, validate_dns,
}
use ztgotroller.Netip.{is_valid, is4, addr_above, prefix_is_valid, prefix_addr}

-- A string of `n` lower-case hexadecimal digits.
abbrev pub IsHexText : ℕ → Bytes → Type 0
IsHexText n text = (length text ≡ n) × All IsHexDigit text

pub check_node_id-ok_iff :
    (id : Bytes) → (from_id_error (parse_node_id id) ≡ ok tt) ↔ IsHexText 10 id
unfolding parse_node_id
check_node_id-ok_iff id = ground (arith, validate_hex_id-ok_iff id 10)

pub check_network_id-ok_iff :
    (id : Bytes) → (from_id_error (parse_network_id id) ≡ ok tt) ↔ IsHexText 16 id
unfolding parse_network_id
check_network_id-ok_iff id = ground (arith, validate_hex_id-ok_iff id 16)

pub int_is_iff : (i : ℤ) (n : ℕ) → (not (int_is i n) ≡ false) ↔ (i ≡ pos n)
int_is_iff (pos i) n = ground arith
int_is_iff (negsuc i) n = (λ h. absurd (cc), λ h. absurd (cc))

-- What an administrator may store as a route, a pool of addresses, and a resolver.
abbrev pub IsValidRoute : Route → Type 0
IsValidRoute r =
    (prefix_is_valid r.target ≡ true)
    × ((is_valid r.via ≡ false) ⊎ (is4 r.via ≡ is4 (prefix_addr r.target)))

abbrev pub IsValidPool : IpPool → Type 0
IsValidPool p =
    (is_valid p.start ≡ true)
    × (is_valid p.end ≡ true)
    × (is4 p.start ≡ is4 p.end)
    × (addr_above p.start p.end ≡ false)

abbrev pub IsValidDns : Option DnsConfig → Type 0
IsValidDns none = Unit
IsValidDns (some dns) = All (λ a. is_valid a ≡ true) dns.servers

pub record IsValidNetwork (n : Network) : Type 0 where
  pub id : IsHexText 16 n.id
  pub schema_version : n.schema_version ≡ pos 1
  pub mtu : (mtu : ℕ) × (n.mtu ≡ pos mtu) × (1280 ≤ mtu) × (mtu ≤ 10000)
  pub multicast_limit : (limit : ℕ) × (n.multicast_limit ≡ pos limit)
  pub created : 0 < n.created_at
  pub updated : n.created_at ≤ n.updated_at
  pub few_routes : length n.routes ≤ 16384
  pub few_pools : length n.ip_pools ≤ 16384
  pub few_rules : length n.rules ≤ 16384
  pub few_capabilities : length n.capabilities ≤ 16384
  pub few_tags : length n.tags ≤ 16384
  pub routes : All IsValidRoute n.routes
  pub ip_pools : All IsValidPool n.ip_pools
  pub rules : All (λ (r : Rule). 0 < length r.type) n.rules
  pub distinct_capabilities : AreDistinct (map (λ (c : Capability). c.id) n.capabilities)
  pub distinct_tags : AreDistinct (map (λ (t : TagDefinition). t.id) n.tags)
  pub dns : IsValidDns n.dns

pub All-iff :
    {A : Type 0} {P Q : A → Type 0} (xs : List A) → ((x : A) → P x ↔ Q x) → All P xs ↔ All Q xs
All-iff [] h = (λ a. a, λ a. a)
All-iff (x ∷ xs) h =
    (λ a. ((h x).0 a.0, (All-iff xs h).0 a.1), λ a. ((h x).1 a.0, (All-iff xs h).1 a.1))

pub validate_route-ok_iff : (r : Route) → (validate_route r ≡ ok tt) ↔ IsValidRoute r
unfolding validate_route
validate_route-ok_iff r = elim (Bool-cases (is_valid r.via)) [
  | inl given ↦ ground arith
  | inr absent ↦ ground arith
]

pub validate_pool-ok_iff : (p : IpPool) → (validate_pool p ≡ ok tt) ↔ IsValidPool p
unfolding validate_pool
validate_pool-ok_iff p = ground arith

pub validate_rule-ok_iff : (r : Rule) → (validate_rule r ≡ ok tt) ↔ (0 < length r.type)
unfolding validate_rule
validate_rule-ok_iff r = ground arith

pub validate_dns-ok_iff : (d : Option DnsConfig) → (validate_dns d ≡ ok tt) ↔ IsValidDns d
unfolding validate_dns
validate_dns-ok_iff none = (λ h. tt, λ h. refl)
validate_dns-ok_iff (some dns) =
    let each =
      check_each-ok_iff (λ server. fail_if (not (is_valid server)) invalid_dns_server)
        dns.servers in
    let valid =
      All-iff {P = λ server. fail_if (not (is_valid server)) invalid_dns_server ≡ ok tt}
        {Q = λ server. is_valid server ≡ true} dns.servers (λ server. ground arith) in
    (λ h. valid.0 (each.0 h), λ h. each.1 (valid.1 h))
