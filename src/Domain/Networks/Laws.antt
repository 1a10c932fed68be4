-- ===== src/Domain/Networks/Laws.antt =====
-- Which networks `Network.Validate` accepts.
use ztgotroller.Base.{
  ℕ, ◌≤◌, ◌≡◌, ◌↔◌, refl, arith, false, not, ◌||◌, List, [], ◌∷◌, length, ltb, ◌==◌, map, All,
  AreDistinct, has_duplicate-AreDistinct, nat_eq, pos, negsuc, ℤ, int_is, int_below, int_above,
  Result, ok, fail_if, fail_if-ok_iff, chain, chain-ok_iff, check_each, check_each-ok_iff,
}
use ztgotroller.Domain.Ids.{parse_network_id}
use ztgotroller.Domain.Networks.{
  DomainError, unsupported_schema_version, mtu_out_of_range, negative_multicast_limit,
  missing_timestamps, updated_before_created, current_schema_version, min_mtu, max_mtu,
  from_id_error, Capability, TagDefinition, Network, validate_collection_sizes,
  validate_unique_definitions, validate_route, validate_pool, validate_rule, validate_dns,
  validate_network,
}
use ztgotroller.Domain.Networks.Valid.{
  IsValidNetwork, check_network_id-ok_iff, int_is_iff, All-iff, validate_route-ok_iff,
  validate_pool-ok_iff, validate_rule-ok_iff, validate_dns-ok_iff,
}

-- The checks of `validate_network`, in their order.
abbrev checks : Network → List (Result DomainError (Unit {0}))
checks n =
    from_id_error (parse_network_id n.id)
    ∷ fail_if (not (int_is n.schema_version current_schema_version)) unsupported_schema_version
    ∷ fail_if (int_below n.mtu min_mtu || int_above n.mtu max_mtu) mtu_out_of_range
    ∷ fail_if (int_below n.multicast_limit 0) negative_multicast_limit
    ∷ fail_if (n.created_at == 0 || n.updated_at == 0) missing_timestamps
    ∷ fail_if (ltb n.updated_at n.created_at) updated_before_created
    ∷ validate_collection_sizes n
    ∷ check_each validate_route n.routes
    ∷ check_each validate_pool n.ip_pools
    ∷ check_each validate_rule n.rules
    ∷ validate_unique_definitions n.capabilities n.tags
    ∷ validate_dns n.dns
    ∷ []

validate_network-chain : (n : Network) → validate_network n ≡ chain (checks n)
unfolding validate_network
validate_network-chain n = refl

sizes-ok_iff :
    (n : Network)
    → (validate_collection_sizes n ≡ ok tt) ↔ (
        (length n.routes ≤ 16384)
        × (length n.ip_pools ≤ 16384)
        × (length n.rules ≤ 16384)
        × (length n.capabilities ≤ 16384)
        × (length n.tags ≤ 16384))
unfolding validate_collection_sizes
sizes-ok_iff n = ground arith

definitions-ok_iff :
    (cs : List Capability) (ts : List TagDefinition)
    → (validate_unique_definitions cs ts ≡ ok tt) ↔ (
        AreDistinct (map (λ (c : Capability). c.id) cs)
        × AreDistinct (map (λ (t : TagDefinition). t.id) ts))
unfolding validate_unique_definitions
definitions-ok_iff cs ts = ground (
  arith,
  has_duplicate-AreDistinct (map (λ (c : Capability). c.id) cs),
  has_duplicate-AreDistinct (map (λ (t : TagDefinition). t.id) ts),
)

mtu-ok_iff :
    (mtu : ℤ)
    → ((int_below mtu min_mtu || int_above mtu max_mtu) ≡ false)
      ↔ ((m : ℕ) × (mtu ≡ pos m) × (1280 ≤ m) × (m ≤ 10000))
mtu-ok_iff (pos m) = (λ h. (m, refl, ground arith, ground arith), λ (k, e, low, high). ground arith)
mtu-ok_iff (negsuc m) = (λ h. absurd (cc), λ (k, e, low, high). absurd (cc))

limit-ok_iff : (i : ℤ) → (int_below i 0 ≡ false) ↔ ((n : ℕ) × (i ≡ pos n))
limit-ok_iff (pos n) = (λ h. (n, refl), λ h. ground arith)
limit-ok_iff (negsuc n) = (λ h. absurd (cc), λ h. absurd (cc))

checks-IsValidNetwork : (n : Network) → All (λ c. c ≡ ok tt) (checks n) → IsValidNetwork n
checks-IsValidNetwork n
      (
        id,
        (
          version,
          (
            mtu,
            (limit, (stamped, (ordered, (small, (routes, (pools, (rules, (unique, (dns, _))))))))),
          ),
        ),
      ) =
    let stamps = (fail_if-ok_iff _ missing_timestamps).0 stamped in
    let order = (fail_if-ok_iff _ updated_before_created).0 ordered in
    let sizes = (sizes-ok_iff n).0 small in
    let distinct = (definitions-ok_iff n.capabilities n.tags).0 unique in
    record {
      id = (check_network_id-ok_iff n.id).0 id;
      schema_version =
          (int_is_iff n.schema_version 1).0
            ((fail_if-ok_iff _ unsupported_schema_version).0 version);
      mtu = (mtu-ok_iff n.mtu).0 ((fail_if-ok_iff _ mtu_out_of_range).0 mtu);
      multicast_limit =
          (limit-ok_iff n.multicast_limit).0 ((fail_if-ok_iff _ negative_multicast_limit).0 limit);
      created = ground arith;
      updated = ground arith;
      few_routes = sizes.0;
      few_pools = sizes.1;
      few_rules = sizes.2;
      few_capabilities = sizes.3;
      few_tags = sizes.4;
      routes =
          (All-iff n.routes validate_route-ok_iff).0
            ((check_each-ok_iff validate_route n.routes).0 routes);
      ip_pools =
          (All-iff n.ip_pools validate_pool-ok_iff).0
            ((check_each-ok_iff validate_pool n.ip_pools).0 pools);
      rules =
          (All-iff n.rules validate_rule-ok_iff).0
            ((check_each-ok_iff validate_rule n.rules).0 rules);
      distinct_capabilities = distinct.0;
      distinct_tags = distinct.1;
      dns = (validate_dns-ok_iff n.dns).0 dns;
    }

IsValidNetwork-checks : (n : Network) → IsValidNetwork n → All (λ c. c ≡ ok tt) (checks n)
IsValidNetwork-checks n v =
    let id = (check_network_id-ok_iff n.id).1 v.id in
    let version =
      (fail_if-ok_iff _ unsupported_schema_version).1
        ((int_is_iff n.schema_version 1).1 v.schema_version) in
    let mtu = (fail_if-ok_iff _ mtu_out_of_range).1 ((mtu-ok_iff n.mtu).1 v.mtu) in
    let limit =
      (fail_if-ok_iff _ negative_multicast_limit).1
        ((limit-ok_iff n.multicast_limit).1 v.multicast_limit) in
    let stamped = (fail_if-ok_iff _ missing_timestamps).1 (ground (arith, v.created, v.updated)) in
    let ordered = (fail_if-ok_iff _ updated_before_created).1 (ground (arith, v.updated)) in
    let small =
      (sizes-ok_iff n).1 (v.few_routes, v.few_pools, v.few_rules, v.few_capabilities, v.few_tags) in
    let routes =
      (check_each-ok_iff validate_route n.routes).1
        ((All-iff n.routes validate_route-ok_iff).1 v.routes) in
    let pools =
      (check_each-ok_iff validate_pool n.ip_pools).1
        ((All-iff n.ip_pools validate_pool-ok_iff).1 v.ip_pools) in
    let rules =
      (check_each-ok_iff validate_rule n.rules).1
        ((All-iff n.rules validate_rule-ok_iff).1 v.rules) in
    let unique =
      (definitions-ok_iff n.capabilities n.tags).1 (v.distinct_capabilities, v.distinct_tags) in
    let dns = (validate_dns-ok_iff n.dns).1 v.dns in
    (
      id,
      (
        version,
        (
          mtu,
          (limit, (stamped, (ordered, (small, (routes, (pools, (rules, (unique, (dns, tt))))))))),
        ),
      ),
    )

-- `Network.Validate` accepts exactly the networks with an identifier of 16 lower-case hexadecimal
-- digits, schema version 1, an MTU from 1280 to 10000, a multicast limit that is not negative, a
-- creation time that is set and not after the update, at most 16384 entries of a kind, routes and
-- pools whose two addresses are of one family, ordered pools, typed rules, no capability or tag
-- twice, and valid name servers.
pub validate_network-ok_iff : (n : Network) → (validate_network n ≡ ok tt) ↔ IsValidNetwork n
validate_network-ok_iff n =
    let all = chain-ok_iff (checks n) in
    (
      λ h. checks-IsValidNetwork n (all.0 (rw (validate_network-chain n) at h)),
      λ v. rw (validate_network-chain n) (all.1 (IsValidNetwork-checks n v)),
    )
