-- ===== src/Domain/Members/Laws.antt =====
-- Which members `Member.Validate` accepts.
use ztgotroller.Base.{
  ◌≤◌, ◌<◌, ◌≡◌, ◌↔◌, refl, arith, true, false, not, ◌||◌, List, [], ◌∷◌, length, ltb, ◌==◌, map,
  All, AreDistinct, has_duplicate, has_duplicate-AreDistinct, nat_eq, pos, int_is, Result, ok,
  fail_if, fail_if-ok_iff, chain, chain-ok_iff,
}
use ztgotroller.Domain.Ids.{parse_node_id, parse_network_id}
use ztgotroller.Domain.Networks.Valid.{
  IsHexText, check_node_id-ok_iff, check_network_id-ok_iff, int_is_iff,
}
use ztgotroller.Domain.Members.{
  Member, TagValue, check_assignments, validate_unique_member_values, validate_member,
}
use ztgotroller.Domain.Networks.{
  DomainError, from_id_error, max_collection_size, current_schema_version,
  unsupported_schema_version, missing_timestamps, updated_before_created, collection_too_large,
  duplicate_capability, duplicate_tag,
}
use ztgotroller.Netip.{Addr, addr_keys, is_valid}

check_assignments-ok_iff :
    (seen addresses : List Addr)
    → (check_assignments seen addresses ≡ ok tt)
      ↔ (All (λ a. is_valid a ≡ true) addresses × (has_duplicate seen addresses ≡ false))
unfolding check_assignments has_duplicate
check_assignments-ok_iff seen [] = (λ h. (tt, refl), λ h. refl)
check_assignments-ok_iff seen (a ∷ rest) = ground (arith, check_assignments-ok_iff (a ∷ seen) rest)

-- What an administrator may store as a member.
pub record IsValidMember (m : Member) : Type 0 where
  pub schema_version : m.schema_version ≡ pos 1
  pub network_id : IsHexText 16 m.network_id
  pub node_id : IsHexText 10 m.node_id
  pub created : 0 < m.created_at
  pub updated : m.created_at ≤ m.updated_at
  pub few_assignments : length m.ip_assignments ≤ 16384
  pub few_capabilities : length m.capabilities ≤ 16384
  pub few_tags : length m.tags ≤ 16384
  pub valid_assignments : All (λ a. is_valid a ≡ true) m.ip_assignments
  pub distinct_assignments : AreDistinct m.ip_assignments
  pub distinct_capabilities : AreDistinct m.capabilities
  pub distinct_tags : AreDistinct (map (λ (t : TagValue). t.id) m.tags)

values-ok_iff :
    (m : Member)
    → (validate_unique_member_values m ≡ ok tt) ↔ (
        All (λ a. is_valid a ≡ true) m.ip_assignments
        × AreDistinct m.ip_assignments
        × AreDistinct m.capabilities
        × AreDistinct (map (λ (t : TagValue). t.id) m.tags))
unfolding validate_unique_member_values
values-ok_iff m =
    let tags = map (λ (t : TagValue). t.id) m.tags in
    ground (
      arith,
      chain-ok_iff (
          check_assignments [] m.ip_assignments
          ∷ fail_if (has_duplicate [] m.capabilities) duplicate_capability
          ∷ fail_if (has_duplicate [] tags) duplicate_tag
          ∷ []),
      check_assignments-ok_iff [] m.ip_assignments,
      fail_if-ok_iff (has_duplicate [] m.capabilities) duplicate_capability,
      fail_if-ok_iff (has_duplicate [] tags) duplicate_tag,
      has_duplicate-AreDistinct m.ip_assignments,
      has_duplicate-AreDistinct m.capabilities,
      has_duplicate-AreDistinct tags,
    )

-- The checks of `validate_member`, in their order.
abbrev checks : Member → List (Result DomainError (Unit {0}))
checks m =
    fail_if (not (int_is m.schema_version current_schema_version)) unsupported_schema_version
    ∷ from_id_error (parse_network_id m.network_id)
    ∷ from_id_error (parse_node_id m.node_id)
    ∷ fail_if (m.created_at == 0 || m.updated_at == 0) missing_timestamps
    ∷ fail_if (ltb m.updated_at m.created_at) updated_before_created
    ∷ fail_if
        (ltb max_collection_size (length m.ip_assignments)
          || ltb max_collection_size (length m.capabilities)
          || ltb max_collection_size (length m.tags))
        collection_too_large
    ∷ validate_unique_member_values m
    ∷ []

validate_member-chain : (m : Member) → validate_member m ≡ chain (checks m)
unfolding validate_member
validate_member-chain m = refl

checks-IsValidMember : (m : Member) → All (λ c. c ≡ ok tt) (checks m) → IsValidMember m
checks-IsValidMember m (version, (network, (node, (stamped, (ordered, (small, (unique, _))))))) =
    let values = (values-ok_iff m).0 unique in
    let stamps = (fail_if-ok_iff _ missing_timestamps).0 stamped in
    let order = (fail_if-ok_iff _ updated_before_created).0 ordered in
    let sizes = (fail_if-ok_iff _ collection_too_large).0 small in
    record {
      schema_version =
          (int_is_iff m.schema_version 1).0
            ((fail_if-ok_iff _ unsupported_schema_version).0 version);
      network_id = (check_network_id-ok_iff m.network_id).0 network;
      node_id = (check_node_id-ok_iff m.node_id).0 node;
      created = ground arith;
      updated = ground arith;
      few_assignments = ground arith;
      few_capabilities = ground arith;
      few_tags = ground arith;
      valid_assignments = values.0;
      distinct_assignments = values.1;
      distinct_capabilities = values.2;
      distinct_tags = values.3;
    }

IsValidMember-checks : (m : Member) → IsValidMember m → All (λ c. c ≡ ok tt) (checks m)
IsValidMember-checks m v =
    let version =
      (fail_if-ok_iff _ unsupported_schema_version).1
        ((int_is_iff m.schema_version 1).1 v.schema_version) in
    let network = (check_network_id-ok_iff m.network_id).1 v.network_id in
    let node = (check_node_id-ok_iff m.node_id).1 v.node_id in
    let stamped = (fail_if-ok_iff _ missing_timestamps).1 (ground (arith, v.created, v.updated)) in
    let ordered = (fail_if-ok_iff _ updated_before_created).1 (ground (arith, v.updated)) in
    let small =
      (fail_if-ok_iff _ collection_too_large).1
        (ground (arith, v.few_assignments, v.few_capabilities, v.few_tags)) in
    let unique =
      (values-ok_iff m).1
        (v.valid_assignments, v.distinct_assignments, v.distinct_capabilities, v.distinct_tags) in
    (version, (network, (node, (stamped, (ordered, (small, (unique, tt)))))))

-- `Member.Validate` accepts exactly the members with schema version 1, identifiers of 16 and 10
-- lower-case hexadecimal digits, a creation time that is set and not after the update, at most
-- 16384 entries of a kind, valid addresses, and no address, capability or tag twice.
pub validate_member-ok_iff : (m : Member) → (validate_member m ≡ ok tt) ↔ IsValidMember m
validate_member-ok_iff m =
    let all = chain-ok_iff (checks m) in
    (
      λ h. checks-IsValidMember m (all.0 (rw (validate_member-chain m) at h)),
      λ v. rw (validate_member-chain m) (all.1 (IsValidMember-checks m v)),
    )
