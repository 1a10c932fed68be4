-- ===== src/Domain/Members.antt =====
-- internal/domain/member.go: the records of a member and of what its agent reports, and their
-- validation.
pub mod Laws
use ztgotroller.Base.{
  nat_eq, ℕ, Bool, false, ◌||◌, not, List, [], ◌∷◌, Bytes, length, ltb, ◌==◌, map, is_among,
  has_duplicate, ℤ, pos, int_is, Result, ok, err, ◌>>=◌, ◌>>◌, fail_if,
}
use ztgotroller.Domain.Ids.{NetworkId, NodeId, parse_network_id, parse_node_id}
use ztgotroller.Domain.Networks.{
  DomainError, unsupported_schema_version, missing_timestamps, updated_before_created,
  collection_too_large, duplicate_capability, duplicate_tag, invalid_assignment,
  duplicate_assignment, target_too_long, missing_update_time, current_schema_version,
  max_collection_size, from_id_error,
}
use ztgotroller.Netip.{Addr, addr_keys, is_valid, Time}

pub record TagValue : Type 0 where
  pub id : ℕ
  pub value : ℕ

pub record Member : Type 0 where
  pub schema_version : ℤ
  pub network_id : NetworkId
  pub node_id : NodeId
  pub authorized : Bool
  pub name : Bytes
  pub active_bridge : Bool
  pub network_relay : Bool
  pub multicast_replicator : Bool
  pub no_auto_assign : Bool
  pub ip_assignments : List Addr
  pub capabilities : List ℕ
  pub tags : List TagValue
  pub authentication_expiry_time : ℕ
  pub authentication_url : Bytes
  pub remote_trace_target : Bytes
  pub remote_trace_level : ℕ
  pub sso_exempt : Bool
  pub last_authorized_at : Time
  pub last_deauthorized_at : Time
  pub created_at : Time
  pub updated_at : Time
  pub revision : ℕ

pub record AgentMetadata : Type 0 where
  pub network_id : NetworkId
  pub node_id : NodeId
  pub target : Bytes
  pub vendor : ℕ
  pub protocol : ℕ
  pub major : ℕ
  pub minor : ℕ
  pub revision : ℕ
  pub rules_engine_revision : ℕ
  pub max_rules : ℕ
  pub max_capabilities : ℕ
  pub max_capability_rules : ℕ
  pub max_tags : ℕ
  pub updated_at : Time

-- `AgentMetadata.Validate`.
unfoldable pub validate_metadata : AgentMetadata → Result DomainError (Unit {0})
validate_metadata metadata = do
  from_id_error (parse_network_id metadata.network_id)
  from_id_error (parse_node_id metadata.node_id)
  fail_if (ltb 128 (length metadata.target)) target_too_long
  fail_if (metadata.updated_at == 0) missing_update_time

unfoldable pub new_member : NetworkId → NodeId → Time → Member
new_member network_id node_id now = record {
  schema_version = pos current_schema_version;
  network_id = network_id;
  node_id = node_id;
  authorized = false;
  name = [];
  active_bridge = false;
  network_relay = false;
  multicast_replicator = false;
  no_auto_assign = false;
  ip_assignments = [];
  capabilities = [];
  tags = [];
  authentication_expiry_time = 0;
  authentication_url = [];
  remote_trace_target = [];
  remote_trace_level = 0;
  sso_exempt = false;
  last_authorized_at = 0;
  last_deauthorized_at = 0;
  created_at = now;
  updated_at = now;
  revision = 0;
}

-- The loop over the addresses, with the set of those before.
unfoldable pub check_assignments : List Addr → List Addr → Result DomainError (Unit {0})
check_assignments seen [] = ok tt
check_assignments seen (address ∷ rest) = do
  fail_if (not (is_valid address)) invalid_assignment
  fail_if (is_among address seen) duplicate_assignment
  check_assignments (address ∷ seen) rest

unfoldable pub validate_unique_member_values : Member → Result DomainError (Unit {0})
validate_unique_member_values member = do
  check_assignments [] member.ip_assignments
  fail_if (has_duplicate [] member.capabilities) duplicate_capability
  fail_if (has_duplicate [] (map (λ (t : TagValue). t.id) member.tags)) duplicate_tag

-- `Member.Validate`.
unfoldable pub validate_member : Member → Result DomainError (Unit {0})
validate_member member = do
  fail_if (not (int_is member.schema_version current_schema_version)) unsupported_schema_version
  from_id_error (parse_network_id member.network_id)
  from_id_error (parse_node_id member.node_id)
  fail_if (member.created_at == 0 || member.updated_at == 0) missing_timestamps
  fail_if (ltb member.updated_at member.created_at) updated_before_created
  fail_if
      (ltb max_collection_size (length member.ip_assignments)
        || ltb max_collection_size (length member.capabilities)
        || ltb max_collection_size (length member.tags))
      collection_too_large
  validate_unique_member_values member
