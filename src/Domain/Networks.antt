-- ===== src/Domain/Networks.antt =====
-- internal/domain/network.go: the record of a network and its validation.
pub mod Valid
pub mod Laws
use ztgotroller.Base.{
  nat_eq, ℕ, Bool, true, false, ◌&&◌, ◌||◌, not, List, [], ◌∷◌, Bytes, ascii, Option, none, some,
  length, ltb, ◌==◌, map, has_duplicate, check_each, ℤ, pos, int_below, int_above, int_is, Result,
  ok, err, ◌>>=◌, ◌>>◌, fail_if, if◌then◌else◌,
}
use ztgotroller.Domain.Ids.{IdError, NetworkId, parse_network_id}
use ztgotroller.Netip.{Addr, is_valid, is4, addr_above, Prefix, prefix_is_valid, prefix_addr, Time}

pub data DomainError : Type 0 where
  invalid_id : IdError → DomainError
  unsupported_schema_version mtu_out_of_range negative_multicast_limit : DomainError
  missing_timestamps updated_before_created collection_too_large : DomainError
  invalid_route_target route_family_mismatch invalid_pool_endpoint unordered_pool : DomainError
  rule_without_type duplicate_capability duplicate_tag invalid_dns_server : DomainError
  invalid_assignment duplicate_assignment target_too_long missing_update_time : DomainError

abbrev pub current_schema_version : ℕ
current_schema_version = 1

abbrev pub default_mtu : ℕ
default_mtu = 2800

abbrev pub min_mtu : ℕ
min_mtu = 1280

abbrev pub max_mtu : ℕ
max_mtu = 10000

abbrev pub default_multicast_limit : ℕ
default_multicast_limit = 32

abbrev pub max_collection_size : ℕ
max_collection_size = 16384

pub record AssignmentModes : Type 0 where
  pub ipv4_zerotier : Bool
  pub ipv6_zerotier : Bool
  pub ipv6_rfc4193 : Bool
  pub ipv6_six_plane : Bool

pub record Route : Type 0 where
  pub target : Prefix
  pub via : Addr

pub record IpPool : Type 0 where
  pub start : Addr
  pub end : Addr

pub record DnsConfig : Type 0 where
  pub domain : Bytes
  pub servers : List Addr

-- A parameter is the text of a JSON value.
pub record Rule : Type 0 where
  pub type : Bytes
  pub negate : Bool
  pub or : Bool
  pub parameters : List (Bytes × Bytes)

pub record Capability : Type 0 where
  pub id : ℕ
  pub default : Bool
  pub rules : List Rule

pub record TagDefinition : Type 0 where
  pub id : ℕ
  pub default : Option ℕ

pub record Network : Type 0 where
  pub schema_version : ℤ
  pub id : NetworkId
  pub name : Bytes
  pub private : Bool
  pub mtu : ℤ
  pub multicast_limit : ℤ
  pub enable_broadcast : Bool
  pub assignment : AssignmentModes
  pub routes : List Route
  pub ip_pools : List IpPool
  pub dns : Option DnsConfig
  pub rules : List Rule
  pub capabilities : List Capability
  pub tags : List TagDefinition
  pub auth_tokens : List (Bytes × ℕ)
  pub rules_source : Bytes
  pub remote_trace_target : Bytes
  pub remote_trace_level : ℕ
  pub sso_enabled : Bool
  pub created_at : Time
  pub updated_at : Time
  pub revision : ℕ

unfoldable pub new_network : NetworkId → Time → Network
new_network id now = record {
  schema_version = pos current_schema_version;
  id = id;
  name = [];
  private = true;
  mtu = pos default_mtu;
  multicast_limit = pos default_multicast_limit;
  enable_broadcast = true;
  assignment = record {
    ipv4_zerotier = false;
    ipv6_zerotier = false;
    ipv6_rfc4193 = false;
    ipv6_six_plane = false;
  };
  routes = [];
  ip_pools = [];
  dns = none;
  rules = record { type = ascii "ACTION_ACCEPT"; negate = false; or = false; parameters = [] } ∷ [];
  capabilities = [];
  tags = [];
  auth_tokens = [];
  rules_source = [];
  remote_trace_target = [];
  remote_trace_level = 0;
  sso_enabled = false;
  created_at = now;
  updated_at = now;
  revision = 0;
}

abbrev pub from_id_error {ℓ} : {A : Type ℓ} → Result IdError A → Result DomainError (Unit {0})
from_id_error (ok _) = ok tt
from_id_error (err e) = err (invalid_id e)

-- Go ranges over a map of the five sizes; the order only decides which name an error shows.
unfoldable pub validate_collection_sizes : Network → Result DomainError (Unit {0})
validate_collection_sizes network =
    fail_if
      (ltb max_collection_size (length network.routes)
        || ltb max_collection_size (length network.ip_pools)
        || ltb max_collection_size (length network.rules)
        || ltb max_collection_size (length network.capabilities)
        || ltb max_collection_size (length network.tags))
      collection_too_large

unfoldable pub validate_unique_definitions :
    List Capability → List TagDefinition → Result DomainError (Unit {0})
validate_unique_definitions capabilities tags = do
  fail_if (has_duplicate [] (map (λ (c : Capability). c.id) capabilities)) duplicate_capability
  fail_if (has_duplicate [] (map (λ (t : TagDefinition). t.id) tags)) duplicate_tag

abbrev pub differ : Bool → Bool → Bool
differ true b = not b
differ false b = b

unfoldable pub validate_route : Route → Result DomainError (Unit {0})
validate_route route = do
  fail_if (not (prefix_is_valid route.target)) invalid_route_target
  fail_if (is_valid route.via && differ (is4 route.via) (is4 (prefix_addr route.target)))
      route_family_mismatch

unfoldable pub validate_pool : IpPool → Result DomainError (Unit {0})
validate_pool pool = do
  fail_if (not (is_valid pool.start) || not (is_valid pool.end)) invalid_pool_endpoint
  fail_if (differ (is4 pool.start) (is4 pool.end) || addr_above pool.start pool.end) unordered_pool

unfoldable pub validate_rule : Rule → Result DomainError (Unit {0})
validate_rule rule = fail_if (length rule.type == 0) rule_without_type

unfoldable pub validate_dns : Option DnsConfig → Result DomainError (Unit {0})
validate_dns none = ok tt
validate_dns (some dns) =
    check_each (λ server. fail_if (not (is_valid server)) invalid_dns_server) dns.servers

-- `Network.Validate`.
unfoldable pub validate_network : Network → Result DomainError (Unit {0})
validate_network network = do
  from_id_error (parse_network_id network.id)
  fail_if (not (int_is network.schema_version current_schema_version)) unsupported_schema_version
  fail_if (int_below network.mtu min_mtu || int_above network.mtu max_mtu) mtu_out_of_range
  fail_if (int_below network.multicast_limit 0) negative_multicast_limit
  fail_if (network.created_at == 0 || network.updated_at == 0) missing_timestamps
  fail_if (ltb network.updated_at network.created_at) updated_before_created
  validate_collection_sizes network
  check_each validate_route network.routes
  check_each validate_pool network.ip_pools
  check_each validate_rule network.rules
  validate_unique_definitions network.capabilities network.tags
  validate_dns network.dns
