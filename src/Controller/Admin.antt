-- ===== src/Controller/Admin.antt =====
-- `admin.go`: the operations of the administrator. Copies of lists and maps are the value.
use ztgotroller.Base.{ℕ, Bool, not, ◌&&◌, ◌||◌, List, Bytes, Option, ◌==◌, ltb, ℤ}
use ztgotroller.Controller.{
  Service, Clock, validate_owned_network, member_has_specialist_role, bump_if, bool_eq,
  create_random_loop,
}
use ztgotroller.Controller.Actions.{
  Action, store_error, sequence_too_large, ◌>>=◌, ◌>>◌, fail_when, reading, writing, checked_value,
}
use ztgotroller.Domain.Ids.{NetworkId, NodeId, new_network_id}
use ztgotroller.Domain.Members.{Member, AgentMetadata, TagValue, validate_member}
use ztgotroller.Domain.Networks.{
  Network, new_network, AssignmentModes, Route, IpPool, DnsConfig, Rule, Capability, TagDefinition,
  validate_network,
}
use ztgotroller.Netip.{Addr, Time}
use ztgotroller.Store.{
  Context, conflict, create_network, get_network, save_network, delete_network, get_member,
  save_member, delete_member, get_agent_metadata,
}
use ztgotroller.Store.Listing.{list_networks, list_members}

pub record NetworkUpdate : Type 0 where
  pub name : Bytes
  pub private : Bool
  pub mtu : ℤ
  pub multicast_limit : ℤ
  pub enable_broadcast : Bool
  pub assignment : AssignmentModes
  pub routes : List Route
  pub ip_pools : List IpPool
  pub dns : Option DnsConfig
  pub rules : List Rule
  pub capabilities : List Capability
  pub tags : List TagDefinition
  pub auth_tokens : List (Bytes × ℕ)
  pub rules_source : Bytes
  pub remote_trace_target : Bytes
  pub remote_trace_level : ℕ
  pub sso_enabled : Bool

pub record MemberUpdate : Type 0 where
  pub name : Bytes
  pub active_bridge : Bool
  pub network_relay : Bool
  pub multicast_replicator : Bool
  pub no_auto_assign : Bool
  pub ip_assignments : List Addr
  pub capabilities : List ℕ
  pub tags : List TagValue
  pub authentication_expiry_time : ℕ
  pub authentication_url : Bytes
  pub remote_trace_target : Bytes
  pub remote_trace_level : ℕ
  pub sso_exempt : Bool

-- `GetNetwork`, `GetMember` and `GetAgentMetadata` of the service.
unfoldable pub get_owned_network : Service → Context → NetworkId → Action Network
get_owned_network service context id = do
  validate_owned_network service id
  reading (get_network context id)

unfoldable pub get_owned_member : Service → Context → NetworkId → NodeId → Action Member
get_owned_member service context id node_id = do
  validate_owned_network service id
  reading (get_member context id node_id)

unfoldable pub get_owned_metadata : Service → Context → NetworkId → NodeId → Action AgentMetadata
get_owned_metadata service context id node_id = do
  validate_owned_network service id
  reading (get_agent_metadata context id node_id)

-- `ListNetworks` and `ListMembers` of the service.
unfoldable pub list_controller_networks : Service → Context → Action (List Network)
list_controller_networks service context = reading (list_networks context)

unfoldable pub list_owned_members : Service → Context → NetworkId → Action (List Member)
list_owned_members service context id = do
  validate_owned_network service id
  _ ← reading (get_network context id)
  reading (list_members context id)

unfoldable pub apply_network_update : NetworkUpdate → Network → Network
apply_network_update update network = record network {
  name = update.name;
  private = update.private;
  mtu = update.mtu;
  multicast_limit = update.multicast_limit;
  enable_broadcast = update.enable_broadcast;
  assignment = update.assignment;
  routes = update.routes;
  ip_pools = update.ip_pools;
  dns = update.dns;
  rules = update.rules;
  capabilities = update.capabilities;
  tags = update.tags;
  auth_tokens = update.auth_tokens;
  rules_source = update.rules_source;
  remote_trace_target = update.remote_trace_target;
  remote_trace_level = update.remote_trace_level;
  sso_enabled = update.sso_enabled;
}

-- `CreateNetworkWithUpdate` and `CreateRandomNetworkWithUpdate` of service.go.
unfoldable pub create_network_with_update :
    Service → Context → ℕ → NetworkUpdate → Time → Action Network
create_network_with_update service context sequence update now = do
  fail_when (ltb 0x00ffffff sequence) sequence_too_large
  let id = new_network_id service.controller sequence
  let network = apply_network_update update (new_network id now)
  checked_value (validate_network network)
  writing (create_network context network)
  reading (get_network context id)

unfoldable pub create_random_network_with_update :
    Service → Context → NetworkUpdate → (ℕ → Option Bytes) → Clock → Action Network
create_random_network_with_update service context update random clock =
    create_random_loop random
      (λ number sequence. create_network_with_update service context sequence update (clock number))
      0 100000

unfoldable pub update_network :
    Service → Context → NetworkId → NetworkUpdate → ℕ → Time → Action Network
update_network service context id update revision now = do
  validate_owned_network service id
  network ← reading (get_network context id)
  fail_when (not (network.revision == revision)) (store_error conflict)
  let updated = record (apply_network_update update network) { updated_at = now }
  checked_value (validate_network updated)
  writing (save_network context updated)
  reading (get_network context id)

unfoldable pub delete_owned_network : Service → Context → NetworkId → Action (Unit {0})
delete_owned_network service context id = do
  validate_owned_network service id
  network ← reading (get_network context id)
  writing (delete_network context id network.revision)

unfoldable pub delete_owned_member :
    Service → Context → NetworkId → NodeId → Time → Action (Unit {0})
delete_owned_member service context id node_id now = do
  validate_owned_network service id
  member ← reading (get_member context id node_id)
  bump_if (member.authorized && member_has_specialist_role member) context id now
  writing (delete_member context id node_id member.revision)

unfoldable pub specialists_changed : MemberUpdate → Member → Bool
specialists_changed update member =
    member.authorized
    && (not (bool_eq member.active_bridge update.active_bridge)
        || not (bool_eq member.network_relay update.network_relay)
        || not (bool_eq member.multicast_replicator update.multicast_replicator))

unfoldable pub apply_member_update : MemberUpdate → Time → Member → Member
apply_member_update update now member = record member {
  active_bridge = update.active_bridge;
  network_relay = update.network_relay;
  multicast_replicator = update.multicast_replicator;
  name = update.name;
  no_auto_assign = update.no_auto_assign;
  ip_assignments = update.ip_assignments;
  capabilities = update.capabilities;
  tags = update.tags;
  authentication_expiry_time = update.authentication_expiry_time;
  authentication_url = update.authentication_url;
  remote_trace_target = update.remote_trace_target;
  remote_trace_level = update.remote_trace_level;
  sso_exempt = update.sso_exempt;
  updated_at = now;
}

-- The times are those of the member's update and of the network's.
unfoldable pub update_member :
    Service → Context → NetworkId → NodeId → MemberUpdate → ℕ → Clock → Action Member
update_member service context id node_id update revision clock = do
  validate_owned_network service id
  member ← reading (get_member context id node_id)
  fail_when (not (member.revision == revision)) (store_error conflict)
  let updated = apply_member_update update (clock 0) member
  checked_value (validate_member updated)
  writing (save_member context updated)
  bump_if (specialists_changed update member) context id (clock 1)
  reading (get_member context id node_id)
