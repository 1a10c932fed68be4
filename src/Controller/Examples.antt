-- ===== src/Controller/Examples.antt =====
-- Calls of the service on concrete input, and the theorems at concrete input.
use mathlib.Core.Path.{subst}
use ztgotroller.Base.{
  get_be_from, replicate, ◌++◌, hex_encode, hex_decode, hex_digit, put_be, ◌+◌, ◌≡◌, ◌⊎◌, refl,
  true, false, List, [], ◌∷◌, ascii, none, some, ok, err, find, check_each, has_duplicate,
  hex_digit_value, parse_hex, parse_hex_from, put, is_among,
}
use ztgotroller.Controller.{
  Service, register_member, set_member_authorization, validate_owned_network, save_authorized,
  member_has_specialist_role,
}
use ztgotroller.Controller.Addresses.{
  ensure_automatic_assignments, assign_addresses, new_addresses, first_available_address,
  scan_pools, scan_pool, address_has_managed_route, has_address_family,
}
use ztgotroller.Controller.Addresses.Ensured.{IsEnsured, ensure_automatic_assignments-IsEnsured}
use ztgotroller.Controller.Addresses.Search.{IsAvailable, first_available_address-IsAvailable}
use ztgotroller.Controller.Authorization.{IsAuthorized, set_member_authorization-IsAuthorized}
use ztgotroller.Controller.Config.{Issue, handle_config_request, answer_request, config_error_reply}
use ztgotroller.Chunks.{wrap_error}
use ztgotroller.Identity.{Identity, no_key}
use ztgotroller.Packet.Header.{Decoded}
use ztgotroller.Request.{parse_request, parse_state, agent_metadata}
use ztgotroller.Dictionary.Parse.{
  parse_metadata, parse_entries, index_byte, split_lines, split_lines_from, is_line_break,
  parse_lines, parse_line, has_invalid_byte, unescape_value, unescape_from, unescape_byte,
  insert_first, lookup, hex_uint, hex_uint_value, hex_uint_from, nibble_of,
}
use ztgotroller.Controller.Calls.{
  handles_config_request, Call, creates_network, registers_member, sets_authorization, perform_all,
  perform_all-IsControlled,
}
use ztgotroller.Controller.Members.{register_member-idempotent, register_member-unauthorized}
use ztgotroller.Controller.Operations.{IsService}
use ztgotroller.Controller.Preserved.{IsControlled}
use ztgotroller.Domain.Ids.{
  NetworkId, NodeId, has_uppercase, parse_network_id, validate_hex_id, parse_node_id, controller_id,
  id_bytes,
}
use ztgotroller.Domain.Members.{
  AgentMetadata, validate_metadata, Member, validate_member, new_member, check_assignments,
  validate_unique_member_values,
}
use ztgotroller.Domain.Networks.{
  Network, new_network, validate_network, validate_collection_sizes, validate_dns, validate_rule,
  validate_unique_definitions,
}
use ztgotroller.Netip.{
  ip4, zero_addr, prefix, is_valid, is4, addr_above, addr_next, prefix_contains, addr_eq,
}
use ztgotroller.Store.{
  Store, Context, new_store, get_network, upsert_agent_metadata, not_found, get_member,
  create_network, create_member, save_member,
}
use ztgotroller.Store.Listing.{list_members}
use ztgotroller.Store.Invariant.{IsStore}
use ztgotroller.Store.Steps.{run, run-IsStore, apply, creates_member}
use ztgotroller.Store.Steps.{creates_network as stores_network}

abbrev network_id : NetworkId
network_id = ascii "8056c2e21c000001"

abbrev node_id : NodeId
node_id = ascii "00000000ff"

abbrev service : Service
service = record { controller = ascii "8056c2e21c"; notifies = true }

service-IsService : IsService service
unfolding parse_node_id validate_hex_id parse_hex parse_hex_from hex_digit_value has_uppercase
service-IsService = record { valid = refl }

-- The member's config request, with the metadata `o` and `vend`, and what issues two chunks.
abbrev member_identity : Identity
member_identity = record {
  address = node_id;
  public_key = replicate 64 1;
  private_key = no_key;
  has_private = false;
}

abbrev controller_identity : Identity
controller_identity = record {
  address = ascii "8056c2e21c";
  public_key = replicate 64 2;
  private_key = replicate 64 3;
  has_private = true;
}

abbrev config_request : Decoded
config_request = record {
  routing = record {
    packet_id = 77;
    destination = ascii "8056c2e21c";
    source = node_id;
    flags = 0;
    hops = 0;
    cipher = 8;
    fragmented = false;
    extended_armor = false;
  };
  authenticator = replicate 8 0;
  verb = 0x0b;
  compressed = false;
  payload =
      (0x80 ∷ 0x56 ∷ 0xc2 ∷ 0xe2 ∷ 0x1c ∷ 0 ∷ 0 ∷ 1 ∷ 0 ∷ 12 ∷ [])
      ++ (ascii "o=x" ++ (10 ∷ (ascii "vend=1f" ++ (10 ∷ []))));
}

two_chunks : Issue
two_chunks input = ok ((1 ∷ []) ∷ (2 ∷ []) ∷ [])

abbrev request_call : Call
request_call =
    handles_config_request two_chunks config_request member_identity controller_identity
      (λ i. 20 + i)

abbrev calls : List (Context × Call)
calls =
    (none, creates_network 1 (ascii "home") 5)
    ∷ (none, registers_member network_id node_id 6)
    ∷ (none, sets_authorization network_id node_id true 1 (λ i. 7 + i))
    ∷ (none, request_call)
    ∷ []

perform_all-IsControlled_example : IsControlled service (perform_all service calls new_store)
perform_all-IsControlled_example = perform_all-IsControlled service calls service-IsService

-- A store with one network, and with a member.
abbrev home : Network
home = new_network network_id 5

abbrev laptop : Member
laptop = record (new_member network_id node_id 6) { revision = 1 }

abbrev store_of : List (NodeId × Member) → Store
store_of members = record {
  networks = (network_id, record home { revision = 1 }) ∷ [];
  members = (network_id, members) ∷ [];
  metadata = [];
}

abbrev empty_home : Store
empty_home = record {
  networks = (network_id, record home { revision = 1 }) ∷ [];
  members = [];
  metadata = [];
}

register-laptop :
    register_member service none network_id node_id 6 empty_home
    ≡ (ok laptop, store_of ((node_id, laptop) ∷ []))
unfolding register_member validate_owned_network controller_id parse_network_id validate_hex_id
    parse_hex parse_hex_from hex_digit_value has_uppercase get_member create_member find put
    new_member validate_member parse_node_id validate_unique_member_values check_assignments
    has_duplicate
register-laptop = refl

register_member-idempotent_example :
    register_member service none network_id node_id 60 (store_of ((node_id, laptop) ∷ []))
    ≡ (ok laptop, store_of ((node_id, laptop) ∷ []))
register_member-idempotent_example =
    register_member-idempotent service none network_id node_id 6 60 empty_home register-laptop

no_laptop : get_member none network_id node_id empty_home ≡ err not_found
unfolding get_member find
no_laptop = refl

register_member-unauthorized_example :
    (laptop.authorized ≡ false)
    × (get_member none network_id node_id (store_of ((node_id, laptop) ∷ [])) ≡ ok laptop)
register_member-unauthorized_example =
    register_member-unauthorized service none network_id node_id 6 empty_home no_laptop
      register-laptop

-- The request of an unknown member registers it, keeps its report, and is refused.
abbrev laptop_report : AgentMetadata
laptop_report = record {
  network_id = network_id;
  node_id = node_id;
  target = ascii "x";
  vendor = 31;
  protocol = 0;
  major = 0;
  minor = 0;
  revision = 0;
  rules_engine_revision = 0;
  max_rules = 0;
  max_capabilities = 0;
  max_capability_rules = 0;
  max_tags = 0;
  updated_at = 21;
}

request-unknown :
    handle_config_request service none two_chunks config_request member_identity controller_identity
      (λ i. 20 + i)
      empty_home
    ≡ (
      ok (
          record {
            verb = 2;
            payload =
                0x0b ∷ 0 ∷ 0 ∷ 0 ∷ 0 ∷ 0 ∷ 0 ∷ 0 ∷ 77 ∷ 7 ∷ 0x80 ∷ 0x56 ∷ 0xc2 ∷ 0xe2 ∷ 0x1c ∷ 0 ∷ 0
                ∷ 1 ∷ [];
          }
          ∷ []),
      record (store_of
          ((node_id, record (new_member network_id node_id 20) { revision = 1 }) ∷ [])) {
            metadata = (network_id, (node_id, laptop_report) ∷ []) ∷ [];
          },
    )
unfolding handle_config_request parse_request parse_state agent_metadata answer_request
    config_error_reply wrap_error parse_metadata parse_entries index_byte split_lines
    split_lines_from is_line_break parse_lines parse_line has_invalid_byte unescape_value
    unescape_from unescape_byte insert_first lookup hex_uint hex_uint_value hex_uint_from nibble_of
    hex_encode hex_decode hex_digit get_network upsert_agent_metadata validate_metadata
    register_member validate_owned_network controller_id parse_network_id validate_hex_id parse_hex
    parse_hex_from hex_digit_value has_uppercase get_member create_member find put new_member
    validate_member parse_node_id validate_unique_member_values check_assignments has_duplicate
    id_bytes put_be get_be_from
request-unknown = refl

abbrev one_member : Store
one_member = store_of ((node_id, laptop) ∷ [])

run-one_member :
    run
      ((none, stores_network home) ∷ (none, creates_member (new_member network_id node_id 6)) ∷ [])
      new_store
    ≡ one_member
unfolding run apply create_network create_member validate_member parse_network_id validate_hex_id
    parse_hex parse_hex_from hex_digit_value has_uppercase parse_node_id
    validate_unique_member_values check_assignments has_duplicate find put check_each is_among
    validate_collection_sizes validate_dns validate_network validate_rule
    validate_unique_definitions new_network new_member
run-one_member = refl

one_member-IsStore : IsStore one_member
one_member-IsStore = subst IsStore run-one_member (
    run-IsStore
      ((none, stores_network home) ∷ (none, creates_member (new_member network_id node_id 6)) ∷ []))

abbrev authorized_laptop : Member
authorized_laptop = record laptop {
  authorized = true;
  last_authorized_at = 7;
  updated_at = 8;
  revision = 2;
}

authorize-laptop :
    set_member_authorization service none network_id node_id true 1 (λ i. 7 + i) one_member
    ≡ (ok (authorized_laptop, none), store_of ((node_id, authorized_laptop) ∷ []))
unfolding set_member_authorization save_authorized validate_owned_network controller_id
    parse_network_id validate_hex_id parse_hex parse_hex_from hex_digit_value has_uppercase
    get_member save_member find put new_member validate_member parse_node_id
    validate_unique_member_values check_assignments has_duplicate member_has_specialist_role
authorize-laptop = refl

set_member_authorization-IsAuthorized_example :
    IsAuthorized service none network_id node_id true 1 one_member
      (store_of ((node_id, authorized_laptop) ∷ []))
      authorized_laptop
      none
set_member_authorization-IsAuthorized_example =
    set_member_authorization-IsAuthorized service none network_id node_id true 1 (λ i. 7 + i)
      one_member one_member-IsStore authorize-laptop

-- 10.0.0.1 to 10.0.0.3, with a route for 10.0.0.0/8.
abbrev pooled : Network
pooled = record home {
  assignment = record {
    ipv4_zerotier = true;
    ipv6_zerotier = false;
    ipv6_rfc4193 = false;
    ipv6_six_plane = false;
  };
  routes = record { target = prefix (ip4 167772160) 8; via = zero_addr } ∷ [];
  ip_pools = record { start = ip4 167772161; end = ip4 167772163 } ∷ [];
}

first_free : first_available_address pooled (ip4 167772161 ∷ []) true ≡ some (ip4 167772162)
unfolding first_available_address scan_pools scan_pool is4 is_valid addr_above addr_next is_among
    addr_eq address_has_managed_route prefix_contains
first_free = refl

first_available_address-IsAvailable_example :
    IsAvailable pooled.routes (ip4 167772161 ∷ []) true pooled.ip_pools (ip4 167772162)
first_available_address-IsAvailable_example =
    first_available_address-IsAvailable pooled (ip4 167772161 ∷ []) true first_free

abbrev assigned_laptop : Member
assigned_laptop = record laptop {
  ip_assignments = ip4 167772161 ∷ [];
  updated_at = 9;
  revision = 2;
}

assign-laptop :
    ensure_automatic_assignments none pooled laptop 9 one_member
    ≡ (ok assigned_laptop, store_of ((node_id, assigned_laptop) ∷ []))
unfolding ensure_automatic_assignments assign_addresses new_addresses has_address_family
    first_available_address scan_pools scan_pool is4 is_valid addr_above addr_next is_among addr_eq
    address_has_managed_route prefix_contains list_members get_member save_member find put
    new_member new_network validate_member parse_network_id validate_hex_id parse_hex parse_hex_from
    hex_digit_value has_uppercase parse_node_id validate_unique_member_values check_assignments
    has_duplicate
assign-laptop = refl

ensure_automatic_assignments-IsEnsured_example :
    ((assigned_laptop ≡ laptop) × (store_of ((node_id, assigned_laptop) ∷ []) ≡ one_member))
    ⊎ IsEnsured none pooled laptop.node_id one_member assigned_laptop
        (store_of ((node_id, assigned_laptop) ∷ []))
ensure_automatic_assignments-IsEnsured_example =
    ensure_automatic_assignments-IsEnsured none pooled laptop 9 one_member one_member-IsStore
      assign-laptop
