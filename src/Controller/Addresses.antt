-- ===== src/Controller/Addresses.antt =====
-- `ipam.go`: the addresses that the controller assigns by itself. The mutex makes the part behind it
-- one step.
pub mod Search
pub mod Assigned
pub mod Ensured
use ztgotroller.Base.{
  ℕ, zero, suc, Bool, true, false, not, ◌&&◌, ◌||◌, List, [], ◌∷◌, ◌++◌, Option, none, some, length,
  ◌==◌, is_among, map, if◌then◌else◌,
}
use ztgotroller.Controller.{bool_eq}
use ztgotroller.Controller.Actions.{Action, ◌>>=◌, ◌>>◌, return, reading, writing, checked_value}
use ztgotroller.Domain.Ids.{NetworkId}
use ztgotroller.Domain.Members.{Member, validate_member}
use ztgotroller.Domain.Networks.{Network, Route, IpPool}
use ztgotroller.Netip.{Addr, addr_keys, is_valid, is4, addr_above, addr_next, prefix_contains, Time}
use ztgotroller.Store.{Context, get_member, save_member}
use ztgotroller.Store.Listing.{list_members}

abbrev pub max_ipam_pool_scan : ℕ
max_ipam_pool_scan = 1048576

unfoldable pub address_has_managed_route : List Route → Addr → Bool
address_has_managed_route [] address = false
address_has_managed_route (route ∷ routes) address =
    prefix_contains route.target address || address_has_managed_route routes address

unfoldable pub has_address_family : List Addr → Bool → Bool
has_address_family [] ipv4 = false
has_address_family (address ∷ addresses) ipv4 =
    bool_eq (is4 address) ipv4 || has_address_family addresses ipv4

-- How the loop over a pool ends: with an address, with too many addresses scanned, or at the end of
-- the pool with so many that may still be scanned.
pub data Scan : Type 0 where
  found : Addr → Scan
  gave_up : Scan
  passed : ℕ → Scan

abbrev pub is_past : Addr → Addr → Bool
is_past candidate end = not (is_valid candidate) || addr_above candidate end

abbrev pub is_taken : List Route → List Addr → Addr → Bool
is_taken routes used candidate =
    is_among candidate used || not (address_has_managed_route routes candidate)

-- The inner loop of `firstAvailableAddress`, on how many addresses may still be scanned.
unfoldable pub scan_pool : List Route → List Addr → Addr → ℕ → Addr → Scan
scan_pool routes used end zero candidate = if is_past candidate end then passed zero else gave_up
scan_pool routes used end (suc left) candidate = elim (is_past candidate end) [
  | true ↦ passed (suc left)
  | false ↦ elim (is_taken routes used candidate) [
    | true ↦ scan_pool routes used end left (addr_next candidate)
    | false ↦ found candidate
  ]
]

-- The outer loop.
unfoldable pub scan_pools : List Route → List Addr → Bool → ℕ → List IpPool → Option Addr
scan_pools routes used ipv4 left [] = none
scan_pools routes used ipv4 left (pool ∷ pools) = elim (bool_eq (is4 pool.start) ipv4) [
  | false ↦ scan_pools routes used ipv4 left pools
  | true ↦ elim (scan_pool routes used pool.end left pool.start) [
    | found address ↦ some address
    | gave_up ↦ none
    | passed more ↦ scan_pools routes used ipv4 more pools
  ]
]

unfoldable pub first_available_address : Network → List Addr → Bool → Option Addr
first_available_address network used ipv4 =
    scan_pools network.routes used ipv4 max_ipam_pool_scan network.ip_pools

-- The set of the addresses of all members.
abbrev pub used_addresses : List Member → List Addr
used_addresses [] = []
used_addresses (member ∷ members) = member.ip_assignments ++ used_addresses members

-- `if need { if address, ok := firstAvailableAddress(...) }`
abbrev pub wanted_address : Bool → Network → List Addr → Bool → Option Addr
wanted_address true network used ipv4 = first_available_address network used ipv4
wanted_address false network used ipv4 = none

abbrev pub as_list : Option Addr → List Addr
as_list none = []
as_list (some address) = address ∷ []

-- The new addresses, an IPv4 address before an IPv6 one.
unfoldable pub new_addresses : Network → List Addr → Bool → Bool → List Addr
new_addresses network used need4 need6 =
    let four = as_list (wanted_address need4 network used true) in
    four ++ as_list (wanted_address need6 network (four ++ used) false)

abbrev pub needs_family : Bool → Member → Bool → Bool
needs_family enabled member ipv4 = enabled && not (has_address_family member.ip_assignments ipv4)

abbrev pub save_assigned : Context → NetworkId → Time → List Addr → Member → Action Member
save_assigned context id now [] current = return current
save_assigned context id now (a ∷ addresses) current = do
  let changed = record current {
    ip_assignments = current.ip_assignments ++ (a ∷ addresses);
    updated_at = now;
  }
  checked_value (validate_member changed)
  writing (save_member context changed)
  reading (get_member context id current.node_id)

-- Behind the mutex.
unfoldable pub assign_addresses : Context → Network → Member → Time → Action Member
assign_addresses context network member now = do
  current ← reading (get_member context network.id member.node_id)
  let need4 = needs_family network.assignment.ipv4_zerotier current true
  let need6 = needs_family network.assignment.ipv6_zerotier current false
  if current.no_auto_assign || (not need4 && not need6) then return current else (do
    members ← reading (list_members context network.id)
    save_assigned context network.id now
        (new_addresses network (used_addresses members) need4 need6) current)

unfoldable pub ensure_automatic_assignments : Context → Network → Member → Time → Action Member
ensure_automatic_assignments context network member now =
    let need4 = needs_family network.assignment.ipv4_zerotier member true in
    let need6 = needs_family network.assignment.ipv6_zerotier member false in
    if member.no_auto_assign || length network.ip_pools == 0 || (not need4 && not need6)
    then return member
    else assign_addresses context network member now
