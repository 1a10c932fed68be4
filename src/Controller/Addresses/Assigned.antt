-- ===== src/Controller/Addresses/Assigned.antt =====
-- The addresses that a member is given by the controller itself.
use ztgotroller.Base.{
  ◌≡◌, refl, sym, ap, ◌∙◌, arith, Bool, true, false, ◌||◌, List, [], ◌∷◌, ◌++◌, All, Option, some,
  ok, is_among, find, bytes_keys, bytes_eq, Option-cases, Bool-cases, inl, inr,
}
use ztgotroller.Domain.Ids.{NetworkId, NodeId}
use ztgotroller.Domain.Members.{Member}
use ztgotroller.Domain.Networks.{Network}
use ztgotroller.Netip.{Addr, addr_keys, bytes_lt}
use ztgotroller.Store.{Context, Store, inner}
use ztgotroller.Store.Entries.{entry}
use ztgotroller.Store.Listing.{insert_by, sort_by, values, list_members}
use ztgotroller.Controller.Addresses.{
  used_addresses, wanted_address, as_list, new_addresses, first_available_address, needs_family,
}
use ztgotroller.Controller.Addresses.Search.{IsAvailable, first_available_address-IsAvailable}

is_among-append :
    (a : Addr) (xs ys : List Addr) → is_among a (xs ++ ys) ≡ (is_among a xs || is_among a ys)
unfolding is_among
is_among-append a [] ys = refl
is_among-append a (x ∷ xs) ys = ground (arith, is_among-append a xs ys)

node_of : Member → NodeId
node_of m = m.node_id

used-insert_by :
    (a : Addr) (key : Member → NodeId) (m : Member) (ms : List Member)
    → is_among a (used_addresses (insert_by key m ms))
      ≡ (is_among a m.ip_assignments || is_among a (used_addresses ms))
used-insert_by a key m [] = is_among-append a m.ip_assignments []
used-insert_by a key m (n ∷ ms) = elim (Bool-cases (bytes_lt (key n) (key m))) [
  | inl later ↦
      let rest = used-insert_by a key m ms in
      ground (
        arith,
        later,
        rest,
        is_among-append a n.ip_assignments (used_addresses (insert_by key m ms)),
        is_among-append a n.ip_assignments (used_addresses ms),
      )
  | inr first ↦ ground (arith, first, is_among-append a m.ip_assignments (used_addresses (n ∷ ms)))
]

used-sort_by :
    (a : Addr) (key : Member → NodeId) (ms : List Member)
    → is_among a (used_addresses (sort_by key ms)) ≡ is_among a (used_addresses ms)
used-sort_by a key [] = refl
used-sort_by a key (m ∷ ms) = ground (
  arith,
  used-sort_by a key ms,
  used-insert_by a key m (sort_by key ms),
  is_among-append a m.ip_assignments (used_addresses ms),
)

unused_of_find :
    (a : Addr) (node : NodeId) (m : Member) (ms : List (NodeId × Member))
    → is_among a (used_addresses (values ms)) ≡ false
    → find node ms ≡ some m
    → is_among a m.ip_assignments ≡ false
unfolding find
unused_of_find a node m [] h f = absurd (cc)
unused_of_find a node m ((k, n) ∷ ms) h f = elim (Bool-cases (bytes_eq k node)) [
  | inl here ↦ ground (arith, is_among-append a n.ip_assignments (used_addresses (values ms)))
  | inr later ↦ ground (
    arith,
    is_among-append a n.ip_assignments (used_addresses (values ms)),
    unused_of_find a node m ms,
  )
]

-- What is in none of the listed members' assignments is in no member's of the network.
pub unused_of_list_members :
    (context : Context) (id : NetworkId) (s : Store) (a : Addr) {ms : List Member}
    → list_members context id s ≡ ok ms
    → is_among a (used_addresses ms) ≡ false
    → (node : NodeId) (m : Member) → entry id node s.members ≡ some m
    → is_among a m.ip_assignments ≡ false
unfolding list_members
unused_of_list_members context id s a {ms} h free node m f =
    let key : Member → NodeId = λ (m : Member). m.node_id in
    let listed = values (inner id s.members) in
    let is : sort_by key listed ≡ ms = ground arith in
    let unused : is_among a (used_addresses listed) ≡ false =
      sym (used-sort_by a key listed) ∙ (ap (λ l. is_among a (used_addresses l)) is ∙ free) in
    unused_of_find a node m (inner id s.members) unused f

-- An address from a pool of the network, with a managed route, that no member of the network has.
pub record IsNewAddress (network : Network) (s : Store) (ipv4 : Bool) (a : Addr) : Type 0 where
  pub used : List Addr
  pub available : IsAvailable network.routes used ipv4 network.ip_pools a
  pub unused :
      (node : NodeId) (m : Member)
      → entry network.id node s.members ≡ some m
      → is_among a m.ip_assignments ≡ false

-- At most one address of each family, of a family that is enabled and that the member lacks.
pub record IsAssignment (network : Network) (s : Store) (current : Member) (new : List Addr)
    : Type 0 where
  pub four : Option Addr
  pub six : Option Addr
  pub both : new ≡ as_list four ++ as_list six
  pub is_new4 : All (IsNewAddress network s true) (as_list four)
  pub is_new6 : All (IsNewAddress network s false) (as_list six)
  pub needed4 :
      All (λ a. needs_family network.assignment.ipv4_zerotier current true ≡ true) (as_list four)
  pub needed6 :
      All (λ a. needs_family network.assignment.ipv6_zerotier current false ≡ true) (as_list six)

wanted-IsNewAddress :
    (context : Context) (network : Network) (s : Store) {ms : List Member} (need ipv4 : Bool)
    (before : List Addr)
    → list_members context network.id s ≡ ok ms
    → All
        (IsNewAddress network s ipv4)
        (as_list (wanted_address need network (before ++ used_addresses ms) ipv4))
      × All
          (λ a. need ≡ true)
          (as_list (wanted_address need network (before ++ used_addresses ms) ipv4))
wanted-IsNewAddress context network s false ipv4 before h = (tt, tt)
wanted-IsNewAddress context network s {ms} true ipv4 before h =
    let used = before ++ used_addresses ms in
    elim (Option-cases (first_available_address network used ipv4)) [
      | inl absent ↦ rw absent (tt, tt)
      | inr (a, present) ↦
          let available = first_available_address-IsAvailable network used ipv4 present in
          let free = available.in_pool.unused in
          let listed : is_among a (used_addresses ms) ≡ false =
            ground (arith, is_among-append a before (used_addresses ms)) in
          let is : IsNewAddress network s ipv4 a = record {
            used = used;
            available = available;
            unused = unused_of_list_members context network.id s a h listed;
          } in
          rw present ((is, tt), (refl, tt))
    ]

pub new_addresses-IsAssignment :
    (context : Context) (network : Network) (s : Store) (current : Member) {ms : List Member}
    → list_members context network.id s ≡ ok ms
    → IsAssignment network s current (
        new_addresses network
          (used_addresses ms)
          (needs_family network.assignment.ipv4_zerotier current true)
          (needs_family network.assignment.ipv6_zerotier current false))
unfolding new_addresses
new_addresses-IsAssignment context network s current {ms} h =
    let need4 = needs_family network.assignment.ipv4_zerotier current true in
    let need6 = needs_family network.assignment.ipv6_zerotier current false in
    let four = wanted_address need4 network (used_addresses ms) true in
    let is4 = wanted-IsNewAddress context network s need4 true [] h in
    let is6 = wanted-IsNewAddress context network s need6 false (as_list four) h in
    record {
      four = four;
      six = wanted_address need6 network (as_list four ++ used_addresses ms) false;
      both = refl;
      is_new4 = is4.0;
      is_new6 = is6.0;
      needed4 = is4.1;
      needed6 = is6.1;
    }
