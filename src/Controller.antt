-- ===== src/Controller.antt =====
-- `service.go` and `admin.go` of internal/controller: the operations on networks and members over
-- the store. A clock gives the times that a call reads, in their order.
pub mod Actions
pub mod Admin
pub mod Addresses
pub mod Outcomes
pub mod Members
pub mod Authorization
pub mod Preserved
pub mod Operations
pub mod MemberOperations
pub mod Config
pub mod Calls
mod Examples
use ztgotroller.Base.{
  ℕ, zero, suc, ◌+◌, ◌*◌, ◌%◌, Bool, true, false, not, ◌&&◌, ◌||◌, List, Bytes, Option, none, some,
  ltb, ◌==◌, if◌then◌else◌, bytes_eq, get_be, bit_and, Result, ok, err, ◌≡◌,
}
use ztgotroller.Controller.Actions.{
  Error, store_error, invalid_identifier, foreign_network, sequence_too_large, no_randomness,
  no_free_identifier, Action, ◌>>=◌, ◌>>◌, return, fail, fail_when, reading, writing, attempt,
  checked,
}
use ztgotroller.Domain.Ids.{
  IdError, NetworkId, NodeId, controller_id, new_network_id, validate_hex_id,
}
use ztgotroller.Domain.Members.{Member, new_member}
use ztgotroller.Domain.Networks.{Network, new_network}
use ztgotroller.Netip.{Time}
use ztgotroller.Store.{
  Context, Store, not_found, already_exists, conflict, create_network, get_network, save_network,
  create_member, get_member, save_member,
}

-- The fields of the service beside its store, clock and mutex; `notifies` is whether there is a
-- handler for deauthorizations.
pub record Service : Type 0 where
  pub controller : NodeId
  pub notifies : Bool

abbrev pub Clock : Type 0
Clock = ℕ → Time

-- `New`.
unfoldable pub new : NodeId → Result IdError Service
new controller = elim (validate_hex_id controller 10) [
  | err e ↦ err e
  | ok _ ↦ ok (record { controller = controller; notifies = false })
]

abbrev pub match_owner : Service → Result IdError NodeId → Action (Unit {0})
match_owner service (err e) = fail (invalid_identifier e)
match_owner service (ok owner) = fail_when (not (bytes_eq owner service.controller)) foreign_network

unfoldable pub validate_owned_network : Service → NetworkId → Action (Unit {0})
validate_owned_network service id = match_owner service (controller_id id)

unfoldable pub create_controller_network : Service → Context → ℕ → Bytes → Time → Action Network
create_controller_network service context sequence name now = do
  fail_when (ltb 0x00ffffff sequence) sequence_too_large
  let id = new_network_id service.controller sequence
  writing (create_network context (record (new_network id now) { name = name }))
  reading (get_network context id)

-- `errors.Is(err, store.ErrAlreadyExists)`, and the same of `ErrNotFound`.
abbrev pub is_already_exists : Error → Bool
is_already_exists (store_error already_exists) = true
is_already_exists _ = false

abbrev pub is_not_found : Error → Bool
is_not_found (store_error not_found) = true
is_not_found _ = false

-- The 24-bit sequence of four random bytes, where 0 becomes 1.
abbrev pub sequence_of : Bytes → ℕ
sequence_of bytes =
    let sequence = bit_and (get_be bytes) 0x00ffffff in if sequence == 0 then 1 else sequence

-- `if errors.Is(err, store.ErrAlreadyExists) { continue }; return network, err`
abbrev pub again_if : Bool → Action Network → Error → Action Network
again_if true again e = again
again_if false again e = fail e

abbrev pub retry : Action Network → Result Error Network → Action Network
retry again (ok network) = return network
retry again (err e) = again_if (is_already_exists e) again e

abbrev pub with_random : Option Bytes → (Bytes → Action Network) → Action Network
with_random none next = fail no_randomness
with_random (some bytes) next = next bytes

-- The loop of `CreateRandomNetwork` and `CreateRandomNetworkWithUpdate`, over what creates a
-- network; `random` is what `rand.Read` returns in each attempt.
unfoldable pub create_random_loop :
    (ℕ → Option Bytes) → (ℕ → ℕ → Action Network) → ℕ → ℕ → Action Network
create_random_loop random create number zero = fail no_free_identifier
create_random_loop random create number (suc attempts) = with_random (random number) (λ bytes.
    attempt (create number (sequence_of bytes))
    >>= retry (create_random_loop random create (suc number) attempts))

unfoldable pub create_random_network :
    Service → Context → Bytes → (ℕ → Option Bytes) → Clock → Action Network
create_random_network service context name random clock =
    create_random_loop random
      (λ number sequence. create_controller_network service context sequence name (clock number)) 0
      100000

-- Behind `CreateMember`: a member that another call has registered is as good.
abbrev pub created_or_found : Action Member → Result Error (Unit {0}) → Action Member
created_or_found again (ok _) = again
created_or_found again (err e) = do fail_when (not (is_already_exists e)) e; again

abbrev pub existing_or_created : Action Member → Result Error Member → Action Member
existing_or_created create (ok member) = return member
existing_or_created create (err e) = do fail_when (not (is_not_found e)) e; create

unfoldable pub register_member : Service → Context → NetworkId → NodeId → Time → Action Member
register_member service context network_id node_id now = do
  validate_owned_network service network_id
  checked (validate_hex_id node_id 10)
  existing ← attempt (reading (get_member context network_id node_id))
  existing_or_created
      (attempt (writing (create_member context (new_member network_id node_id now)))
        >>= created_or_found (reading (get_member context network_id node_id)))
      existing

unfoldable pub member_has_specialist_role : Member → Bool
member_has_specialist_role member =
    member.active_bridge || member.network_relay || member.multicast_replicator

unfoldable pub bump_network_revision : Context → NetworkId → Time → Action (Unit {0})
bump_network_revision context id now = do
  network ← reading (get_network context id)
  writing (save_network context (record network { updated_at = now }))

abbrev pub bump_if : Bool → Context → NetworkId → Time → Action (Unit {0})
bump_if true context id now = bump_network_revision context id now
bump_if false context id now = return tt

-- What the handler for deauthorizations is called with.
pub record Deauthorization : Type 0 where
  pub network_id : NetworkId
  pub node_id : NodeId
  pub at : Time

abbrev pub with_authorization : Bool → Clock → Member → Member
with_authorization true clock member = record member {
  authorized = true;
  last_authorized_at = clock 0;
  updated_at = clock 1;
}
with_authorization false clock member = record member {
  authorized = false;
  last_deauthorized_at = clock 0;
  updated_at = clock 1;
}

abbrev pub bool_eq : Bool → Bool → Bool
bool_eq true b = b
bool_eq false b = not b

-- Behind the checks, where the flag changes. The result comes with the call of the handler, where
-- there is one.
unfoldable pub save_authorized :
    Service
    → Context
    → NetworkId
    → NodeId
    → Bool
    → Clock
    → Member
    → Action (Member × Option Deauthorization)
save_authorized service context network_id node_id authorized clock member = do
  let changed = with_authorization authorized clock member
  writing (save_member context changed)
  bump_if (member_has_specialist_role changed) context network_id (clock 2)
  saved ← reading (get_member context network_id node_id)
  return (
    saved,
    if not authorized && service.notifies
        then some (record { network_id = network_id; node_id = node_id; at = changed.updated_at })
        else none,
  )

unfoldable pub set_member_authorization :
    Service
    → Context
    → NetworkId
    → NodeId
    → Bool
    → ℕ
    → Clock
    → Action (Member × Option Deauthorization)
set_member_authorization service context network_id node_id authorized revision clock = do
  validate_owned_network service network_id
  member ← reading (get_member context network_id node_id)
  fail_when (not (member.revision == revision)) (store_error conflict)
  if bool_eq member.authorized authorized
      then return (member, none)
      else save_authorized service context network_id node_id authorized clock member
