-- ===== src/Store.antt =====
-- internal/store/memory/memory.go, which implements the interface of internal/store/store.go. Each
-- operation takes the lock for its whole body, so that calls are steps one after the other. Copies
-- of a value (`cloneNetwork`, `cloneMember`) are the value.
pub mod Listing
pub mod Entries
pub mod Outcomes
pub mod Invariant
pub mod Reads
pub mod Steps
pub mod Revisions
mod Examples
use ztgotroller.Base.{
  ℕ, ◌+◌, ◌%◌, ◌^◌, Bool, List, [], ◌∷◌, Bytes, Option, none, some, bytes_keys, find, put, remove,
  Result, ok, err, ◌>>=◌, ◌>>◌, fail_if, ◌==◌, not, map, if◌then◌else◌, ◌≡◌,
}
use ztgotroller.Domain.Ids.{NetworkId, NodeId}
use ztgotroller.Domain.Members.{Member, AgentMetadata, validate_member, validate_metadata}
use ztgotroller.Domain.Networks.{DomainError, Network, validate_network}

-- What `ctx.Err()` reports.
pub data ContextError : Type 0 where
  cancelled deadline_exceeded : ContextError

pub data StoreError : Type 0 where
  context_error : ContextError → StoreError
  invalid : DomainError → StoreError
  not_found already_exists conflict : StoreError

abbrev pub Context : Type 0
Context = Option ContextError

abbrev pub context_err : Context → Result StoreError (Unit {0})
context_err none = ok tt
context_err (some e) = err (context_error e)

abbrev pub validated : Result DomainError (Unit {0}) → Result StoreError (Unit {0})
validated (ok _) = ok tt
validated (err e) = err (invalid e)

pub record Store : Type 0 where
  pub networks : List (NetworkId × Network)
  pub members : List (NetworkId × List (NodeId × Member))
  pub metadata : List (NetworkId × List (NodeId × AgentMetadata))

abbrev pub new_store : Store
new_store = record { networks = []; members = []; metadata = [] }

-- A missing map of the outer map is Go's nil map: reading it finds nothing.
abbrev pub inner :
    {V : Type 0} → NetworkId → List (NetworkId × List (NodeId × V)) → List (NodeId × V)
inner id outer = elim (find id outer) [ none ↦ [] | some m ↦ m ]

-- `delete(outer[id], node)`, which does nothing on a nil map.
abbrev pub remove_inner :
    {V : Type 0}
    → NetworkId
    → NodeId
    → List (NetworkId × List (NodeId × V))
    → List (NetworkId × List (NodeId × V))
remove_inner id node outer = elim (find id outer) [
  | none ↦ outer
  | some m ↦ put id (remove node m) outer
]

-- `value, exists := m[key]; if !exists { return err }`
abbrev pub or_fail : {E V : Type 0} → Option V → E → Result E V
or_fail none e = err e
or_fail (some v) e = ok v

abbrev pub fail_if_some : {E V : Type 0} → Option V → E → Result E (Unit {0})
fail_if_some none e = ok tt
fail_if_some (some v) e = err e

-- `revision++` on a `uint64`.
abbrev pub next_revision : ℕ → ℕ
next_revision r = (r + 1) % 2 ^ 64

unfoldable pub create_network : Context → Network → Store → Result StoreError Store
create_network context network s = do
  context_err context
  validated (validate_network network)
  fail_if_some (find network.id s.networks) already_exists
  ok (record s { networks = put network.id (record network { revision = 1 }) s.networks })

unfoldable pub get_network : Context → NetworkId → Store → Result StoreError Network
get_network context id s = do context_err context; or_fail (find id s.networks) not_found

unfoldable pub save_network : Context → Network → Store → Result StoreError Store
save_network context network s = do
  context_err context
  validated (validate_network network)
  current ← or_fail (find network.id s.networks) not_found
  fail_if (not (network.revision == current.revision)) conflict
  let saved = record network { revision = next_revision network.revision }
  ok (record s { networks = put network.id saved s.networks })

unfoldable pub delete_network : Context → NetworkId → ℕ → Store → Result StoreError Store
delete_network context id revision s = do
  context_err context
  current ← or_fail (find id s.networks) not_found
  fail_if (not (revision == current.revision)) conflict
  ok (record {
    networks = remove id s.networks;
    members = remove id s.members;
    metadata = remove id s.metadata;
  })

unfoldable pub create_member : Context → Member → Store → Result StoreError Store
create_member context member s = do
  context_err context
  validated (validate_member member)
  _ ← or_fail (find member.network_id s.networks) not_found
  let network_members = inner member.network_id s.members
  fail_if_some (find member.node_id network_members) already_exists
  let created = put member.node_id (record member { revision = 1 }) network_members
  ok (record s { members = put member.network_id created s.members })

unfoldable pub get_member : Context → NetworkId → NodeId → Store → Result StoreError Member
get_member context network_id node_id s = do
  context_err context
  or_fail (find node_id (inner network_id s.members)) not_found

unfoldable pub save_member : Context → Member → Store → Result StoreError Store
save_member context member s = do
  context_err context
  validated (validate_member member)
  let network_members = inner member.network_id s.members
  current ← or_fail (find member.node_id network_members) not_found
  fail_if (not (member.revision == current.revision)) conflict
  let saved = record member { revision = next_revision member.revision }
  ok (record s {
    members = put member.network_id (put member.node_id saved network_members) s.members;
  })

unfoldable pub delete_member : Context → NetworkId → NodeId → ℕ → Store → Result StoreError Store
delete_member context network_id node_id revision s = do
  context_err context
  current ← or_fail (find node_id (inner network_id s.members)) not_found
  fail_if (not (revision == current.revision)) conflict
  ok (record s {
    members = remove_inner network_id node_id s.members;
    metadata = remove_inner network_id node_id s.metadata;
  })

unfoldable pub upsert_agent_metadata : Context → AgentMetadata → Store → Result StoreError Store
upsert_agent_metadata context metadata s = do
  context_err context
  validated (validate_metadata metadata)
  _ ← or_fail (find metadata.node_id (inner metadata.network_id s.members)) not_found
  let network_metadata = inner metadata.network_id s.metadata
  ok (record s {
    metadata = put metadata.network_id (put metadata.node_id metadata network_metadata) s.metadata;
  })

unfoldable pub get_agent_metadata :
    Context → NetworkId → NodeId → Store → Result StoreError AgentMetadata
get_agent_metadata context network_id node_id s = do
  context_err context
  or_fail (find node_id (inner network_id s.metadata)) not_found
