-- ===== src/Store/Outcomes.antt =====
-- What an operation of the store that succeeds has checked, and the state it leaves.
use ztgotroller.Base.{
  Option-cases, inl, inr, ℕ, ◌≡◌, arith, none, some, bytes_keys, find, put, remove, ok,
}
use ztgotroller.Domain.Ids.{NetworkId, NodeId}
use ztgotroller.Domain.Members.{Member, AgentMetadata, validate_member, validate_metadata}
use ztgotroller.Domain.Networks.{Network, validate_network}
use ztgotroller.Store.{
  Store, Context, inner, remove_inner, next_revision, create_network, save_network, delete_network,
  create_member, save_member, delete_member, upsert_agent_metadata,
}
use ztgotroller.Store.Entries.{entry}

pub create_network-ok :
    (c : Context) (n : Network) (s : Store) {s' : Store}
    → create_network c n s ≡ ok s'
    → (validate_network n ≡ ok tt)
      × (find n.id s.networks ≡ none)
      × (s' ≡ record s { networks = put n.id (record n { revision = 1 }) s.networks })
unfolding create_network
create_network-ok c n s h = ground arith

pub save_network-ok :
    (c : Context) (n : Network) (s : Store) {s' : Store}
    → save_network c n s ≡ ok s'
    → (current : Network) × (validate_network n ≡ ok tt)
      × (find n.id s.networks ≡ some current)
      × (n.revision ≡ current.revision)
      × (s' ≡ record s {
        networks = put n.id (record n { revision = next_revision n.revision }) s.networks;
      })
unfolding save_network
save_network-ok c n s h = elim (Option-cases (find n.id s.networks)) [
  | inl absent ↦ absurd (ground arith)
  | inr (current, present) ↦ (current, ground arith, present, ground arith, ground arith)
]

pub delete_network-ok :
    (c : Context) (id : NetworkId) (revision : ℕ) (s : Store) {s' : Store}
    → delete_network c id revision s ≡ ok s'
    → (current : Network) × (find id s.networks ≡ some current)
      × (revision ≡ current.revision)
      × (s' ≡ record {
        networks = remove id s.networks;
        members = remove id s.members;
        metadata = remove id s.metadata;
      })
unfolding delete_network
delete_network-ok c id revision s h = elim (Option-cases (find id s.networks)) [
  | inl absent ↦ absurd (ground arith)
  | inr (current, present) ↦ (current, present, ground arith, ground arith)
]

-- The member maps with one member put into its place.
abbrev pub with_member : Member → Store → Store
with_member m s = record s {
  members = put m.network_id (put m.node_id m (inner m.network_id s.members)) s.members;
}

pub create_member-ok :
    (c : Context) (m : Member) (s : Store) {s' : Store}
    → create_member c m s ≡ ok s'
    → (network : Network) × (validate_member m ≡ ok tt)
      × (find m.network_id s.networks ≡ some network)
      × (entry m.network_id m.node_id s.members ≡ none)
      × (s' ≡ with_member (record m { revision = 1 }) s)
unfolding create_member
create_member-ok c m s h = elim (Option-cases (find m.network_id s.networks)) [
  | inl absent ↦ absurd (ground arith)
  | inr (network, present) ↦ (network, ground arith, present, ground arith, ground arith)
]

pub save_member-ok :
    (c : Context) (m : Member) (s : Store) {s' : Store}
    → save_member c m s ≡ ok s'
    → (current : Member) × (validate_member m ≡ ok tt)
      × (entry m.network_id m.node_id s.members ≡ some current)
      × (m.revision ≡ current.revision)
      × (s' ≡ with_member (record m { revision = next_revision m.revision }) s)
unfolding save_member
save_member-ok c m s h = elim (Option-cases (entry m.network_id m.node_id s.members)) [
  | inl absent ↦ absurd (ground arith)
  | inr (current, present) ↦ (current, ground arith, present, ground arith, ground arith)
]

pub delete_member-ok :
    (c : Context) (id : NetworkId) (node : NodeId) (revision : ℕ) (s : Store) {s' : Store}
    → delete_member c id node revision s ≡ ok s'
    → (current : Member) × (entry id node s.members ≡ some current)
      × (revision ≡ current.revision)
      × (s' ≡ record s {
        members = remove_inner id node s.members;
        metadata = remove_inner id node s.metadata;
      })
unfolding delete_member
delete_member-ok c id node revision s h = elim (Option-cases (entry id node s.members)) [
  | inl absent ↦ absurd (ground arith)
  | inr (current, present) ↦ (current, present, ground arith, ground arith)
]

abbrev pub with_metadata : AgentMetadata → Store → Store
with_metadata a s = record s {
  metadata = put a.network_id (put a.node_id a (inner a.network_id s.metadata)) s.metadata;
}

pub upsert_agent_metadata-ok :
    (c : Context) (a : AgentMetadata) (s : Store) {s' : Store}
    → upsert_agent_metadata c a s ≡ ok s'
    → (member : Member) × (validate_metadata a ≡ ok tt)
      × (entry a.network_id a.node_id s.members ≡ some member)
      × (s' ≡ with_metadata a s)
unfolding upsert_agent_metadata
upsert_agent_metadata-ok c a s h = elim (Option-cases (entry a.network_id a.node_id s.members)) [
  | inl absent ↦ absurd (ground arith)
  | inr (member, present) ↦ (member, ground arith, present, ground arith)
]
