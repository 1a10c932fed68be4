-- ===== src/Store/Invariant.antt =====
-- The invariant of the store, under each of the changes that an operation makes.

use ztgotroller.Base.{
  ◌≡◌, arith, ◌&&◌, some, bytes_keys, bytes_eq, bytes_eq_iff, find, put, remove, find-put,
  find-remove, ok, Bool-cases, inl, inr,
}
use ztgotroller.Domain.Ids.{NetworkId, NodeId}
use ztgotroller.Domain.Members.{Member, AgentMetadata, validate_member, validate_metadata}
use ztgotroller.Domain.Networks.{Network, validate_network}
use ztgotroller.Store.{Store, remove_inner}
use ztgotroller.Store.Entries.{entry, entry-put, entry-remove, entry-remove_inner}
use ztgotroller.Store.Outcomes.{with_member, with_metadata}

-- Each value is valid and stands under its own identifiers, a member's network is there, and so is
-- the member of an agent's report.
pub record IsStore (s : Store) : Type 0 where
  pub network_filed :
      (id : NetworkId) (n : Network)
      → find id s.networks ≡ some n
      → (n.id ≡ id) × (validate_network n ≡ ok tt)
  pub member_filed :
      (id : NetworkId) (node : NodeId) (m : Member)
      → entry id node s.members ≡ some m
      → (m.network_id ≡ id) × (m.node_id ≡ node) × (validate_member m ≡ ok tt)
  pub member_network :
      (id : NetworkId) (node : NodeId) (m : Member)
      → entry id node s.members ≡ some m
      → (n : Network) × (find id s.networks ≡ some n)
  pub metadata_filed :
      (id : NetworkId) (node : NodeId) (a : AgentMetadata)
      → entry id node s.metadata ≡ some a
      → (a.network_id ≡ id) × (a.node_id ≡ node) × (validate_metadata a ≡ ok tt)
  pub metadata_member :
      (id : NetworkId) (node : NodeId) (a : AgentMetadata)
      → entry id node s.metadata ≡ some a
      → (m : Member) × (entry id node s.members ≡ some m)

pub with_network-IsStore :
    (n : Network) (s : Store)
    → IsStore s
    → validate_network n ≡ ok tt
    → IsStore (record s { networks = put n.id n s.networks })
with_network-IsStore n s h valid = record {
  network_filed = λ id k e.
      ground (arith, find-put n.id id n s.networks, bytes_eq_iff n.id id, h.network_filed id k);
  member_filed = h.member_filed;
  member_network = λ id node m e. elim (Bool-cases (bytes_eq n.id id)) [
    | inl here ↦ (n, ground (arith, find-put n.id id n s.networks))
    | inr other ↦
        let (k, present) = h.member_network id node m e in
        (k, ground (arith, find-put n.id id n s.networks))
  ];
  metadata_filed = h.metadata_filed;
  metadata_member = h.metadata_member;
}

pub without_network-IsStore :
    (id : NetworkId) (s : Store)
    → IsStore s
    → IsStore (record {
      networks = remove id s.networks;
      members = remove id s.members;
      metadata = remove id s.metadata;
    })
without_network-IsStore id s h = record {
  network_filed = λ j k e. ground (arith, find-remove id j s.networks, h.network_filed j k);
  member_filed =
      λ j node m e. ground (arith, entry-remove id j node s.members, h.member_filed j node m);
  member_network = λ j node m e.
      let (k, present) =
        h.member_network j node m (ground (arith, entry-remove id j node s.members)) in
      (k, ground (arith, entry-remove id j node s.members, find-remove id j s.networks));
  metadata_filed =
      λ j node a e. ground (arith, entry-remove id j node s.metadata, h.metadata_filed j node a);
  metadata_member = λ j node a e.
      let (m, present) =
        h.metadata_member j node a (ground (arith, entry-remove id j node s.metadata)) in
      (m, ground (arith, entry-remove id j node s.metadata, entry-remove id j node s.members));
}

pub with_member-IsStore :
    (m : Member) (s : Store) {n : Network}
    → IsStore s
    → validate_member m ≡ ok tt
    → find m.network_id s.networks ≡ some n
    → IsStore (with_member m s)
with_member-IsStore m s {n} h valid network = record {
  network_filed = h.network_filed;
  member_filed = λ id node k e. ground (
    arith,
    entry-put m.network_id id m.node_id node m s.members,
    bytes_eq_iff m.network_id id,
    bytes_eq_iff m.node_id node,
    h.member_filed id node k,
  );
  member_network = λ id node k e. elim (Bool-cases (bytes_eq m.network_id id)) [
    | inl here ↦ (n, ground (arith, bytes_eq_iff m.network_id id))
    | inr other ↦
        h.member_network id node k
          (ground (arith, entry-put m.network_id id m.node_id node m s.members))
  ];
  metadata_filed = h.metadata_filed;
  metadata_member = λ id node a e.
      let (k, present) = h.metadata_member id node a e in
      elim (Bool-cases (bytes_eq m.network_id id && bytes_eq m.node_id node)) [
        | inl here ↦ (m, ground (arith, entry-put m.network_id id m.node_id node m s.members))
        | inr other ↦ (k, ground (arith, entry-put m.network_id id m.node_id node m s.members))
      ];
}

pub without_member-IsStore :
    (id : NetworkId) (node : NodeId) (s : Store)
    → IsStore s
    → IsStore (record s {
      members = remove_inner id node s.members;
      metadata = remove_inner id node s.metadata;
    })
without_member-IsStore id node s h = record {
  network_filed = h.network_filed;
  member_filed =
      λ j n m e. ground (arith, entry-remove_inner id j node n s.members, h.member_filed j n m);
  member_network =
      λ j n m e. h.member_network j n m (ground (arith, entry-remove_inner id j node n s.members));
  metadata_filed =
      λ j n a e. ground (arith, entry-remove_inner id j node n s.metadata, h.metadata_filed j n a);
  metadata_member = λ j n a e.
      let (m, present) =
        h.metadata_member j n a (ground (arith, entry-remove_inner id j node n s.metadata)) in
      (
        m,
        ground (
          arith,
          entry-remove_inner id j node n s.metadata,
          entry-remove_inner id j node n s.members,
        ),
      );
}

pub with_metadata-IsStore :
    (a : AgentMetadata) (s : Store) {m : Member}
    → IsStore s
    → validate_metadata a ≡ ok tt
    → entry a.network_id a.node_id s.members ≡ some m
    → IsStore (with_metadata a s)
with_metadata-IsStore a s {m} h valid member = record {
  network_filed = h.network_filed;
  member_filed = h.member_filed;
  member_network = h.member_network;
  metadata_filed = λ id node b e. ground (
    arith,
    entry-put a.network_id id a.node_id node a s.metadata,
    bytes_eq_iff a.network_id id,
    bytes_eq_iff a.node_id node,
    h.metadata_filed id node b,
  );
  metadata_member = λ id node b e.
      elim (Bool-cases (bytes_eq a.network_id id && bytes_eq a.node_id node)) [
        | inl here ↦ (m, ground (arith, bytes_eq_iff a.network_id id, bytes_eq_iff a.node_id node))
        | inr other ↦
            h.metadata_member id node b
              (ground (arith, entry-put a.network_id id a.node_id node a s.metadata))
      ];
}
