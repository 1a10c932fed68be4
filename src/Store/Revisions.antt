-- ===== src/Store/Revisions.antt =====
-- Optimistic concurrency: what the revisions guarantee to callers.
use ztgotroller.Base.{
  ℕ, ◌≡◌, ◌≢◌, arith, none, some, ◌==◌, find, bytes_keys, bytes_eq_iff, bytes_eq_refl, find-put,
  find-put_self, find-remove, ok, err, false,
}
use ztgotroller.Domain.Ids.{NetworkId, NodeId}
use ztgotroller.Domain.Members.{Member, validate_member}
use ztgotroller.Domain.Networks.{Network, validate_network}
use ztgotroller.Store.{
  Store, Context, not_found, conflict, next_revision, get_network, save_network, delete_network,
  get_member, save_member, get_agent_metadata,
}
use ztgotroller.Store.Entries.{entry, entry-put, entry-remove}
use ztgotroller.Store.Outcomes.{save_network-ok, delete_network-ok, save_member-ok}

next_revision-differs : (r : ℕ) → (r == next_revision r) ≡ false
next_revision-differs r = ground arith

get_network_found :
    (id : NetworkId) (s : Store) {n : Network}
    → find id s.networks ≡ some n
    → get_network none id s ≡ ok n
unfolding get_network
get_network_found id s h = ground arith

-- After a successful `SaveNetwork` the network is stored under the next revision, and the networks
-- under other identifiers are what they were.
pub get_network-save_network :
    (c : Context) (n : Network) (s : Store) {s' : Store}
    → save_network c n s ≡ ok s'
    → (get_network none n.id s' ≡ ok (record n { revision = next_revision n.revision }))
      × ((id : NetworkId) → id ≢ n.id → get_network none id s' ≡ get_network none id s)
unfolding get_network
get_network-save_network c n s h =
    let (current, valid, present, agrees, is) = save_network-ok c n s h in
    let saved = record n { revision = next_revision n.revision } in
    (
      rw is (ground (arith, find-put_self n.id saved s.networks)),
      λ id other. rw is (ground (arith, find-put n.id id saved s.networks, bytes_eq_iff n.id id)),
    )

-- Of two saves of one network that start from the same revision the second one fails.
pub save_network-conflict :
    (c : Context) (n other : Network) (s : Store) {s' : Store}
    → save_network c n s ≡ ok s'
    → validate_network other ≡ ok tt
    → other.id ≡ n.id
    → other.revision ≡ n.revision
    → save_network none other s' ≡ err conflict
unfolding save_network
save_network-conflict c n other s {s'} h valid same_id same_revision =
    let (current, valid_n, present, agrees, is) = save_network-ok c n s h in
    let saved = record n { revision = next_revision n.revision } in
    let stored : find other.id s'.networks ≡ some saved =
      rw (is, same_id) (find-put_self n.id saved s.networks) in
    ground (arith, next_revision-differs n.revision)

-- Of two saves of one member that start from the same revision the second one fails.
pub save_member-conflict :
    (c : Context) (m other : Member) (s : Store) {s' : Store}
    → save_member c m s ≡ ok s'
    → validate_member other ≡ ok tt
    → other.network_id ≡ m.network_id
    → other.node_id ≡ m.node_id
    → other.revision ≡ m.revision
    → save_member none other s' ≡ err conflict
unfolding save_member
save_member-conflict c m other s {s'} h valid same_network same_node same_revision =
    let (current, valid_m, present, agrees, is) = save_member-ok c m s h in
    let saved = record m { revision = next_revision m.revision } in
    let stored : entry other.network_id other.node_id s'.members ≡ some saved =
      rw (is, same_network, same_node)
        (ground (
          arith,
          entry-put m.network_id m.network_id m.node_id m.node_id saved s.members,
          bytes_eq_refl m.network_id,
          bytes_eq_refl m.node_id,
        )) in
    ground (arith, next_revision-differs m.revision)

-- After a successful `DeleteNetwork` neither the network nor any of its members or their reports
-- is found, and the other networks with their members and reports are what they were.
pub delete_network-forgets :
    (c : Context) (id : NetworkId) (revision : ℕ) (s : Store) {s' : Store}
    → delete_network c id revision s ≡ ok s'
    → (get_network none id s' ≡ err not_found)
      × ((node : NodeId) → get_member none id node s' ≡ err not_found)
      × ((node : NodeId) → get_agent_metadata none id node s' ≡ err not_found)
      × ((j : NetworkId) → j ≢ id → get_network none j s' ≡ get_network none j s)
      × ((j : NetworkId) (node : NodeId)
          → j ≢ id
          → get_member none j node s' ≡ get_member none j node s)
      × ((j : NetworkId) (node : NodeId)
          → j ≢ id
          → get_agent_metadata none j node s' ≡ get_agent_metadata none j node s)
unfolding get_network get_member get_agent_metadata
delete_network-forgets c id revision s h =
    let (current, present, agrees, is) = delete_network-ok c id revision s h in
    let same = bytes_eq_refl id in
    (
      rw is (ground (arith, find-remove id id s.networks)),
      λ node. rw is (ground (arith, entry-remove id id node s.members)),
      λ node. rw is (ground (arith, entry-remove id id node s.metadata)),
      λ j other. rw is (ground (arith, find-remove id j s.networks, bytes_eq_iff id j)),
      λ j node other. rw is (ground (arith, entry-remove id j node s.members, bytes_eq_iff id j)),
      λ j node other. rw is (ground (arith, entry-remove id j node s.metadata, bytes_eq_iff id j)),
    )
