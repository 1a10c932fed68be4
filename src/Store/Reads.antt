-- ===== src/Store/Reads.antt =====
-- What the store's reads return behind its writes.
use ztgotroller.Base.{◌≡◌, refl, arith, ok, bytes_keys, bytes_eq_iff, Option-cases, inl, inr}
use ztgotroller.Domain.Ids.{NetworkId, NodeId}
use ztgotroller.Domain.Members.{Member}
use ztgotroller.Store.{Context, Store, get_member, save_member, create_member, next_revision}
use ztgotroller.Store.Entries.{entry, entry-put}
use ztgotroller.Store.Invariant.{IsStore}
use ztgotroller.Store.Outcomes.{save_member-ok, create_member-ok}

pub get_member-saved :
    (context : Context) (m : Member) (id : NetworkId) (node : NodeId) (s : Store) {t : Store}
    → m.network_id ≡ id
    → m.node_id ≡ node
    → save_member context m s ≡ ok t
    → get_member context id node t ≡ ok (record m { revision = next_revision m.revision })
unfolding get_member save_member
get_member-saved context m id node s {t} i n h =
    let (current, valid, present, same, is) = save_member-ok context m s h in
    let saved = record m { revision = next_revision m.revision } in
    let at = entry-put m.network_id id m.node_id node saved s.members in
    ground (arith, bytes_eq_iff m.network_id id, bytes_eq_iff m.node_id node)

pub get_member-created :
    (c : Context) (m : Member) (id : NetworkId) (node : NodeId) (s : Store) {t : Store}
    → m.network_id ≡ id
    → m.node_id ≡ node
    → create_member c m s ≡ ok t
    → get_member c id node t ≡ ok (record m { revision = 1 })
unfolding get_member create_member
get_member-created c m id node s {t} i n h =
    let (network, valid, present, absent, is) = create_member-ok c m s h in
    let saved = record m { revision = 1 } in
    let at = entry-put m.network_id id m.node_id node saved s.members in
    ground (arith, bytes_eq_iff m.network_id id, bytes_eq_iff m.node_id node)

pub filed :
    (context : Context) (id : NetworkId) (node : NodeId) (s : Store) {m : Member}
    → IsStore s
    → get_member context id node s ≡ ok m
    → (m.network_id ≡ id) × (m.node_id ≡ node)
unfolding get_member
filed context id node s {m} is h = elim (Option-cases (entry id node s.members)) [
  | inl absent ↦ absurd (ground arith)
  | inr (k, present) ↦
      let (i, n, valid) = is.member_filed id node k present in
      let same : k ≡ m = ground arith in rw (← same) (i, n)
]

-- Reading a member depends on the members alone.
pub get_member-members :
    (context : Context) (id : NetworkId) (node : NodeId) (s t : Store)
    → t.members ≡ s.members
    → get_member context id node t ≡ get_member context id node s
unfolding get_member
get_member-members context id node s t h = rw h refl
