-- ===== src/Controller/Addresses/Ensured.antt =====
-- What `ensureAutomaticAssignments` does to the member and the store.
use mathlib.Core.List.{append-nil}
use ztgotroller.Base.{
  ◌≡◌, refl, sym, ap, arith, true, false, not, ◌&&◌, ◌||◌, List, [], ◌∷◌, ◌++◌, none, ok,
  bytes_keys, ◌==◌, length, Result-cases, Bool-cases, inl, inr, ◌⊎◌,
}
use ztgotroller.Domain.Ids.{NetworkId, NodeId}
use ztgotroller.Domain.Members.{Member, validate_member}
use ztgotroller.Domain.Networks.{Network}
use ztgotroller.Netip.{Addr, Time}
use ztgotroller.Store.{Context, Store, get_member, save_member, next_revision}
use ztgotroller.Store.Invariant.{IsStore}
use ztgotroller.Store.Listing.{list_members}
use ztgotroller.Store.Reads.{get_member-saved, filed}
use ztgotroller.Controller.Addresses.{
  used_addresses, new_addresses, needs_family, save_assigned, assign_addresses,
  ensure_automatic_assignments,
}
use ztgotroller.Controller.Addresses.Assigned.{IsAssignment, new_addresses-IsAssignment}

-- The member with the new addresses, as it is read back.
record IsSaved (context : Context) (id : NetworkId) (node : NodeId) (new : List Addr)
    (current m : Member) (t : Store) : Type 0 where
  assigned : m.ip_assignments ≡ current.ip_assignments ++ new
  read_back : get_member context id node t ≡ ok m

save_assigned-IsSaved :
    (context : Context) (id : NetworkId) (node : NodeId) (now : Time) (new : List Addr)
    (current : Member) (s : Store) {m : Member} {t : Store}
    → get_member context id node s ≡ ok current
    → current.network_id ≡ id
    → current.node_id ≡ node
    → save_assigned context id now new current s ≡ (ok m, t)
    → IsSaved context id node new current m t
save_assigned-IsSaved context id node now [] current s {m} {t} g i n h =
    let same : current ≡ m = ground arith in
    let store : s ≡ t = ground arith in
    record {
      assigned = rw (← same) (sym (append-nil current.ip_assignments));
      read_back = rw (← same, ← store) g;
    }
save_assigned-IsSaved context id node now (a ∷ new) current s {m} {t} g i n h =
    let changed = record current {
      ip_assignments = current.ip_assignments ++ (a ∷ new);
      updated_at = now;
    } in
    elim (Result-cases (validate_member changed)) [
      | inr (e, bad) ↦ absurd (ground arith)
      | inl (u, valid) ↦ elim (Result-cases (save_member context changed s)) [
        | inr (e, bad) ↦ absurd (ground arith)
        | inl (s1, saved) ↦
            let back = get_member-saved context changed id node s i n saved in
            let same : record changed { revision = next_revision changed.revision } ≡ m =
              ground (arith, back) in
            let store : s1 ≡ t = ground (arith, back) in
            record {
              assigned = ap (λ (x : Member). x.ip_assignments) (sym same);
              read_back = rw (← same, ← store) back;
            }
      ]
    ]

-- What a successful call does: nothing, or an assignment to the stored member.
pub record IsEnsured (context : Context) (network : Network) (node : NodeId) (s : Store)
    (m : Member) (t : Store) : Type 0 where
  pub current : Member
  pub new : List Addr
  pub was : get_member context network.id node s ≡ ok current
  pub assigned : m.ip_assignments ≡ current.ip_assignments ++ new
  pub assignment : IsAssignment network s current new
  pub read_back : get_member context network.id node t ≡ ok m

nothing_new : (network : Network) (s : Store) (current : Member) → IsAssignment network s current []
nothing_new network s current = record {
  four = none;
  six = none;
  both = refl;
  is_new4 = tt;
  is_new6 = tt;
  needed4 = tt;
  needed6 = tt;
}

assign_addresses-IsEnsured :
    (context : Context) (network : Network) (member : Member) (now : Time) (s : Store) {m : Member}
    {t : Store}
    → IsStore s
    → assign_addresses context network member now s ≡ (ok m, t)
    → IsEnsured context network member.node_id s m t
unfolding assign_addresses
assign_addresses-IsEnsured context network member now s {m} {t} is h =
    let node = member.node_id in
    elim (Result-cases (get_member context network.id node s)) [
      | inr (e, bad) ↦ absurd (ground arith)
      | inl (current, was) ↦
          let need4 = needs_family network.assignment.ipv4_zerotier current true in
          let need6 = needs_family network.assignment.ipv6_zerotier current false in
          let (i, n) = filed context network.id node s is was in
          elim (Bool-cases (current.no_auto_assign || (not need4 && not need6))) [
            | inl settled ↦
                let same : current ≡ m = ground arith in
                let store : s ≡ t = ground arith in
                record {
                  current = current;
                  new = [];
                  was = was;
                  assigned = rw (← same) (sym (append-nil current.ip_assignments));
                  assignment = nothing_new network s current;
                  read_back = rw (← same, ← store) was;
                }
            | inr needed ↦ elim (Result-cases (list_members context network.id s)) [
              | inr (e, bad) ↦ absurd (ground arith)
              | inl (ms, listed) ↦
                  let new = new_addresses network (used_addresses ms) need4 need6 in
                  let saved =
                    save_assigned-IsSaved context network.id node now new current s {m = m} {t = t}
                      was i n (ground arith) in
                  record {
                    current = current;
                    new = new;
                    was = was;
                    assigned = saved.assigned;
                    assignment = new_addresses-IsAssignment context network s current listed;
                    read_back = saved.read_back;
                  }
            ]
          ]
    ]

-- In a well-formed store, a successful `ensureAutomaticAssignments` either returns its argument and
-- leaves the store, or returns the stored member with at most one new address of each family behind
-- its assignments, as it is then read back from the store. A new address is of a family that the
-- network assigns and the member lacks, it lies in one of the network's pools and under a managed
-- route, and no member of the network had it.
pub ensure_automatic_assignments-IsEnsured :
    (context : Context) (network : Network) (member : Member) (now : Time) (s : Store) {m : Member}
    {t : Store}
    → IsStore s
    → ensure_automatic_assignments context network member now s ≡ (ok m, t)
    → ((m ≡ member) × (t ≡ s)) ⊎ IsEnsured context network member.node_id s m t
unfolding ensure_automatic_assignments
ensure_automatic_assignments-IsEnsured context network member now s {m} {t} is h =
    let need4 = needs_family network.assignment.ipv4_zerotier member true in
    let need6 = needs_family network.assignment.ipv6_zerotier member false in
    elim (Bool-cases
      (member.no_auto_assign || length network.ip_pools == 0 || (not need4 && not need6))) [
        | inl settled ↦ inl (ground arith, ground arith)
        | inr needed ↦
            inr (assign_addresses-IsEnsured context network member now s is (ground arith))
      ]
