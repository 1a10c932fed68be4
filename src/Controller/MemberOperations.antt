-- ===== src/Controller/MemberOperations.antt =====
-- What each operation on members keeps.
use ztgotroller.Base.{
  ℕ, Bool, true, false, not, ◌&&◌, ◌||◌, List, [], ◌∷◌, ◌++◌, Option, none, Result, ok, err, ◌==◌,
  length,
}
use ztgotroller.Controller.{
  Service, Clock, validate_owned_network, created_or_found, existing_or_created, register_member,
  member_has_specialist_role, bump_if, with_authorization, bool_eq, save_authorized,
  set_member_authorization, Deauthorization, is_already_exists, is_not_found,
}
use ztgotroller.Controller.Actions.{
  Action, Error, store_error, ◌>>=◌, fail_when, reading, writing, attempt, checked, checked_value,
}
use ztgotroller.Controller.Addresses.{
  used_addresses, new_addresses, needs_family, save_assigned, assign_addresses,
  ensure_automatic_assignments,
}
use ztgotroller.Controller.Admin.{
  MemberUpdate, delete_owned_member, specialists_changed, apply_member_update, update_member,
}
use ztgotroller.Controller.Preserved.{
  Preserves, writing-Preserves, bind-Preserves, reading-Preserves, fail_when-Preserves,
  checked-Preserves, checked_value-Preserves, validate_owned_network-Preserves, then_Preserves,
  if-Preserves, return-Preserves, bump_if-Preserves,
}
use ztgotroller.Domain.Ids.{NetworkId, NodeId, validate_hex_id}
use ztgotroller.Domain.Members.{Member, new_member, validate_member}
use ztgotroller.Domain.Networks.{Network}
use ztgotroller.Netip.{Time, Addr}
use ztgotroller.Store.{Context, conflict, get_member, save_member}
use ztgotroller.Store.Listing.{list_members}
use ztgotroller.Store.Steps.{creates_member, saves_member, deletes_member, apply}

module _ (service : Service) (c : Context) where
  created_or_found-Preserves :
      (again : Action Member) (r : Result Error (Unit {0}))
      → Preserves service again
      → Preserves service (created_or_found again r)
  created_or_found-Preserves again (ok u) h = h
  created_or_found-Preserves again (err e) h =
      then_Preserves service (fail_when (not (is_already_exists e)) e) again
        (fail_when-Preserves service (not (is_already_exists e)) e) h

  existing_or_created-Preserves :
      (create : Action Member) (r : Result Error Member)
      → Preserves service create
      → Preserves service (existing_or_created create r)
  existing_or_created-Preserves create (ok m) h = return-Preserves service m
  existing_or_created-Preserves create (err e) h =
      then_Preserves service (fail_when (not (is_not_found e)) e) create
        (fail_when-Preserves service (not (is_not_found e)) e) h

  pub register_member-Preserves :
      (id : NetworkId) (node : NodeId) (now : Time)
      → Preserves service (register_member service c id node now)
  unfolding register_member apply
  register_member-Preserves id node now =
      let get = reading (get_member c id node) in
      let kept = reading-Preserves service (get_member c id node) in
      let create = writing (apply c (creates_member (new_member id node now))) in
      let next = attempt create >>= created_or_found get in
      then_Preserves service (validate_owned_network service id) _
        (validate_owned_network-Preserves service id)
        (then_Preserves service (checked (validate_hex_id node 10)) _
          (checked-Preserves service (validate_hex_id node 10))
          (bind-Preserves service (attempt get) (existing_or_created next) kept (λ r.
            existing_or_created-Preserves next r (
              bind-Preserves service (attempt create) (created_or_found get)
                (writing-Preserves service c (creates_member (new_member id node now)) tt)
                (λ k. created_or_found-Preserves get k kept)))))

  pub set_member_authorization-Preserves :
      (id : NetworkId) (node : NodeId) (authorized : Bool) (revision : ℕ) (clock : Clock)
      → Preserves service (set_member_authorization service c id node authorized revision clock)
  unfolding set_member_authorization save_authorized apply
  set_member_authorization-Preserves id node authorized revision clock =
      let get = reading-Preserves service (get_member c id node) in
      then_Preserves service (validate_owned_network service id) _
        (validate_owned_network-Preserves service id)
        (bind-Preserves service (reading (get_member c id node)) _ get (λ m.
          let changed = with_authorization authorized clock m in
          let special = member_has_specialist_role changed in
          then_Preserves service (fail_when (not (m.revision == revision)) (store_error conflict)) _
            (fail_when-Preserves service (not (m.revision == revision)) (store_error conflict))
            (if-Preserves service (bool_eq m.authorized authorized) _ _
              (return-Preserves service {B = Member × Option Deauthorization} (m, none))
              (then_Preserves service (writing (save_member c changed)) _
                (writing-Preserves service c (saves_member changed) tt)
                (then_Preserves service (bump_if special c id (clock 2)) _
                  (bump_if-Preserves service special c id (clock 2))
                  (bind-Preserves service (reading (get_member c id node)) _ get
                    (λ saved s k. k)))))))

  pub delete_owned_member-Preserves :
      (id : NetworkId) (node : NodeId) (now : Time)
      → Preserves service (delete_owned_member service c id node now)
  unfolding delete_owned_member apply
  delete_owned_member-Preserves id node now =
      then_Preserves service (validate_owned_network service id) _
        (validate_owned_network-Preserves service id)
        (bind-Preserves service (reading (get_member c id node)) _
          (reading-Preserves service (get_member c id node))
          (λ m.
            let special = m.authorized && member_has_specialist_role m in
            then_Preserves service (bump_if special c id now) _
              (bump_if-Preserves service special c id now)
              (writing-Preserves service c (deletes_member id node m.revision) tt)))

  pub update_member-Preserves :
      (id : NetworkId) (node : NodeId) (update : MemberUpdate) (revision : ℕ) (clock : Clock)
      → Preserves service (update_member service c id node update revision clock)
  unfolding update_member apply
  update_member-Preserves id node update revision clock =
      let get = reading-Preserves service (get_member c id node) in
      then_Preserves service (validate_owned_network service id) _
        (validate_owned_network-Preserves service id)
        (bind-Preserves service (reading (get_member c id node)) _ get (λ m.
          let updated = apply_member_update update (clock 0) m in
          let special = specialists_changed update m in
          then_Preserves service (fail_when (not (m.revision == revision)) (store_error conflict)) _
            (fail_when-Preserves service (not (m.revision == revision)) (store_error conflict))
            (then_Preserves service (checked_value (validate_member updated)) _
              (checked_value-Preserves service (validate_member updated))
              (then_Preserves service (writing (save_member c updated)) _
                (writing-Preserves service c (saves_member updated) tt)
                (then_Preserves service (bump_if special c id (clock 1)) _
                  (bump_if-Preserves service special c id (clock 1)) get)))))

  save_assigned-Preserves :
      (id : NetworkId) (now : Time) (new : List Addr) (m : Member)
      → Preserves service (save_assigned c id now new m)
  unfolding apply
  save_assigned-Preserves id now [] m = return-Preserves service m
  save_assigned-Preserves id now (a ∷ new) m =
      let changed = record m { ip_assignments = m.ip_assignments ++ (a ∷ new); updated_at = now } in
      then_Preserves service (checked_value (validate_member changed)) _
        (checked_value-Preserves service (validate_member changed))
        (then_Preserves service (writing (save_member c changed)) _
          (writing-Preserves service c (saves_member changed) tt)
          (reading-Preserves service (get_member c id m.node_id)))

  assign_addresses-Preserves :
      (network : Network) (member : Member) (now : Time)
      → Preserves service (assign_addresses c network member now)
  unfolding assign_addresses
  assign_addresses-Preserves network member now =
      bind-Preserves service (reading (get_member c network.id member.node_id)) _
        (reading-Preserves service (get_member c network.id member.node_id))
        (λ current.
          let need4 = needs_family network.assignment.ipv4_zerotier current true in
          let need6 = needs_family network.assignment.ipv6_zerotier current false in
          if-Preserves service (current.no_auto_assign || (not need4 && not need6)) _ _
            (return-Preserves service current)
            (bind-Preserves service (reading (list_members c network.id)) _
              (reading-Preserves service (list_members c network.id))
              (λ ms.
                save_assigned-Preserves network.id now
                  (new_addresses network (used_addresses ms) need4 need6) current)))

  pub ensure_automatic_assignments-Preserves :
      (network : Network) (member : Member) (now : Time)
      → Preserves service (ensure_automatic_assignments c network member now)
  unfolding ensure_automatic_assignments
  ensure_automatic_assignments-Preserves network member now =
      let need4 = needs_family network.assignment.ipv4_zerotier member true in
      let need6 = needs_family network.assignment.ipv6_zerotier member false in
      if-Preserves service
        (member.no_auto_assign || length network.ip_pools == 0 || (not need4 && not need6)) _ _
        (return-Preserves service member) (assign_addresses-Preserves network member now)
