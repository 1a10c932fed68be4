-- ===== src/Controller/Calls.antt =====
-- The operations of the service as calls, and what holds after any series of them.
use ztgotroller.Base.{ℕ, Bool, List, [], ◌∷◌, Bytes, Option}
use ztgotroller.Controller.{
  Service, Clock, create_controller_network, create_random_network, register_member,
  set_member_authorization,
}
use ztgotroller.Controller.Addresses.{ensure_automatic_assignments}
use ztgotroller.Controller.Admin.{
  NetworkUpdate, MemberUpdate, create_network_with_update, create_random_network_with_update,
  update_network, delete_owned_network, delete_owned_member, update_member,
}
use ztgotroller.Controller.Config.{Issue, handle_config_request}
use ztgotroller.Controller.Config.Kept.{handle_config_request-Preserves}
use ztgotroller.Controller.MemberOperations.{
  register_member-Preserves, set_member_authorization-Preserves, delete_owned_member-Preserves,
  update_member-Preserves, ensure_automatic_assignments-Preserves,
}
use ztgotroller.Controller.Operations.{
  IsService, create_controller_network-Preserves, create_network_with_update-Preserves,
  update_network-Preserves, delete_owned_network-Preserves,
}
use ztgotroller.Controller.Preserved.{
  IsControlled, new_store-IsControlled, create_random_loop-Preserves,
}
use ztgotroller.Domain.Ids.{NetworkId, NodeId}
use ztgotroller.Domain.Members.{Member}
use ztgotroller.Domain.Networks.{Network}
use ztgotroller.Identity.{Identity}
use ztgotroller.Netip.{Time}
use ztgotroller.Packet.Header.{Decoded}
use ztgotroller.Store.{Context, Store, new_store}

-- A call of the service that may change the store; `assigns_addresses` is the internal step of a
-- config request on its own.
pub data Call : Type 0 where
  creates_network : ℕ → Bytes → Time → Call
  creates_random_network : Bytes → (ℕ → Option Bytes) → Clock → Call
  creates_network_with_update : ℕ → NetworkUpdate → Time → Call
  creates_random_network_with_update : NetworkUpdate → (ℕ → Option Bytes) → Clock → Call
  registers_member : NetworkId → NodeId → Time → Call
  sets_authorization : NetworkId → NodeId → Bool → ℕ → Clock → Call
  updates_network : NetworkId → NetworkUpdate → ℕ → Time → Call
  deletes_network : NetworkId → Call
  deletes_member : NetworkId → NodeId → Time → Call
  updates_member : NetworkId → NodeId → MemberUpdate → ℕ → Clock → Call
  assigns_addresses : Network → Member → Time → Call
  handles_config_request : Issue → Decoded → Identity → Identity → Clock → Call

-- The store that a call leaves.
unfoldable pub perform : Service → Context → Call → Store → Store
perform v c (creates_network sequence name now) s =
    (create_controller_network v c sequence name now s).1
perform v c (creates_random_network name random clock) s =
    (create_random_network v c name random clock s).1
perform v c (creates_network_with_update sequence update now) s =
    (create_network_with_update v c sequence update now s).1
perform v c (creates_random_network_with_update update random clock) s =
    (create_random_network_with_update v c update random clock s).1
perform v c (registers_member id node now) s = (register_member v c id node now s).1
perform v c (sets_authorization id node authorized revision clock) s =
    (set_member_authorization v c id node authorized revision clock s).1
perform v c (updates_network id update revision now) s =
    (update_network v c id update revision now s).1
perform v c (deletes_network id) s = (delete_owned_network v c id s).1
perform v c (deletes_member id node now) s = (delete_owned_member v c id node now s).1
perform v c (updates_member id node update revision clock) s =
    (update_member v c id node update revision clock s).1
perform v c (assigns_addresses network member now) s =
    (ensure_automatic_assignments c network member now s).1
perform v c (handles_config_request issue decoded recipient controller clock) s =
    (handle_config_request v c issue decoded recipient controller clock s).1

unfoldable pub perform_all : Service → List (Context × Call) → Store → Store
perform_all service [] s = s
perform_all service ((c, call) ∷ calls) s = perform_all service calls (perform service c call s)

module _ (v : Service) (is : IsService v) where
  perform-IsControlled :
      (c : Context) (call : Call) (s : Store)
      → IsControlled v s
      → IsControlled v (perform v c call s)
  unfolding perform create_random_network create_random_network_with_update
  perform-IsControlled c (creates_network sequence name now) s h =
      create_controller_network-Preserves v is c sequence name now s h
  perform-IsControlled c (creates_random_network name random clock) s h =
      create_random_loop-Preserves v random
        (λ number sequence. create_controller_network v c sequence name (clock number))
        (λ number sequence. create_controller_network-Preserves v is c sequence name (clock number))
        0 100000 s h
  perform-IsControlled c (creates_network_with_update sequence update now) s h =
      create_network_with_update-Preserves v is c sequence update now s h
  perform-IsControlled c (creates_random_network_with_update update random clock) s h =
      create_random_loop-Preserves v random
        (λ number sequence. create_network_with_update v c sequence update (clock number))
        (λ number sequence.
          create_network_with_update-Preserves v is c sequence update (clock number))
        0 100000 s h
  perform-IsControlled c (registers_member id node now) s h =
      register_member-Preserves v c id node now s h
  perform-IsControlled c (sets_authorization id node authorized revision clock) s h =
      set_member_authorization-Preserves v c id node authorized revision clock s h
  perform-IsControlled c (updates_network id update revision now) s h =
      update_network-Preserves v is c id update revision now s h
  perform-IsControlled c (deletes_network id) s h = delete_owned_network-Preserves v is c id s h
  perform-IsControlled c (deletes_member id node now) s h =
      delete_owned_member-Preserves v c id node now s h
  perform-IsControlled c (updates_member id node update revision clock) s h =
      update_member-Preserves v c id node update revision clock s h
  perform-IsControlled c (assigns_addresses network member now) s h =
      ensure_automatic_assignments-Preserves v c network member now s h
  perform-IsControlled c (handles_config_request issue decoded recipient controller clock) s h =
      handle_config_request-Preserves v c issue decoded recipient controller clock s h

  perform_from-IsControlled :
      (calls : List (Context × Call)) (s : Store)
      → IsControlled v s
      → IsControlled v (perform_all v calls s)
  unfolding perform_all
  perform_from-IsControlled [] s h = h
  perform_from-IsControlled ((c, call) ∷ calls) s h =
      perform_from-IsControlled calls (perform v c call s) (perform-IsControlled c call s h)

-- After any series of calls of a service whose own identifier is valid, config requests that write
-- members' reports included, whatever configurations they are answered with, on a new store and
-- with failed calls among them: the store is well-formed, and every network in it belongs to this
-- controller.
pub perform_all-IsControlled :
    (service : Service) (calls : List (Context × Call))
    → IsService service
    → IsControlled service (perform_all service calls new_store)
perform_all-IsControlled service calls is =
    perform_from-IsControlled service is calls new_store (new_store-IsControlled service)
