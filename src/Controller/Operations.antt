-- ===== src/Controller/Operations.antt =====
-- What each operation on networks keeps.
use ztgotroller.Base.{ℕ, ◌≡◌, not, Bytes, ok, ltb, ◌==◌}
use ztgotroller.Controller.{Service, validate_owned_network, create_controller_network}
use ztgotroller.Controller.Actions.{
  store_error, sequence_too_large, fail_when, reading, writing, checked_value,
}
use ztgotroller.Controller.Admin.{
  NetworkUpdate, apply_network_update, create_network_with_update, update_network,
  delete_owned_network,
}
use ztgotroller.Controller.Preserved.{
  Preserves, writing-Preserves, bind-Preserves, reading-Preserves, fail_when-Preserves,
  checked_value-Preserves, validate_owned_network-Preserves, then_Preserves,
}
use ztgotroller.Domain.Ids.{NetworkId, controller_id, new_network_id, parse_node_id}
use ztgotroller.Domain.Ids.Laws.{controller_id-new_network_id}
use ztgotroller.Domain.Networks.{new_network, validate_network}
use ztgotroller.Netip.{Time}
use ztgotroller.Store.{Context, conflict, create_network, get_network, save_network}
use ztgotroller.Store.Steps.{creates_network, saves_network, deletes_network, apply}

-- A service as `New` makes it: its own identifier is valid.
pub record IsService (service : Service) : Type 0 where
  pub valid : parse_node_id service.controller ≡ ok service.controller

module _ (service : Service) (is : IsService service) (c : Context) where
  own_network :
      (sequence : ℕ)
      → controller_id (new_network_id service.controller sequence) ≡ ok service.controller
  own_network sequence = controller_id-new_network_id service.controller sequence is.valid

  pub create_controller_network-Preserves :
      (sequence : ℕ) (name : Bytes) (now : Time)
      → Preserves service (create_controller_network service c sequence name now)
  unfolding create_controller_network apply new_network
  create_controller_network-Preserves sequence name now =
      let id = new_network_id service.controller sequence in
      let network = record (new_network id now) { name = name } in
      then_Preserves service (fail_when (ltb 0x00ffffff sequence) sequence_too_large) _
        (fail_when-Preserves service (ltb 0x00ffffff sequence) sequence_too_large)
        (then_Preserves service (writing (create_network c network)) _
          (writing-Preserves service c (creates_network network) (own_network sequence))
          (reading-Preserves service (get_network c id)))

  pub create_network_with_update-Preserves :
      (sequence : ℕ) (update : NetworkUpdate) (now : Time)
      → Preserves service (create_network_with_update service c sequence update now)
  unfolding create_network_with_update apply new_network apply_network_update
  create_network_with_update-Preserves sequence update now =
      let id = new_network_id service.controller sequence in
      let network = apply_network_update update (new_network id now) in
      then_Preserves service (fail_when (ltb 0x00ffffff sequence) sequence_too_large) _
        (fail_when-Preserves service (ltb 0x00ffffff sequence) sequence_too_large)
        (then_Preserves service (checked_value (validate_network network)) _
          (checked_value-Preserves service (validate_network network))
          (then_Preserves service (writing (create_network c network)) _
            (writing-Preserves service c (creates_network network) (own_network sequence))
            (reading-Preserves service (get_network c id))))

  pub update_network-Preserves :
      (id : NetworkId) (update : NetworkUpdate) (revision : ℕ) (now : Time)
      → Preserves service (update_network service c id update revision now)
  unfolding update_network apply
  update_network-Preserves id update revision now =
      let get = reading-Preserves service (get_network c id) in
      then_Preserves service (validate_owned_network service id) _
        (validate_owned_network-Preserves service id)
        (bind-Preserves service (reading (get_network c id)) _ get (λ n.
          let updated = record (apply_network_update update n) { updated_at = now } in
          then_Preserves service (fail_when (not (n.revision == revision)) (store_error conflict)) _
            (fail_when-Preserves service (not (n.revision == revision)) (store_error conflict))
            (then_Preserves service (checked_value (validate_network updated)) _
              (checked_value-Preserves service (validate_network updated))
              (then_Preserves service (writing (save_network c updated)) _
                (writing-Preserves service c (saves_network updated) tt) get))))

  pub delete_owned_network-Preserves :
      (id : NetworkId) → Preserves service (delete_owned_network service c id)
  unfolding delete_owned_network apply
  delete_owned_network-Preserves id =
      then_Preserves service (validate_owned_network service id) _
        (validate_owned_network-Preserves service id)
        (bind-Preserves service (reading (get_network c id)) _
          (reading-Preserves service (get_network c id))
          (λ n. writing-Preserves service c (deletes_network id n.revision) tt))
