-- ===== src/Store/Examples.antt =====
-- Runs of the store on concrete input, and its theorems at concrete input.
use ztgotroller.Base.{
  true, ℕ, ◌≡◌, ◌≢◌, refl, List, [], ◌∷◌, ascii, none, some, ok, err, check_each, has_duplicate,
  hex_digit_value, parse_hex, parse_hex_from, find, put, remove, is_among,
}
use ztgotroller.Domain.Ids.{
  NetworkId, NodeId, has_uppercase, parse_network_id, validate_hex_id, parse_node_id,
}
use ztgotroller.Domain.Members.{
  Member, validate_member, new_member, check_assignments, validate_unique_member_values,
}
use ztgotroller.Domain.Networks.{
  Network, validate_network, new_network, validate_collection_sizes, validate_dns, validate_rule,
  validate_unique_definitions,
}
use ztgotroller.Store.{
  Store, Context, cancelled, new_store, not_found, conflict, next_revision, save_network,
  save_member, delete_network, get_network, get_member, get_agent_metadata, create_member,
  create_network,
}
use ztgotroller.Store.Invariant.{IsStore}
use ztgotroller.Store.Revisions.{
  get_network-save_network, save_network-conflict, save_member-conflict, delete_network-forgets,
}
use ztgotroller.Store.Steps.{
  Operation, creates_network, deletes_network, creates_member, saves_member, run, run-IsStore,
  apply,
}

abbrev network_id : NetworkId
network_id = ascii "8056c2e21c000001"

abbrev node_id : NodeId
node_id = ascii "00000000ff"

abbrev home : Network
home = new_network network_id 5

abbrev laptop : Member
laptop = new_member network_id node_id 6

abbrev calls : List (Context × Operation)
calls =
    (none, creates_network home)
    ∷ (none, creates_member laptop)
    ∷ (some cancelled, deletes_network network_id 1)
    ∷ (none, saves_member (record laptop { revision = 1; authorized = true }))
    ∷ []

-- The stored values with revision `r` of the network.
abbrev store_at : ℕ → Store
store_at r = record {
  networks = (network_id, record home { revision = r }) ∷ [];
  members = (network_id, (node_id, record laptop { revision = 2; authorized = true }) ∷ []) ∷ [];
  metadata = [];
}

run-calls : run calls new_store ≡ store_at 1
unfolding run apply create_network save_network delete_network create_member save_member
    validate_member parse_network_id validate_hex_id parse_hex parse_hex_from hex_digit_value
    has_uppercase parse_node_id validate_unique_member_values check_assignments has_duplicate find
    put check_each is_among validate_collection_sizes validate_dns validate_network validate_rule
    validate_unique_definitions new_network new_member
run-calls = refl

run-IsStore_example : IsStore (run calls new_store)
run-IsStore_example = run-IsStore calls

home_valid : validate_network (record home { revision = 1 }) ≡ ok tt
unfolding validate_network parse_network_id validate_hex_id new_network parse_hex parse_hex_from
    hex_digit_value has_uppercase validate_collection_sizes check_each validate_rule
    validate_unique_definitions has_duplicate validate_dns
home_valid = refl

save-home : save_network none (record home { revision = 1 }) (store_at 1) ≡ ok (store_at 2)
unfolding save_network validate_network parse_network_id validate_hex_id new_network parse_hex
    parse_hex_from hex_digit_value has_uppercase validate_collection_sizes check_each validate_rule
    validate_unique_definitions has_duplicate validate_dns find put
save-home = refl

get_network-save_network_example :
    (get_network none network_id (store_at 2) ≡ ok (record home { revision = next_revision 1 }))
    × ((id : NetworkId)
        → id ≢ network_id
        → get_network none id (store_at 2) ≡ get_network none id (store_at 1))
unfolding new_network
get_network-save_network_example =
    get_network-save_network none (record home { revision = 1 }) (store_at 1) save-home

abbrev renamed : Network
renamed = record home { revision = 1; name = ascii "home" }

renamed_valid : validate_network renamed ≡ ok tt
unfolding validate_network parse_network_id validate_hex_id new_network parse_hex parse_hex_from
    hex_digit_value has_uppercase validate_collection_sizes check_each validate_rule
    validate_unique_definitions has_duplicate validate_dns
renamed_valid = refl

save_network-conflict_example : save_network none renamed (store_at 2) ≡ err conflict
save_network-conflict_example =
    save_network-conflict none (record home { revision = 1 }) renamed (store_at 1) save-home
      renamed_valid refl refl

abbrev blocked : Member
blocked = record laptop { revision = 2 }

abbrev after_save : Store
after_save = record {
  networks = (network_id, record home { revision = 1 }) ∷ [];
  members = (network_id, (node_id, record laptop { revision = 3 }) ∷ []) ∷ [];
  metadata = [];
}

save-blocked : save_member none blocked (store_at 1) ≡ ok after_save
unfolding save_member validate_member new_member parse_network_id validate_hex_id parse_hex
    parse_hex_from hex_digit_value has_uppercase parse_node_id validate_unique_member_values
    check_assignments has_duplicate find put
save-blocked = refl

blocked_valid : validate_member (record blocked { authorized = true }) ≡ ok tt
unfolding validate_member new_member parse_network_id validate_hex_id parse_hex parse_hex_from
    hex_digit_value has_uppercase parse_node_id validate_unique_member_values check_assignments
    has_duplicate
blocked_valid = refl

save_member-conflict_example :
    save_member none (record blocked { authorized = true }) after_save ≡ err conflict
save_member-conflict_example =
    save_member-conflict none blocked (record blocked { authorized = true }) (store_at 1)
      save-blocked blocked_valid refl refl refl

delete-home : delete_network none network_id 1 (store_at 1) ≡ ok new_store
unfolding delete_network find remove
delete-home = refl

delete_network-forgets_example :
    (get_network none network_id new_store ≡ err not_found)
    × ((node : NodeId) → get_member none network_id node new_store ≡ err not_found)
    × ((node : NodeId) → get_agent_metadata none network_id node new_store ≡ err not_found)
    × ((j : NetworkId)
        → j ≢ network_id
        → get_network none j new_store ≡ get_network none j (store_at 1))
    × ((j : NetworkId) (node : NodeId)
        → j ≢ network_id
        → get_member none j node new_store ≡ get_member none j node (store_at 1))
    × ((j : NetworkId) (node : NodeId)
        → j ≢ network_id
        → get_agent_metadata none j node new_store ≡ get_agent_metadata none j node (store_at 1))
delete_network-forgets_example = delete_network-forgets none network_id 1 (store_at 1) delete-home
