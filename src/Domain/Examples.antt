-- ===== src/Domain/Examples.antt =====
-- Runs of the identifier code on concrete input, and its theorems at concrete input.
use ztgotroller.Domain.Members.{
  Member, validate_member, new_member, check_assignments, validate_unique_member_values,
}
use ztgotroller.Domain.Members.Laws.{IsValidMember, validate_member-ok_iff}
use ztgotroller.Domain.Networks.{
  Network, validate_network, new_network, mtu_out_of_range, duplicate_assignment,
}
use ztgotroller.Domain.Networks.Laws.{validate_network-ok_iff}
use ztgotroller.Domain.Networks.Valid.{IsValidNetwork}
use ztgotroller.Netip.{ip4, addr_eq, is_valid}
use ztgotroller.Base.{
  format_hex, pos, [], ◌∷◌, ◌≡◌, refl, arith, Bytes, ascii, length, All, IsHexDigit, ok, err, ◌↔◌,
  hex_digit, hex_digit_value, parse_hex, parse_hex_from, is_among,
}
use ztgotroller.Domain.Ids.{
  validate_hex_id, parse_node_id, new_network_id, controller_id, wrong_length, not_hexadecimal,
  not_lowercase, has_uppercase, padded_hex, parse_network_id,
}
use ztgotroller.Domain.Ids.Laws.{validate_hex_id-ok_iff, controller_id-new_network_id}

abbrev controller : Bytes
controller = ascii "8056c2e21c"

parse_short : parse_node_id (ascii "8056c2e2") ≡ err wrong_length
unfolding parse_node_id validate_hex_id
parse_short = refl

parse_letter : parse_node_id (ascii "8056c2e21g") ≡ err not_hexadecimal
unfolding parse_node_id validate_hex_id parse_hex parse_hex_from hex_digit_value
parse_letter = refl

parse_uppercase : parse_node_id (ascii "8056C2E21C") ≡ err not_lowercase
unfolding parse_node_id validate_hex_id parse_hex parse_hex_from hex_digit_value has_uppercase
parse_uppercase = refl

parse_controller : parse_node_id controller ≡ ok controller
unfolding parse_node_id validate_hex_id parse_hex parse_hex_from hex_digit_value has_uppercase
parse_controller = refl

new_network_id-wraps : new_network_id controller 0x2000001 ≡ ascii "8056c2e21c000001"
unfolding new_network_id padded_hex hex_digit format_hex
new_network_id-wraps = refl

validate_hex_id-ok_iff_example :
    (validate_hex_id controller 10 ≡ ok tt) ↔ ((length controller ≡ 10) × All IsHexDigit controller)
validate_hex_id-ok_iff_example = validate_hex_id-ok_iff controller 10 (omega arith) (omega arith)

controller_id-new_network_id_example :
    controller_id (new_network_id controller 0x2000001) ≡ ok controller
controller_id-new_network_id_example =
    controller_id-new_network_id controller 0x2000001 parse_controller

abbrev home : Network
home = new_network (ascii "8056c2e21c000001") 5

validate_network_bad_mtu : validate_network (record home { mtu = pos 1279 }) ≡ err mtu_out_of_range
unfolding validate_network parse_network_id validate_hex_id new_network parse_hex parse_hex_from
    hex_digit_value has_uppercase
validate_network_bad_mtu = refl

validate_network-ok_iff_example : (validate_network home ≡ ok tt) ↔ IsValidNetwork home
validate_network-ok_iff_example = validate_network-ok_iff home

abbrev laptop : Member
laptop = record (new_member (ascii "8056c2e21c000001") (ascii "00000000ff") 6) {
  ip_assignments = ip4 1 ∷ ip4 2 ∷ [];
}

validate_member_twice :
    validate_member (record laptop { ip_assignments = ip4 1 ∷ ip4 2 ∷ ip4 1 ∷ [] })
    ≡ err duplicate_assignment
unfolding validate_member new_member parse_network_id validate_hex_id parse_hex parse_hex_from
    hex_digit_value has_uppercase parse_node_id validate_unique_member_values check_assignments
    is_valid is_among addr_eq
validate_member_twice = refl

validate_member-ok_iff_example : (validate_member laptop ≡ ok tt) ↔ IsValidMember laptop
validate_member-ok_iff_example = validate_member-ok_iff laptop
