-- ===== src/Revocation/Examples.antt =====
-- Revocations on concrete input, and the theorem at concrete input.
use ztgotroller.Base.{
  ◌≡◌, refl, true, [], ◌∷◌, ◌++◌, ascii, some, ok, pos, replicate, hex_digit_value, parse_hex,
  parse_hex_from, put_be,
}
use ztgotroller.Domain.Ids.{
  NetworkId, NodeId, has_uppercase, validate_hex_id, parse_network_id, controller_id,
}
use ztgotroller.Identity.{public_identity, sign}
use ztgotroller.Identity.Examples.{controller, stand_in, stand_in-IsCrypto, fit}
use ztgotroller.Revocation.{
  Revocation, com_draft, signed_bytes, new_com_revocation, verify_revocation, base_bytes,
  with_policy_sentinels,
}
use ztgotroller.Revocation.Issued.{IsRevocation, verify_revocation-new_com_revocation}

abbrev network : NetworkId
network = ascii "8056c2e21c000001"

abbrev target : NodeId
target = ascii "00000000ff"

abbrev draft : Revocation
draft = com_draft network target 1000 (ascii "8056c2e21c") (0 ∷ 0 ∷ 1 ∷ 2 ∷ [])

abbrev revoked : Revocation
revoked = record draft {
  signature = (replicate 32 9 ++ fit 32 (signed_bytes draft)) ++ fit 32 (signed_bytes draft);
}

new_com_revocation-revoked :
    new_com_revocation stand_in network target (pos 1000) controller (some (0 ∷ 0 ∷ 1 ∷ 2 ∷ []))
    ≡ ok revoked
unfolding new_com_revocation sign controller_id parse_network_id validate_hex_id parse_hex
    parse_hex_from hex_digit_value has_uppercase base_bytes with_policy_sentinels put_be
new_com_revocation-revoked = refl

verify_revocation-new_com_revocation_example :
    IsRevocation network target (pos 1000) controller revoked
    × (verify_revocation stand_in revoked (public_identity controller) ≡ true)
verify_revocation-new_com_revocation_example =
    verify_revocation-new_com_revocation stand_in stand_in-IsCrypto network target (pos 1000)
      controller (some (0 ∷ 0 ∷ 1 ∷ 2 ∷ [])) refl new_com_revocation-revoked
