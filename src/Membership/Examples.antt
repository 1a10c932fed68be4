-- ===== src/Membership/Examples.antt =====
-- Certificates on concrete input, and the theorems at concrete input.
use ztgotroller.Base.{
  ◌≡◌, refl, arith, [], ◌∷◌, ◌++◌, Bytes, ascii, ok, replicate, hex_decode, hex_digit_value,
  parse_hex, parse_hex_from, put_be, get_be_from,
}
use ztgotroller.Domain.Ids.{
  NetworkId, has_uppercase, validate_hex_id, parse_network_id, controller_id,
}
use ztgotroller.Identity.{Identity, public_identity, sign}
use ztgotroller.Identity.Examples.{controller, stand_in, stand_in-IsCrypto, fit}
use ztgotroller.Membership.{
  CertificateOfMembership, is_unsorted, check_signer, validate_certificate, qualifier_bytes,
  marshal_certificate, parse_certificate, parse_hex_uint, identity_public_hash, com_qualifiers,
  sign_certificate, new_certificate, verify_certificate,
}
use ztgotroller.Membership.Issued.{IsIssued, verify_certificate-new_certificate}
use ztgotroller.Membership.RoundTrip.{parse_certificate-marshal_certificate}

abbrev network : NetworkId
network = ascii "8056c2e21c000001"

abbrev member : Identity
member = record controller { address = ascii "00000000ff" }

abbrev small : CertificateOfMembership
small = record {
  qualifiers =
      record { id = 0; value = 5; max_delta = 60 }
      ∷ record { id = 2; value = 255; max_delta = 0 }
      ∷ [];
  signed_by = ascii "8056c2e21c";
  signature = replicate 96 1;
}

small_valid : validate_certificate small ≡ ok tt
unfolding validate_certificate is_unsorted check_signer validate_hex_id parse_hex parse_hex_from
    hex_digit_value has_uppercase
small_valid = refl

parse_certificate-marshal_certificate_example :
    (bytes : Bytes) × (marshal_certificate small ≡ ok bytes) × (parse_certificate bytes ≡ ok small)
parse_certificate-marshal_certificate_example =
    parse_certificate-marshal_certificate small small_valid
      (
        record { id_fits = omega arith; value_fits = omega arith; delta_fits = omega arith },
        (record { id_fits = omega arith; value_fits = omega arith; delta_fits = omega arith }, tt),
      )
      refl

abbrev issued : CertificateOfMembership
issued =
    let qualifiers =
      com_qualifiers 5 60 0x8056c2e21c000001 255
        ((0 ∷ 0 ∷ 0 ∷ 0 ∷ 255 ∷ []) ++ (replicate 32 7 ++ replicate 11 9)) in
    record {
      qualifiers = qualifiers;
      signed_by = ascii "8056c2e21c";
      signature =
          (replicate 32 9 ++ fit 32 (qualifier_bytes qualifiers))
          ++ fit 32 (qualifier_bytes qualifiers);
    }

new_certificate-issued : new_certificate stand_in 5 60 network member controller ≡ ok issued
unfolding new_certificate sign_certificate identity_public_hash com_qualifiers parse_hex_uint
    qualifier_bytes sign controller_id parse_network_id validate_hex_id parse_hex parse_hex_from
    hex_digit_value has_uppercase hex_decode get_be_from put_be
new_certificate-issued = refl

controller_valid : validate_hex_id controller.address 10 ≡ ok tt
unfolding validate_hex_id parse_hex parse_hex_from hex_digit_value has_uppercase
controller_valid = refl

verify_certificate-new_certificate_example :
    IsIssued 5 60 network member controller issued
    × (verify_certificate stand_in issued network (public_identity controller) ≡ ok tt)
verify_certificate-new_certificate_example =
    verify_certificate-new_certificate stand_in stand_in-IsCrypto 5 60 network member controller
      controller_valid refl new_certificate-issued
