-- ===== src/Membership.antt =====
-- `membership.go`: certificates of membership, their signature and their binary form.
pub mod RoundTrip
pub mod Issued
mod Examples
use ztgotroller.Base.{
  ℕ, zero, suc, ◌+◌, ◌*◌, ◌-◌, Bool, false, not, ◌||◌, List, [], ◌∷◌, ◌++◌, Bytes, none, some,
  length, drop, slice, byte_at, concat, ltb, ◌==◌, if◌then◌else◌, bytes_eq, get_be, put_be,
  hex_encode, hex_decode, Result, ok, err, ◌>>=◌, ◌>>◌, fail_if,
}
use ztgotroller.Domain.Ids.{
  IdError, NodeId, NetworkId, parse_node_id, validate_hex_id, controller_id, id_bytes,
}
use ztgotroller.Identity.{Identity, sign, verify, signature_length}
use ztgotroller.Identity.Primitives.{Crypto}

pub data Error : Type 0 where
  qualifier_count unsorted_qualifiers truncated unsupported_version length_mismatch : Error
  invalid_signer : IdError → Error
  not_from_controller other_signer invalid_signature not_hexadecimal slice_out_of_bounds : Error
  cannot_sign : ztgotroller.Identity.Error → Error

abbrev pub membership_format_version : ℕ
membership_format_version = 1

abbrev pub max_com_qualifiers : ℕ
max_com_qualifiers = 8

-- The fields of a qualifier are 64-bit numbers.
pub record ComQualifier : Type 0 where
  pub id : ℕ
  pub value : ℕ
  pub max_delta : ℕ

pub record CertificateOfMembership : Type 0 where
  pub qualifiers : List ComQualifier
  pub signed_by : NodeId
  pub signature : Bytes

-- The loop of `validate`: an identifier below the one before it.
unfoldable pub is_unsorted : List ComQualifier → Bool
is_unsorted [] = false
is_unsorted (q ∷ []) = false
is_unsorted (q ∷ r ∷ rest) = ltb r.id q.id || is_unsorted (r ∷ rest)

unfoldable pub check_signer : NodeId → Result Error (Unit {0})
check_signer id = elim (validate_hex_id id 10) [ ok _ ↦ ok tt | err e ↦ err (invalid_signer e) ]

unfoldable pub validate_certificate : CertificateOfMembership → Result Error (Unit {0})
validate_certificate certificate = do
  fail_if
      (length certificate.qualifiers == 0 || ltb max_com_qualifiers (length certificate.qualifiers))
      qualifier_count
  fail_if (is_unsorted certificate.qualifiers) unsorted_qualifiers
  check_signer certificate.signed_by

-- `signedPayload`.
unfoldable pub qualifier_bytes : List ComQualifier → Bytes
qualifier_bytes [] = []
qualifier_bytes (q ∷ rest) =
    put_be 8 q.id ++ (put_be 8 q.value ++ (put_be 8 q.max_delta ++ qualifier_bytes rest))

-- `mustControllerID`: the empty string on an error.
abbrev pub must_controller_id : NetworkId → NodeId
must_controller_id id = elim (controller_id id) [ ok controller ↦ controller | err e ↦ [] ]

-- `parseHexUint`, with padding by leading zeros. On more than eight bytes `padded[8-len(decoded):]`
-- panics, which `slice_out_of_bounds` stands for.
unfoldable pub parse_hex_uint : Bytes → Result Error ℕ
parse_hex_uint value = elim (hex_decode value) [
  | none ↦ err not_hexadecimal
  | some bytes ↦ if ltb 8 (length bytes) then err slice_out_of_bounds else ok (get_be bytes)
]

unfoldable pub marshal_certificate : CertificateOfMembership → Result Error Bytes
marshal_certificate certificate = do
  validate_certificate certificate
  ok (
      concat (
        (membership_format_version ∷ [])
        ∷ put_be 2 (length certificate.qualifiers)
        ∷ qualifier_bytes certificate.qualifiers
        ∷ id_bytes certificate.signed_by
        ∷ certificate.signature
        ∷ []))

-- The loop over the qualifiers, on the bytes from the next one on.
unfoldable pub read_qualifiers : ℕ → Bytes → List ComQualifier
read_qualifiers zero bytes = []
read_qualifiers (suc count) bytes =
    record {
      id = get_be (slice 0 8 bytes);
      value = get_be (slice 8 16 bytes);
      max_delta = get_be (slice 16 24 bytes);
    }
    ∷ read_qualifiers count (drop 24 bytes)

unfoldable pub parse_signer : Bytes → Result Error NodeId
parse_signer text = elim (parse_node_id text) [ ok id ↦ ok id | err e ↦ err (invalid_signer e) ]

unfoldable pub parse_certificate : Bytes → Result Error CertificateOfMembership
parse_certificate serialized = do
  fail_if (ltb (length serialized) 8) truncated
  fail_if (not (byte_at serialized 0 == membership_format_version)) unsupported_version
  let count = get_be (slice 1 3 serialized)
  fail_if (count == 0 || ltb max_com_qualifiers count) qualifier_count
  fail_if (not (length serialized == 3 + count * 24 + 5 + signature_length)) length_mismatch
  let offset = 3 + count * 24
  signer ← parse_signer (hex_encode (slice offset (offset + 5) serialized))
  let certificate : CertificateOfMembership = record {
    qualifiers = read_qualifiers count (drop 3 serialized);
    signed_by = signer;
    signature = drop (offset + 5) serialized;
  }
  validate_certificate certificate
  ok certificate

-- `^uint64(0)`
abbrev pub any_delta : ℕ
any_delta = 18446744073709551615

-- The qualifiers of a new certificate.
unfoldable pub com_qualifiers : ℕ → ℕ → ℕ → ℕ → Bytes → List ComQualifier
com_qualifiers timestamp max_delta network issued hash =
    record { id = 0; value = timestamp; max_delta = max_delta }
    ∷ record { id = 1; value = network; max_delta = 0 }
    ∷ record { id = 2; value = issued; max_delta = any_delta }
    ∷ record { id = 3; value = get_be (slice 0 8 hash); max_delta = any_delta }
    ∷ record { id = 4; value = get_be (slice 8 16 hash); max_delta = any_delta }
    ∷ record { id = 5; value = get_be (slice 16 24 hash); max_delta = any_delta }
    ∷ record { id = 6; value = get_be (slice 24 32 hash); max_delta = any_delta }
    ∷ []

module _ (c : Crypto) where
  unfoldable pub identity_public_hash : Identity → Result Error Bytes
  identity_public_hash identity = elim (hex_decode identity.address) [
    | none ↦ err not_hexadecimal
    | some address ↦ ok (c.sum384 (address ++ identity.public_key))
  ]

  unfoldable pub sign_certificate :
      Identity → List ComQualifier → Result Error CertificateOfMembership
  sign_certificate signer qualifiers = elim (sign c signer (qualifier_bytes qualifiers)) [
    | err e ↦ err (cannot_sign e)
    | ok signature ↦
        ok (record { qualifiers = qualifiers; signed_by = signer.address; signature = signature })
  ]

  -- `NewCertificateOfMembership`.
  unfoldable pub new_certificate :
      ℕ → ℕ → NetworkId → Identity → Identity → Result Error CertificateOfMembership
  new_certificate timestamp max_delta network_id issued_to signer = do
    fail_if (not (bytes_eq signer.address (must_controller_id network_id))) not_from_controller
    network ← parse_hex_uint network_id
    issued ← parse_hex_uint issued_to.address
    hash ← identity_public_hash issued_to
    sign_certificate signer (com_qualifiers timestamp max_delta network issued hash)

  -- `Verify`.
  unfoldable pub verify_certificate :
      CertificateOfMembership → NetworkId → Identity → Result Error (Unit {0})
  verify_certificate certificate network_id signer = do
    validate_certificate certificate
    fail_if (not (bytes_eq certificate.signed_by (must_controller_id network_id)))
        not_from_controller
    fail_if (not (bytes_eq signer.address certificate.signed_by)) other_signer
    fail_if (not (verify c signer (qualifier_bytes certificate.qualifiers) certificate.signature))
        invalid_signature
