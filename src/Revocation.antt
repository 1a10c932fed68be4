-- ===== src/Revocation.antt =====
-- `revocation.go` of networkconfig, with `withPolicySentinels`, `nodeIDBytes` and `uint16Bytes` of
-- policy_credentials.go: the revocation of a certificate of membership.
pub mod Issued
mod Examples
use ztgotroller.Base.{
  ℕ, ◌≡◌, Bool, false, not, ◌&&◌, ◌||◌, List, [], ◌∷◌, ◌++◌, Bytes, Option, none, some, length,
  concat, ◌==◌, bytes_eq, get_be, put_be, ℤ, pos, negsuc, Result, ok, err, ◌>>=◌, ◌>>◌, fail_if,
}
use ztgotroller.Domain.Ids.{IdError, NodeId, NetworkId, validate_hex_id, id_bytes}
use ztgotroller.Identity.{Identity, sign, verify, signature_length}
use ztgotroller.Identity.Primitives.{Crypto}
use ztgotroller.Membership.{must_controller_id, parse_hex_uint}

pub data Error : Type 0 where
  not_from_controller invalid_threshold no_randomness incomplete : Error
  invalid_target : IdError → Error
  cannot_sign : ztgotroller.Identity.Error → Error

abbrev pub credential_type_com : ℕ
credential_type_com = 1

abbrev pub revocation_fast_propagate : ℕ
revocation_fast_propagate = 1

abbrev pub policy_signing_sentinel : ℕ
policy_signing_sentinel = 0x7f7f7f7f7f7f7f7f

pub record Revocation : Type 0 where
  pub id : ℕ
  pub network_id : NetworkId
  pub credential_id : ℕ
  pub threshold : ℕ
  pub flags : ℕ
  pub target : NodeId
  pub signed_by : NodeId
  pub type : ℕ
  pub signature : Bytes

-- `nodeIDBytes` and `parseHexUint` with the error dropped. `NewCOMRevocation` only signs for network
-- identifiers, whose eight bytes `parseHexUint` reads without a panic.
abbrev pub node_id_bytes : NodeId → Bytes
node_id_bytes id = elim (validate_hex_id id 10) [ ok _ ↦ id_bytes id | err e ↦ [] ]

abbrev pub hex_uint_or_zero : Bytes → ℕ
hex_uint_or_zero text = elim (parse_hex_uint text) [ ok value ↦ value | err e ↦ 0 ]

unfoldable pub with_policy_sentinels : Bytes → Bytes
with_policy_sentinels payload =
    put_be 8 policy_signing_sentinel ++ (payload ++ put_be 8 policy_signing_sentinel)

-- `base`.
unfoldable pub base_bytes : Revocation → Bytes
base_bytes revocation = concat (
    put_be 4 0
    ∷ put_be 4 revocation.id
    ∷ put_be 8 (hex_uint_or_zero revocation.network_id)
    ∷ put_be 4 0
    ∷ put_be 4 revocation.credential_id
    ∷ put_be 8 revocation.threshold
    ∷ put_be 8 revocation.flags
    ∷ node_id_bytes revocation.target
    ∷ node_id_bytes revocation.signed_by
    ∷ (revocation.type ∷ [])
    ∷ [])

abbrev pub signed_bytes : Revocation → Bytes
signed_bytes revocation = with_policy_sentinels (base_bytes revocation ++ (0 ∷ 0 ∷ []))

unfoldable pub marshal_revocation : Revocation → Result Error Bytes
marshal_revocation revocation = do
  fail_if (revocation.type == 0 || length revocation.signed_by == 0) incomplete
  ok (
      base_bytes revocation
      ++ concat ((1 ∷ []) ∷ put_be 2 signature_length ∷ revocation.signature ∷ (0 ∷ 0 ∷ []) ∷ []))

unfoldable pub build_revocation_credentials_payload : Bytes → Bytes
build_revocation_credentials_payload serialized =
    (0 ∷ 0 ∷ 0 ∷ 0 ∷ 0 ∷ 0 ∷ 1 ∷ []) ++ (serialized ++ (0 ∷ 0 ∷ []))

abbrev pub check_target : NodeId → Result Error (Unit {0})
check_target id = elim (validate_hex_id id 10) [ ok _ ↦ ok tt | err e ↦ err (invalid_target e) ]

abbrev pub read_random : Option Bytes → Result Error Bytes
read_random none = err no_randomness
read_random (some bytes) = ok bytes

-- The milliseconds since 1970; Go's zero time lies before.
abbrev pub check_threshold : ℤ → Result Error ℕ
check_threshold (negsuc n) = err invalid_threshold
check_threshold (pos n) = ok n

-- The revocation before it is signed.
abbrev pub com_draft : NetworkId → NodeId → ℕ → NodeId → Bytes → Revocation
com_draft network_id target milliseconds signer bytes = record {
  id = get_be bytes;
  network_id = network_id;
  credential_id = 0;
  threshold = milliseconds;
  flags = revocation_fast_propagate;
  target = target;
  signed_by = signer;
  type = credential_type_com;
  signature = [];
}

module _ (c : Crypto) where
  abbrev pub sign_revocation : Identity → Revocation → Result Error Revocation
  sign_revocation signer revocation = elim (sign c signer (signed_bytes revocation)) [
    | err e ↦ err (cannot_sign e)
    | ok signature ↦ ok (record revocation { signature = signature })
  ]

  -- `NewCOMRevocation`; `random` is the four bytes that are read, where reading succeeds.
  unfoldable pub new_com_revocation :
      NetworkId → NodeId → ℤ → Identity → Option Bytes → Result Error Revocation
  new_com_revocation network_id target threshold signer random = do
    fail_if
        (not (bytes_eq signer.address (must_controller_id network_id)) || not signer.has_private)
        not_from_controller
    check_target target
    milliseconds ← check_threshold threshold
    bytes ← read_random random
    sign_revocation signer (com_draft network_id target milliseconds signer.address bytes)

  -- `Verify`.
  unfoldable pub verify_revocation : Revocation → Identity → Bool
  verify_revocation revocation signer =
      bytes_eq signer.address revocation.signed_by
      && verify c signer (signed_bytes revocation) revocation.signature
