-- ===== src/Identity.antt =====
-- `identity.go`: identities, their text and binary forms, signatures and key agreement. SHA-512,
-- Ed25519 and X25519 are Go's; they are parameters.
pub mod Primitives
pub mod Text
pub mod Binary
pub mod Signatures
pub mod Agreement
pub mod Examples
use ztgotroller.Base.{
  ℕ, zero, suc, ◌+◌, ◌-◌, ◌*◌, Bool, true, false, not, ◌&&◌, ◌||◌, List, [], ◌∷◌, ◌++◌, Bytes, none,
  some, length, take, drop, replicate, ltb, ◌==◌, if◌then◌else◌, bytes_eq, ascii, hex_encode,
  hex_decode, slice, byte_at, ℤ, pos, negsuc, Result, ok, err, ◌>>=◌, ◌>>◌, fail_if, Option,
}
use ztgotroller.Domain.Ids.{
  IdError, NodeId, parse_node_id, validate_hex_id, has_uppercase, id_bytes,
}
use ztgotroller.Identity.Primitives.{Crypto}

pub data Error : Type 0 where
  field_count unsupported_type reserved_address binary_length private_key_length : Error
  invalid_address : IdError → Error
  public_key_text private_key_text : Error
  no_private_key signing_key_mismatch agreement_length : Error
  private_agreement_key public_agreement_key no_agreement : Error

abbrev pub public_binary_length : ℕ
public_binary_length = 5 + 1 + 64 + 1

abbrev pub secret_binary_length : ℕ
secret_binary_length = public_binary_length + 64

abbrev pub signature_length : ℕ
signature_length = 96

-- The keys are arrays of 64 bytes.
pub record Identity : Type 0 where
  pub address : NodeId
  pub public_key : Bytes
  pub private_key : Bytes
  pub has_private : Bool

abbrev pub no_key : Bytes
no_key = replicate 64 0

unfoldable pub is_reserved : NodeId → Bool
is_reserved address =
    bytes_eq address (ascii "0000000000") || bytes_eq (take 2 address) (ascii "ff")

-- The address of a failing call, with its error passed on.
abbrev pub parse_address : Bytes → Result Error NodeId
parse_address text = elim (parse_node_id text) [ ok id ↦ ok id | err e ↦ err (invalid_address e) ]

-- `strings.Split` on one byte.
unfoldable pub split : ℕ → Bytes → List Bytes
split separator [] = [] ∷ []
split separator (b ∷ text) =
    let rest = split separator text in
    if b == separator
    then [] ∷ rest
    else elim rest [ [] ↦ (b ∷ []) ∷ [] | field ∷ fields ↦ (b ∷ field) ∷ fields ]

-- The test for a lower-case text and the one for hexadecimal digits have the same error here: a
-- text of digits that `ToLower` changes has an upper-case one.
unfoldable pub decode_key : Bytes → Error → Result Error Bytes
decode_key value error = do
  fail_if (not (length value == 64 * 2)) error
  fail_if (has_uppercase value) error
  elim (hex_decode value) [ none ↦ err error | some key ↦ ok key ]

unfoldable pub parse_fields : Bytes → Bytes → Bytes → Option Bytes → Result Error Identity
parse_fields address_text type_text public_text private_text = do
  address ← parse_address address_text
  fail_if (is_reserved address) reserved_address
  fail_if (not (bytes_eq type_text (ascii "0"))) unsupported_type
  public_key ← decode_key public_text public_key_text
  elim private_text [
    | none ↦ ok (record {
      address = address;
      public_key = public_key;
      private_key = no_key;
      has_private = false;
    })
    | some text ↦ do
      private_key ← decode_key text private_key_text
      ok (record {
        address = address;
        public_key = public_key;
        private_key = private_key;
        has_private = true;
      })
  ]

unfoldable pub parse_split : List Bytes → Result Error Identity
parse_split (a ∷ t ∷ p ∷ []) = parse_fields a t p none
parse_split (a ∷ t ∷ p ∷ s ∷ []) = parse_fields a t p (some s)
parse_split _ = err field_count

unfoldable pub parse : Bytes → Result Error Identity
parse value = parse_split (split b':' value)

-- The `switch` on the length of the private key.
unfoldable pub parse_private : NodeId → Bytes → Result Error Identity
parse_private address value =
    if byte_at value 70 == 0 && length value == public_binary_length
    then ok (record {
      address = address;
      public_key = slice 6 70 value;
      private_key = no_key;
      has_private = false;
    })
    else if byte_at value 70 == 64 && length value == secret_binary_length
    then ok (record {
      address = address;
      public_key = slice 6 70 value;
      private_key = drop public_binary_length value;
      has_private = true;
    })
    else err private_key_length

unfoldable pub parse_binary : Bytes → Result Error Identity
parse_binary value = do
  fail_if (not (length value == public_binary_length) && not (length value == secret_binary_length))
      binary_length
  address ← parse_address (hex_encode (take 5 value))
  fail_if (is_reserved address) reserved_address
  fail_if (not (byte_at value 5 == 0)) unsupported_type
  parse_private address value

-- `Public`.
unfoldable pub public_identity : Identity → Identity
public_identity identity = record identity { private_key = no_key; has_private = false }

-- `String` and `SecretString`.
unfoldable pub identity_string : Identity → Bytes
identity_string identity = identity.address ++ (ascii ":0:" ++ hex_encode identity.public_key)

unfoldable pub secret_text : Identity → Result Error Bytes
secret_text identity = do
  fail_if (not identity.has_private) no_private_key
  ok (identity_string identity ++ (b':' ∷ hex_encode identity.private_key))

-- The length of the private key and the key.
unfoldable pub private_part : Identity → Bytes
private_part identity =
    if identity.has_private then (64 ∷ []) ++ (identity.private_key ++ []) else 0 ∷ []

unfoldable pub marshal_binary : Identity → Result Error Bytes
marshal_binary identity = do
  elim (validate_hex_id identity.address 10) [ ok _ ↦ ok tt | err e ↦ err (invalid_address e) ]
  fail_if (is_reserved identity.address) reserved_address
  ok (id_bytes identity.address ++ ((0 ∷ []) ++ (identity.public_key ++ private_part identity)))

module _ (c : Crypto) where
  unfoldable pub sign : Identity → Bytes → Result Error Bytes
  sign identity message = do
    fail_if (not identity.has_private) no_private_key
    let private_key = c.new_key_from_seed (drop 32 identity.private_key)
    fail_if (not (bytes_eq (drop 32 private_key) (drop 32 identity.public_key)))
        signing_key_mismatch
    let digest = take 32 (c.sum512 message)
    ok (c.ed_sign private_key digest ++ digest)

  unfoldable pub verify : Identity → Bytes → Bytes → Bool
  verify identity message signature =
      let digest = take 32 (c.sum512 message) in
      bytes_eq (drop 64 signature) digest
      && c.ed_verify (drop 32 identity.public_key) digest (take 64 signature)

  -- The loop of `AgreeRawPublic`: the key is filled with a digest, the digest of that, and so on.
  unfoldable pub fill : ℕ → ℕ → Bytes → Bytes
  fill zero room digest = []
  fill (suc rounds) room digest =
      let more = fill rounds (room - length (take room digest)) (c.sum512 digest) in
      take room digest ++ (if ltb (length (take room digest)) room then more else [])

  -- A round copies at least a byte, so that `wanted` rounds are enough.
  abbrev pub fill_key : ℕ → Bytes → Bytes
  fill_key wanted raw = fill wanted wanted (c.sum512 raw)

  unfoldable pub agree_raw_public : Identity → Bytes → ℤ → Result Error Bytes
  agree_raw_public identity peer_key (negsuc n) =
      if not identity.has_private then err no_private_key else err agreement_length
  agree_raw_public identity peer_key (pos wanted) = do
    fail_if (not identity.has_private) no_private_key
    fail_if (wanted == 0 || ltb 4096 wanted) agreement_length
    fail_if (not (c.is_private_key (take 32 identity.private_key))) private_agreement_key
    fail_if (not (c.is_public_key peer_key)) public_agreement_key
    elim (c.x25519 (take 32 identity.private_key) peer_key) [
      | none ↦ err no_agreement
      | some raw ↦ ok (fill_key wanted raw)
    ]

  unfoldable pub agree : Identity → Identity → ℤ → Result Error Bytes
  agree identity peer wanted = agree_raw_public identity (take 32 peer.public_key) wanted
