-- ===== src/Identity/Text.antt =====
-- Well-formed identities, and that their texts are parsed back.
use ztgotroller.Base.{
  ℕ, ◌<◌, ◌≡◌, refl, sym, ap, ◌∙◌, arith, true, false, ◌==◌, [], ◌∷◌, ◌++◌, Bytes, none, some,
  length, All, AreBytes, ok, ascii, hex_encode, hex_digit, IsHexDigit, length-hex_encode,
  hex_encode-IsHexDigit, hex_decode-hex_encode,
}
use mathlib.Core.List.{append_assoc}
use ztgotroller.Domain.Ids.{parse_node_id, validate_hex_id}
use ztgotroller.Domain.Ids.Laws.{has_uppercase-IsHexDigit, validate_hex_id-inversion}
use ztgotroller.Identity.{
  Identity, Error, no_key, is_reserved, split, parse_address, decode_key, parse_fields, parse_split,
  parse, public_identity, identity_string, secret_text,
}

-- An identity as `Parse` and `ParseBinary` return them.
pub record IsIdentity (identity : Identity) : Type 0 where
  pub valid : validate_hex_id identity.address 10 ≡ ok tt
  pub not_reserved : is_reserved identity.address ≡ false
  pub public_size : length identity.public_key ≡ 64
  pub public_bytes : AreBytes identity.public_key
  pub private_size : length identity.private_key ≡ 64
  pub private_bytes : AreBytes identity.private_key
  pub none_kept : identity.has_private ≡ false → identity.private_key ≡ no_key

abbrev HasNo : ℕ → Bytes → Type 0
HasNo separator = All (λ b. (b == separator) ≡ false)

split_field :
    (separator : ℕ) (field rest : Bytes)
    → HasNo separator field
    → split separator (field ++ (separator ∷ rest)) ≡ field ∷ split separator rest
unfolding split
split_field separator [] rest h = ground arith
split_field separator (b ∷ field) rest h =
    let inner = split_field separator field rest h.1 in rw (h.0, inner) refl

split_last :
    (separator : ℕ) (field : Bytes) → HasNo separator field → split separator field ≡ field ∷ []
unfolding split
split_last separator [] h = refl
split_last separator (b ∷ field) h =
    let inner = split_last separator field h.1 in rw (h.0, inner) refl

colon_digit : (n : ℕ) → n < 16 → (hex_digit n == b':') ≡ false
unfolding hex_digit
colon_digit n h = ground arith

digits-HasNo : (cs : Bytes) → All IsHexDigit cs → HasNo b':' cs
digits-HasNo [] h = tt
digits-HasNo (c ∷ cs) ((n, small, is), h) =
    (ap (λ d. d == b':') is ∙ colon_digit n small, digits-HasNo cs h)

decode_key-hex_encode :
    (key : Bytes) (error : Error)
    → length key ≡ 64
    → AreBytes key
    → decode_key (hex_encode key) error ≡ ok key
unfolding decode_key
decode_key-hex_encode key error size bytes =
    let long = length-hex_encode key in
    let small = has_uppercase-IsHexDigit (hex_encode key) (hex_encode-IsHexDigit key bytes) in
    let decoded = hex_decode-hex_encode key bytes in rw (long, small, decoded, size) refl

pub parse_address_of_valid :
    (address : Bytes) → validate_hex_id address 10 ≡ ok tt → parse_address address ≡ ok address
unfolding parse_node_id
parse_address_of_valid address h = ground (arith, h)

parse_fields-public_identity :
    (identity : Identity)
    → IsIdentity identity
    → parse_fields identity.address (ascii "0") (hex_encode identity.public_key) none
      ≡ ok (public_identity identity)
unfolding parse_fields public_identity
parse_fields-public_identity identity h =
    rw
      (
        parse_address_of_valid identity.address h.valid,
        h.not_reserved,
        decode_key-hex_encode identity.public_key _ h.public_size h.public_bytes,
      )
      refl

-- `Parse` of the `String` of a well-formed identity is its public part.
pub parse-identity_string :
    (identity : Identity)
    → IsIdentity identity
    → parse (identity_string identity) ≡ ok (public_identity identity)
unfolding parse identity_string parse_split
parse-identity_string identity h =
    let address = digits-HasNo _ (validate_hex_id-inversion identity.address 10 h.valid).1 in
    let key = digits-HasNo _ (hex_encode-IsHexDigit identity.public_key h.public_bytes) in
    let one =
      split_field b':' identity.address (b'0' ∷ b':' ∷ hex_encode identity.public_key) address in
    let two = split_field b':' (b'0' ∷ []) (hex_encode identity.public_key) (refl, tt) in
    rw (one, two, split_last b':' (hex_encode identity.public_key) key)
      (parse_fields-public_identity identity h)

parse_fields-secret :
    (identity : Identity)
    → IsIdentity identity
    → identity.has_private ≡ true
    → parse_fields identity.address
        (ascii "0")
        (hex_encode identity.public_key)
        (some (hex_encode identity.private_key))
      ≡ ok identity
unfolding parse_fields
parse_fields-secret identity h p =
    let same : record identity { has_private = true } ≡ identity =
      ap (λ b. record identity { has_private = b }) (sym p) in
    rw
      (
        parse_address_of_valid identity.address h.valid,
        h.not_reserved,
        decode_key-hex_encode identity.public_key _ h.public_size h.public_bytes,
        decode_key-hex_encode identity.private_key _ h.private_size h.private_bytes,
      )
      (ap ok same)

-- A well-formed identity with a private key has a secret text, and `Parse` of it is the identity.
pub parse-secret_text :
    (identity : Identity)
    → IsIdentity identity
    → identity.has_private ≡ true
    → (text : Bytes) × (secret_text identity ≡ ok text) × (parse text ≡ ok identity)
unfolding parse identity_string parse_split secret_text
parse-secret_text identity h p =
    let private_text = hex_encode identity.private_key in
    let public_text = hex_encode identity.public_key in
    let address = digits-HasNo _ (validate_hex_id-inversion identity.address 10 h.valid).1 in
    let key = digits-HasNo _ (hex_encode-IsHexDigit identity.public_key h.public_bytes) in
    let secret = digits-HasNo _ (hex_encode-IsHexDigit identity.private_key h.private_bytes) in
    let behind = public_text ++ (b':' ∷ private_text) in
    let one = split_field b':' identity.address (b'0' ∷ b':' ∷ behind) address in
    let two = split_field b':' (b'0' ∷ []) behind (refl, tt) in
    let three = split_field b':' public_text private_text key in
    let whole : identity_string identity ++ (b':' ∷ private_text)
        ≡ identity.address ++ (b':' ∷ b'0' ∷ b':' ∷ behind) =
      append_assoc identity.address (b':' ∷ b'0' ∷ b':' ∷ public_text) (b':' ∷ private_text) in
    (
      identity_string identity ++ (b':' ∷ private_text),
      rw p refl,
      rw (whole, one, two, three, split_last b':' private_text secret)
          (parse_fields-secret identity h p),
    )
