-- ===== src/Domain/Ids/Text.antt =====
-- Identifiers as text and as bytes.
use ztgotroller.Base.{
  ℕ, ◌*◌, ◌≡◌, refl, ap, arith, Bytes, some, length, ok, AreBytes, hex_encode, hex_decode,
  hex_decode-IsHexDigit, length-hex_encode,
}
use ztgotroller.Domain.Ids.{
  NodeId, NetworkId, validate_hex_id, parse_node_id, parse_network_id, id_bytes,
}
use ztgotroller.Domain.Ids.Laws.{validate_hex_id-inversion}

-- The bytes of a valid identifier, and what they encode to.
pub record IsIdText (n : ℕ) (id : Bytes) : Type 0 where
  pub size : length (id_bytes id) ≡ n
  pub encoded : hex_encode (id_bytes id) ≡ id
  pub are_bytes : AreBytes (id_bytes id)

id_bytes-decoded : (id bs : Bytes) → hex_decode id ≡ some bs → id_bytes id ≡ bs
unfolding id_bytes
id_bytes-decoded id bs h = ground arith

pub valid-IsIdText : (n : ℕ) (id : Bytes) → validate_hex_id id (2 * n) ≡ ok tt → IsIdText n id
valid-IsIdText n id h =
    let (size, digits) = validate_hex_id-inversion id (2 * n) h in
    let (bs, r) = hex_decode-IsHexDigit n id size digits in
    let is : id_bytes id ≡ bs = id_bytes-decoded id bs r.decoded in
    record {
      size = rw is (omega (arith, length-hex_encode bs, ap length r.encoded));
      encoded = rw is r.encoded;
      are_bytes = rw is r.are_bytes;
    }

-- A valid identifier is parsed back from its bytes.
pub parse_network_id_of_valid :
    (id : NetworkId)
    → validate_hex_id id 16 ≡ ok tt
    → parse_network_id (hex_encode (id_bytes id)) ≡ ok id
unfolding parse_network_id
parse_network_id_of_valid id h = rw ((valid-IsIdText 8 id h).encoded, h) refl

pub parse_node_id_of_valid :
    (id : NodeId) → validate_hex_id id 10 ≡ ok tt → parse_node_id (hex_encode (id_bytes id)) ≡ ok id
unfolding parse_node_id
parse_node_id_of_valid id h = rw ((valid-IsIdText 5 id h).encoded, h) refl
