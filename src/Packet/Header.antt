-- ===== src/Packet/Header.antt =====
-- `packet.go` and `Build` of `armor.go`: the header that is read before authentication, the
-- decoded packet, and the fragment header.
pub mod Laws
use ztgotroller.Base.{
  ℕ, ◌+◌, ◌-◌, ◌*◌, ◌/◌, Bool, ◌&&◌, not, List, [], ◌∷◌, ◌++◌, Bytes, none, some, length, take,
  drop, get_or, replicate, ltb, leb, ◌==◌, hex_encode, hex_decode, get_be, put_be, bit_and, Result,
  ok, err, ◌>>=◌, ◌>>◌, fail_if,
}
use ztgotroller.Domain.Ids.{IdError, NodeId, parse_node_id, validate_hex_id, id_bytes}
pub use ztgotroller.Base.{slice, byte_at}

pub data Error : Type 0 where
  below_header_length below_fragment_length no_fragment_indicator reserved_hop_bits : Error
  invalid_destination invalid_source invalid_node_id : IdError → Error
  verb_too_large packet_too_long too_many_fragments : Error

abbrev pub header_length : ℕ
header_length = 28

abbrev pub fragment_length : ℕ
fragment_length = 16

abbrev pub flag_extended_armor : ℕ
flag_extended_armor = 0x80

abbrev pub flag_fragmented : ℕ
flag_fragmented = 0x40

abbrev pub flag_compressed : ℕ
flag_compressed = 0x80

abbrev pub max_packet_length : ℕ
max_packet_length = 7 * 1432

pub record RoutingHeader : Type 0 where
  pub packet_id : ℕ
  pub destination : NodeId
  pub source : NodeId
  pub flags : ℕ
  pub hops : ℕ
  pub cipher : ℕ
  pub fragmented : Bool
  pub extended_armor : Bool

pub record Decoded : Type 0 where
  pub routing : RoutingHeader
  pub authenticator : Bytes
  pub verb : ℕ
  pub compressed : Bool
  pub payload : Bytes

pub record Fragment : Type 0 where
  pub packet_id : ℕ
  pub destination : NodeId
  pub total_fragments : ℕ
  pub number : ℕ
  pub hops : ℕ
  pub payload : Bytes

-- An identifier error as an error of this package.
abbrev pub from_id {ℓ} : {A : Type ℓ} → (IdError → Error) → Result IdError A → Result Error A
from_id f (ok a) = ok a
from_id f (err e) = err (f e)

unfoldable pub parse_routing : Bytes → Result Error RoutingHeader
parse_routing bytes = do
  fail_if (ltb (length bytes) header_length) below_header_length
  destination ← from_id invalid_node_id (parse_node_id (hex_encode (slice 8 13 bytes)))
  source ← from_id invalid_node_id (parse_node_id (hex_encode (slice 13 18 bytes)))
  let flags = byte_at bytes 18
  ok (record {
    packet_id = get_be (take 8 bytes);
    destination = destination;
    source = source;
    flags = flags;
    hops = bit_and flags 0x07;
    cipher = bit_and flags 0x38 / 8;
    fragmented = not (bit_and flags flag_fragmented == 0);
    extended_armor = not (bit_and flags flag_extended_armor == 0);
  })

unfoldable pub parse_decoded : Bytes → Result Error Decoded
parse_decoded bytes = do
  routing ← parse_routing bytes
  ok (record {
    routing = routing;
    authenticator = slice 19 27 bytes;
    verb = bit_and (byte_at bytes 27) 0x1f;
    compressed = not (bit_and (byte_at bytes 27) flag_compressed == 0);
    payload = drop header_length bytes;
  })

unfoldable pub is_fragment : Bytes → Bool
is_fragment bytes = leb fragment_length (length bytes) && byte_at bytes 13 == 0xff

unfoldable pub parse_fragment : Bytes → Result Error Fragment
parse_fragment bytes = do
  fail_if (ltb (length bytes) fragment_length) below_fragment_length
  fail_if (not (byte_at bytes 13 == 0xff)) no_fragment_indicator
  fail_if (not (bit_and (byte_at bytes 15) 0xf8 == 0)) reserved_hop_bits
  destination ← from_id invalid_node_id (parse_node_id (hex_encode (slice 8 13 bytes)))
  ok (record {
    packet_id = get_be (take 8 bytes);
    destination = destination;
    total_fragments = byte_at bytes 14 / 16;
    number = bit_and (byte_at bytes 14) 0x0f;
    hops = byte_at bytes 15;
    payload = drop fragment_length bytes;
  })

-- The packet's nine bytes from 18 on, flags and authenticator, stay zero; the verb follows.
unfoldable pub build : ℕ → NodeId → NodeId → ℕ → Bytes → Result Error Bytes
build packet_id destination source verb payload = do
  from_id invalid_destination (validate_hex_id destination 10)
  from_id invalid_source (validate_hex_id source 10)
  fail_if (ltb 0x1f verb) verb_too_large
  fail_if (ltb max_packet_length (header_length + length payload)) packet_too_long
  let routed = put_be 8 packet_id ++ (id_bytes destination ++ (id_bytes source ++ replicate 9 0))
  ok (routed ++ (verb ∷ payload))
