-- ===== src/Domain/Ids.antt =====
-- `ParseNodeID`, `ParseNetworkID`, `NewNetworkID`, `ControllerID` and `validateHexID`.
-- A string is the list of its bytes. `range` over the string reads runes, but the loop only runs
-- once `strconv.ParseUint` has found hexadecimal digits and nothing else.
pub mod Laws
pub mod Text
use ztgotroller.Base.{
  format_hex, replicate, ◌-◌, ℕ, zero, suc, ◌+◌, ◌*◌, ◌/◌, ◌%◌, ◌^◌, Bool, false, ◌&&◌, ◌||◌, not,
  List, [], ◌∷◌, ◌++◌, Bytes, none, some, length, take, leb, ◌==◌, parse_hex, hex_decode, hex_digit,
  Result, ok, err, ◌>>=◌, ◌>>◌, fail_if, bit_and,
}

pub data IdError : Type 0 where
  wrong_length not_hexadecimal not_lowercase : IdError

abbrev pub node_id_hex_length : ℕ
node_id_hex_length = 10

abbrev pub network_id_hex_length : ℕ
network_id_hex_length = 16

abbrev pub NodeId : Type 0
NodeId = Bytes

abbrev pub NetworkId : Type 0
NetworkId = Bytes

unfoldable pub has_uppercase : Bytes → Bool
has_uppercase [] = false
has_uppercase (c ∷ cs) = (leb b'A' c && leb c b'F') || has_uppercase cs

unfoldable pub validate_hex_id : Bytes → ℕ → Result IdError (Unit {0})
validate_hex_id value n = do
  fail_if (not (length value == n)) wrong_length
  elim (parse_hex value) [ none ↦ err not_hexadecimal | some _ ↦ ok tt ]
  fail_if (has_uppercase value) not_lowercase

unfoldable pub parse_node_id : Bytes → Result IdError NodeId
parse_node_id value = do validate_hex_id value node_id_hex_length; ok value

unfoldable pub parse_network_id : Bytes → Result IdError NetworkId
parse_network_id value = do validate_hex_id value network_id_hex_length; ok value

-- `%0nx` of a 64-bit number: the digits, with zeros before them up to the minimum width `n`.
unfoldable pub padded_hex : ℕ → ℕ → Bytes
padded_hex n v = let digits = format_hex 15 v in replicate (n - length digits) b'0' ++ digits

unfoldable pub new_network_id : NodeId → ℕ → NetworkId
new_network_id controller sequence = controller ++ padded_hex 6 (bit_and sequence 0x00ffffff)

unfoldable pub controller_id : NetworkId → Result IdError NodeId
controller_id id = do _ ← parse_network_id id; ok (take node_id_hex_length id)

-- `hex.DecodeString` of an identifier with the error dropped. On an error Go yields a prefix, but
-- the identifiers have been validated.
unfoldable pub id_bytes : Bytes → Bytes
id_bytes id = elim (hex_decode id) [ none ↦ [] | some bytes ↦ bytes ]
