-- ===== src/Chunks.antt =====
-- `chunk.go`: a configuration dictionary in signed chunks, and the replies that carry a chunk or an
-- error. The signer is an identity, with the signature functions of the identity module.
pub mod Accepted
pub mod Framing
pub mod RoundTrip
mod Examples
use ztgotroller.Base.{
  ℕ, zero, suc, ◌+◌, ◌-◌, Bool, false, not, ◌&&◌, ◌||◌, List, [], ◌∷◌, ◌++◌, Bytes, length, take,
  drop, slice, byte_at, concat, ltb, leb, ◌==◌, if◌then◌else◌, get_be, put_be, hex_encode, ℤ, pos,
  negsuc, Result, ok, err, ◌>>=◌, ◌>>◌, fail_if,
}
use ztgotroller.Domain.Ids.{IdError, NetworkId, parse_network_id, validate_hex_id, id_bytes}
use ztgotroller.Identity.{Identity, sign, verify, signature_length}
use ztgotroller.Identity.Primitives.{Crypto}
use ztgotroller.Packet.Header.{max_packet_length, header_length}

-- `out_of_rounds` is the model's own: the loop would need more rounds than it was given.
pub data Error : Type 0 where
  invalid_network : IdError → Error
  zero_update_id dictionary_length chunk_limit : Error
  cannot_sign : ztgotroller.Identity.Error → Error
  too_short length_mismatch invalid_range unsupported_signature invalid_signature : Error
  unsupported_code out_of_rounds : Error

abbrev pub signature_type_ed25519 : ℕ
signature_type_ed25519 = 1

abbrev pub default_max_chunk_data : ℕ
default_max_chunk_data = max_packet_length - (header_length + 256)

abbrev pub max_config_dictionary : ℕ
max_config_dictionary = 1048576

abbrev pub chunk_fixed_overhead : ℕ
chunk_fixed_overhead = 8 + 2 + 1 + 8 + 4 + 4 + 1 + 2 + signature_length

abbrev pub verb_network_config_request : ℕ
verb_network_config_request = 0x0b

abbrev pub error_object_not_found : ℕ
error_object_not_found = 0x03

abbrev pub error_access_denied : ℕ
error_access_denied = 0x07

pub record SignedChunk : Type 0 where
  pub network_id : NetworkId
  pub data_bytes : Bytes
  pub flags : ℕ
  pub update_id : ℕ
  pub total_length : ℕ
  pub index : ℕ
  pub signature : Bytes
  pub signed_payload : Bytes

abbrev pub check_network : NetworkId → Result Error (Unit {0})
check_network id = elim (validate_hex_id id 16) [ ok _ ↦ ok tt | err e ↦ err (invalid_network e) ]

-- The signed part of a chunk, and the whole of it.
abbrev pub signed_part : NetworkId → ℕ → ℕ → ℕ → Bytes → Bytes
signed_part network_id total update_id index chunk = concat (
    id_bytes network_id
    ∷ put_be 2 (length chunk)
    ∷ chunk
    ∷ (0 ∷ [])
    ∷ put_be 8 update_id
    ∷ put_be 4 total
    ∷ put_be 4 index
    ∷ [])

abbrev pub framed : Bytes → Bytes → Bytes
framed signed signature =
    signed ++ concat ((signature_type_ed25519 ∷ []) ∷ put_be 2 signature_length ∷ signature ∷ [])

-- The chunk size: the default where the caller asks for none.
abbrev pub chunk_limit_of : ℤ → ℕ
chunk_limit_of (negsuc n) = default_max_chunk_data
chunk_limit_of (pos n) = if n == 0 then default_max_chunk_data else n

module _ (c : Crypto) where
  -- The body of the loop: the chunk at `index`.
  unfoldable pub build_chunk : Identity → NetworkId → ℕ → ℕ → ℕ → Bytes → Result Error Bytes
  build_chunk signer network_id total update_id index chunk =
      let signed = signed_part network_id total update_id index chunk in
      elim (sign c signer signed) [
        | err e ↦ err (cannot_sign e)
        | ok signature ↦ ok (framed signed signature)
      ]

  -- The loop from `index` on, where `rest` is the dictionary from there, with a bound on its rounds.
  unfoldable pub build_loop :
      Identity → NetworkId → ℕ → ℕ → ℕ → ℕ → ℕ → Bytes → Result Error (List Bytes)
  build_loop signer network_id total update_id limit rounds index [] = ok []
  build_loop signer network_id total update_id limit zero index (b ∷ rest) = err out_of_rounds
  build_loop signer network_id total update_id limit (suc rounds) index (b ∷ rest) = do
    chunk ← build_chunk signer network_id total update_id index (take limit (b ∷ rest))
    chunks ←
        build_loop signer network_id total update_id limit rounds (index + limit)
          (drop limit (b ∷ rest))
    ok (chunk ∷ chunks)

  -- A round takes at least a byte, so that there are at most as many rounds as bytes.
  unfoldable pub build_signed_chunks :
      NetworkId → Bytes → ℕ → ℤ → Identity → Result Error (List Bytes)
  build_signed_chunks network_id dictionary update_id max_chunk_data signer = do
    check_network network_id
    fail_if (update_id == 0) zero_update_id
    fail_if (length dictionary == 0 || leb max_config_dictionary (length dictionary))
        dictionary_length
    fail_if (ltb 0xffff (chunk_limit_of max_chunk_data)) chunk_limit
    build_loop signer network_id (length dictionary) update_id (chunk_limit_of max_chunk_data)
        (length dictionary) 0 dictionary

  -- Behind the length check, where `n` is the length of the data.
  unfoldable pub parse_framed : Bytes → NetworkId → ℕ → Identity → Result Error SignedChunk
  parse_framed payload network_id n signer = do
    let update_id = get_be (slice (11 + n) (19 + n) payload)
    let config_length = get_be (slice (19 + n) (23 + n) payload)
    let index = get_be (slice (23 + n) (27 + n) payload)
    fail_if (update_id == 0) zero_update_id
    fail_if
        (config_length == 0
          || leb max_config_dictionary config_length
          || ltb config_length (index + n))
        invalid_range
    fail_if
        (not (byte_at payload (27 + n) == signature_type_ed25519)
          || not (get_be (slice (28 + n) (30 + n) payload) == signature_length))
        unsupported_signature
    let signature = drop (30 + n) payload
    fail_if (not (verify c signer (take (27 + n) payload) signature)) invalid_signature
    ok (record {
      network_id = network_id;
      data_bytes = slice 10 (10 + n) payload;
      flags = byte_at payload (10 + n);
      update_id = update_id;
      total_length = config_length;
      index = index;
      signature = signature;
      signed_payload = take (27 + n) payload;
    })

  unfoldable pub parse_signed_chunk : Bytes → Identity → Result Error SignedChunk
  parse_signed_chunk payload signer = do
    fail_if (ltb (length payload) chunk_fixed_overhead) too_short
    network_id ← elim (parse_network_id (hex_encode (slice 0 8 payload))) [
      | ok id ↦ ok id
      | err e ↦ err (invalid_network e)
    ]
    let n = get_be (slice 8 10 payload)
    fail_if (not (length payload == 30 + n + signature_length)) length_mismatch
    parse_framed payload network_id n signer

-- `WrapOK`.
unfoldable pub wrap_ok : ℕ → Bytes → Bytes
wrap_ok request_packet_id signed_chunk =
    (verb_network_config_request ∷ []) ++ (put_be 8 request_packet_id ++ signed_chunk)

-- `WrapError`.
unfoldable pub wrap_error : ℕ → NetworkId → ℕ → Result Error Bytes
wrap_error request_packet_id network_id code = do
  check_network network_id
  fail_if (not (code == error_object_not_found) && not (code == error_access_denied))
      unsupported_code
  ok (
      concat (
        (verb_network_config_request ∷ [])
        ∷ put_be 8 request_packet_id
        ∷ (code ∷ [])
        ∷ id_bytes network_id
        ∷ []))
