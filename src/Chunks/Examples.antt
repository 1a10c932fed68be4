-- ===== src/Chunks/Examples.antt =====
-- Chunks on concrete input, and the theorems at concrete input.
use ztgotroller.Base.{
  ◌≡◌, refl, arith, ◌∷◌, ◌++◌, List, Bytes, ascii, length, ok, err, pos, concat, map, replicate,
  put_be, get_be_from, hex_encode, hex_decode, hex_digit, hex_digit_value, parse_hex,
  parse_hex_from,
}
use ztgotroller.Chunks.{
  SignedChunk, signed_part, framed, build_signed_chunks, chunk_limit_of, parse_framed,
  parse_signed_chunk, wrap_ok, wrap_error, unsupported_code,
}
use ztgotroller.Chunks.Accepted.{IsAccepted, parse_signed_chunk-IsAccepted}
use ztgotroller.Chunks.RoundTrip.{
  parse_each, AreConsecutive, IsSigner, IsBuildable, parse_each-build_signed_chunks,
}
use ztgotroller.Domain.Ids.{has_uppercase, validate_hex_id, parse_network_id, id_bytes, NetworkId}
use ztgotroller.Identity.{public_identity, verify}
use ztgotroller.Identity.Examples.{controller, stand_in, stand_in-IsCrypto, fit}

abbrev network : NetworkId
network = ascii "8056c2e21c000001"

abbrev dictionary : Bytes
dictionary = ascii "n=1"

controller-IsSigner : IsSigner stand_in controller
controller-IsSigner = record { private = refl; size = refl; matching = refl }

dictionary-IsBuildable : IsBuildable network dictionary 7 (pos 2)
unfolding validate_hex_id parse_hex parse_hex_from hex_digit_value has_uppercase
dictionary-IsBuildable = record {
  valid = refl;
  some_id = omega arith;
  id_fits = omega arith;
  not_empty = omega arith;
  fits = omega arith;
  limit_fits = omega arith;
}

parse_each-build_signed_chunks_example :
    (chunks : List Bytes) × (parsed : List SignedChunk) × (build_signed_chunks stand_in network
        dictionary 7
        (pos 2)
        controller
      ≡ ok chunks)
    × (parse_each stand_in (public_identity controller) chunks ≡ ok parsed)
    × (concat (map (λ s. s.data_bytes) parsed) ≡ dictionary)
    × AreConsecutive network (length dictionary) 7 (chunk_limit_of (pos 2)) 0 parsed
parse_each-build_signed_chunks_example =
    parse_each-build_signed_chunks stand_in stand_in-IsCrypto controller controller-IsSigner network
      dictionary 7 (pos 2) dictionary-IsBuildable

-- The one chunk of the dictionary, with the stand-in's signature.
abbrev signature : Bytes
signature =
    (replicate 32 9 ++ fit 32 (signed_part network 3 7 0 dictionary))
    ++ fit 32 (signed_part network 3 7 0 dictionary)

abbrev chunk : SignedChunk
chunk = record {
  network_id = network;
  data_bytes = dictionary;
  flags = 0;
  update_id = 7;
  total_length = 3;
  index = 0;
  signature = signature;
  signed_payload = signed_part network 3 7 0 dictionary;
}

parse_chunk :
    parse_signed_chunk stand_in (framed (signed_part network 3 7 0 dictionary) signature) controller
    ≡ ok chunk
unfolding parse_signed_chunk parse_framed parse_network_id validate_hex_id parse_hex parse_hex_from
    hex_digit_value hex_digit has_uppercase hex_encode hex_decode id_bytes put_be get_be_from verify
parse_chunk = refl

parse_signed_chunk-IsAccepted_example :
    IsAccepted stand_in controller (framed (signed_part network 3 7 0 dictionary) signature) chunk
parse_signed_chunk-IsAccepted_example =
    parse_signed_chunk-IsAccepted stand_in (framed (signed_part network 3 7 0 dictionary) signature)
      controller parse_chunk

wrap_unknown : wrap_error 5 network 4 ≡ err unsupported_code
unfolding wrap_error validate_hex_id parse_hex parse_hex_from hex_digit_value has_uppercase
wrap_unknown = refl

wrap_hello : wrap_ok 5 (ascii "hi") ≡ 0x0b ∷ 0 ∷ 0 ∷ 0 ∷ 0 ∷ 0 ∷ 0 ∷ 0 ∷ 5 ∷ ascii "hi"
unfolding wrap_ok put_be
wrap_hello = refl
