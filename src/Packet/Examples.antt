-- ===== src/Packet/Examples.antt =====
-- Runs of the packet code on concrete input, and its theorems at concrete input.
use ztgotroller.Base.{
  ◌≡◌, ◌≤◌, ◌+◌, ◌*◌, ◌-◌, ◌↔◌, refl, arith, List, [], ◌∷◌, ◌++◌, Bytes, ascii, length, take,
  replicate, All, AreBytes, ok, err, true, false, get_be, hex_encode, hex_decode, hex_digit_value,
  parse_hex, parse_hex_from, put_be,
}
use ztgotroller.Domain.Ids.{NodeId, has_uppercase, validate_hex_id, id_bytes}
use ztgotroller.Packet.Fragment.{
  max_packet_fragments, fragment_datagram, fragment_armored, fragment_count, fragment_loop,
  fragment_size,
}
use ztgotroller.Packet.Fragment.Datagram.{parse_fragment-datagram}
use ztgotroller.Packet.Fragment.Laws.{fragment_armored-join, fragment_armored-ok_iff}
use ztgotroller.Packet.Fragment.Sizes.{join}
use ztgotroller.Packet.Header.{
  max_packet_length, build, parse_decoded, parse_fragment, is_fragment, slice, verb_too_large,
  too_many_fragments,
}
use ztgotroller.Packet.Header.Laws.{parse_decoded-build}

abbrev controller : NodeId
controller = ascii "8056c2e21c"

abbrev member : NodeId
member = ascii "00000000ff"

abbrev request : Bytes
request =
    (0 ∷ 0 ∷ 0 ∷ 0 ∷ 0 ∷ 0 ∷ 1 ∷ 2 ∷ [])
    ++ (0x80 ∷ 0x56 ∷ 0xc2 ∷ 0xe2 ∷ 0x1c ∷ 0 ∷ 0 ∷ 0 ∷ 0 ∷ 0xff ∷ [])
    ++ replicate 9 0
    ++ (0x0b ∷ 1 ∷ 2 ∷ 3 ∷ [])

build-request : build 258 controller member 0x0b (1 ∷ 2 ∷ 3 ∷ []) ≡ ok request
unfolding build validate_hex_id parse_hex parse_hex_from hex_digit_value has_uppercase put_be
    id_bytes hex_decode
build-request = refl

build_bad_verb : build 258 controller member 0x20 [] ≡ err verb_too_large
unfolding build validate_hex_id parse_hex parse_hex_from hex_digit_value has_uppercase
build_bad_verb = refl

parse_decoded-build_example :
    (length request ≤ max_packet_length)
    × (parse_decoded request
        ≡ ok (record {
          routing = record {
            packet_id = 258;
            destination = controller;
            source = member;
            flags = 0;
            hops = 0;
            cipher = 0;
            fragmented = false;
            extended_armor = false;
          };
          authenticator = replicate 8 0;
          verb = 0x0b;
          compressed = false;
          payload = 1 ∷ 2 ∷ 3 ∷ [];
        }))
parse_decoded-build_example =
    parse_decoded-build 258 controller member 0x0b (1 ∷ 2 ∷ 3 ∷ []) (omega arith) build-request

request-AreBytes : AreBytes request
request-AreBytes = ground arith

parse_fragment-datagram_example :
    (is_fragment (fragment_datagram request 3 2 (7 ∷ [])) ≡ true)
    × (parse_fragment (fragment_datagram request 3 2 (7 ∷ []))
        ≡ ok (record {
          packet_id = get_be (take 8 request);
          destination = hex_encode (slice 8 13 request);
          total_fragments = 3;
          number = 2;
          hops = 0;
          payload = 7 ∷ [];
        }))
parse_fragment-datagram_example =
    parse_fragment-datagram request 3 2 (7 ∷ []) request-AreBytes (omega arith) (omega arith)
      (omega arith)

fragment_armored-ok_iff_example :
    ((frags : List Bytes) × (fragment_armored request 20 ≡ ok frags))
    ↔ (length request ≤ 20 + 6 * (20 - 16))
fragment_armored-ok_iff_example = fragment_armored-ok_iff request 20 (omega arith)

abbrev pieces : List Bytes
pieces =
    take 20 request
    ∷ fragment_datagram request 4 1 (0 ∷ 0 ∷ 0 ∷ 0 ∷ [])
    ∷ fragment_datagram request 4 2 (0 ∷ 0 ∷ 0 ∷ 0x0b ∷ [])
    ∷ fragment_datagram request 4 3 (1 ∷ 2 ∷ 3 ∷ [])
    ∷ []

fragment_armored-request : fragment_armored request 20 ≡ ok pieces
unfolding fragment_armored fragment_count fragment_loop fragment_size
fragment_armored-request = refl

fragment_armored_refused : fragment_armored (replicate 45 0) 20 ≡ err too_many_fragments
unfolding fragment_armored fragment_count
fragment_armored_refused = refl

fragment_armored-join_example :
    All (λ f. length f ≤ 20) pieces
    × (length pieces ≤ max_packet_fragments)
    × (join pieces ≡ request)
fragment_armored-join_example =
    fragment_armored-join request 20 (omega arith) (omega arith) fragment_armored-request
