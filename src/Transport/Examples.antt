-- ===== src/Transport/Examples.antt =====
-- Runs of the transport code on concrete input, and its theorems at concrete input.
use ztgotroller.Base.{
  ℕ, List, ok, none, take, get_or, map, get_be, AreBytes, is_among, ◌≡◌, ◌≢◌, refl, arith, [], ◌∷◌,
  ◌++◌, Bytes, replicate, hex_encode, parse_hex, parse_hex_from, hex_digit_value, hex_digit, find,
  keep, get_be_from, put, remove,
}
use ztgotroller.Domain.Ids.{parse_node_id, validate_hex_id, has_uppercase}
use ztgotroller.Netip.{Time, AddrPort, ip4, addr_eq, addr_port_eq}
use ztgotroller.Packet.Header.{is_fragment, parse_fragment, parse_routing}
use ztgotroller.Packet.Fragment.{
  fragment_armored, fragment_datagram, fragment_count, fragment_loop, fragment_size,
}
use ztgotroller.Transport.Reassembly.AnyOrder.{push_all, IsOrder}
use ztgotroller.Transport.Reassembly.Delivery.{push_all-fragment_armored}
use ztgotroller.Transport.Reassembly.{
  reassembly_keys, key_of, Reassembler, new_reassembler, push, failed, incomplete, complete_packet,
  too_long, push_live, is_misnumbered, slot, expire, add_fragment, add_first, key_eq, assemble,
  complete, conclude,
}
use ztgotroller.Transport.Reassembly.Invariant.{push-IsSound}
use ztgotroller.Transport.Reassembly.Slots.{IsReassembler}

abbrev endpoint : AddrPort
endpoint = record { address = ip4 0x0a000001; port = 9993 }

-- The head of a packet in two datagrams, with the flag for fragments.
abbrev head : Bytes
head =
    (0 ∷ 0 ∷ 0 ∷ 0 ∷ 0 ∷ 0 ∷ 1 ∷ 2 ∷ [])
    ++ (0x80 ∷ 0x56 ∷ 0xc2 ∷ 0xe2 ∷ 0x1c ∷ 0 ∷ 0 ∷ 0 ∷ 0 ∷ 0xff ∷ [])
    ++ (0x40 ∷ replicate 8 0)
    ++ (0x0b ∷ 1 ∷ [])

abbrev tail : Bytes
tail = fragment_datagram head 2 1 (2 ∷ 3 ∷ [])

abbrev half : Reassembler
half = (push new_reassembler tail endpoint 10).0

push-tail : (push new_reassembler tail endpoint 10).1 ≡ incomplete
unfolding push fragment_datagram push_live is_fragment parse_fragment parse_routing parse_node_id
    validate_hex_id hex_encode parse_hex parse_hex_from hex_digit_value hex_digit has_uppercase
    is_misnumbered slot find expire keep add_fragment add_first get_be_from put remove addr_eq
    addr_port_eq key_eq assemble complete conclude
push-tail = refl

push-head : (push half head endpoint 20).1 ≡ complete_packet (head ++ (2 ∷ 3 ∷ []))
unfolding push fragment_datagram push_live is_fragment parse_fragment parse_routing parse_node_id
    validate_hex_id hex_encode parse_hex parse_hex_from hex_digit_value hex_digit has_uppercase
    is_misnumbered slot find expire keep add_fragment add_first get_be_from put remove addr_eq
    addr_port_eq key_eq assemble complete conclude
push-head = refl

new_reassembler-IsReassembler : IsReassembler new_reassembler
new_reassembler-IsReassembler = record { partials = tt; distinct = tt; slots = omega arith }

push-IsSound_example :
    IsReassembler (push half head endpoint 20).0
    × ((push half head endpoint 20).1 ≢ failed too_long)
push-IsSound_example =
    push-IsSound half head endpoint 20
      (push-IsSound new_reassembler tail endpoint 10 new_reassembler-IsReassembler).0

abbrev packet : Bytes
packet = head ++ replicate 20 7

abbrev datagrams : List Bytes
datagrams =
    take 28 packet
    ∷ fragment_datagram packet 3 1 (1 ∷ replicate 11 7)
    ∷ fragment_datagram packet 3 2 (replicate 9 7)
    ∷ []

fragment_armored-packet : fragment_armored packet 28 ≡ ok datagrams
unfolding fragment_armored fragment_count fragment_loop fragment_size
fragment_armored-packet = refl

abbrev queue : List (ℕ × Time)
queue = (2, 10) ∷ (0, 11) ∷ (1, 12) ∷ []

queue-IsOrder : IsOrder 3 10 [] queue
unfolding is_among
queue-IsOrder = (
  omega arith,
  refl,
  omega arith,
  omega arith,
  (
    omega arith,
    refl,
    omega arith,
    omega arith,
    (omega arith, refl, omega arith, omega arith, (refl, λ i below. ground arith)),
  ),
)

no_packet : find (key_of endpoint (get_be (take 8 packet))) new_reassembler ≡ none
unfolding find
no_packet = refl

packet-AreBytes : AreBytes packet
packet-AreBytes = ground arith

push_all-fragment_armored_example :
    push_all endpoint new_reassembler (map (λ (q : ℕ × Time). (get_or datagrams q.0 [], q.1)) queue)
    ≡ incomplete ∷ incomplete ∷ complete_packet packet ∷ []
push_all-fragment_armored_example =
    push_all-fragment_armored endpoint packet 28 10 new_reassembler queue packet-AreBytes
      (omega arith) (omega arith) (omega arith) (λ e. absurd (omega (arith, e)))
      (λ e. absurd (cc (e))) fragment_armored-packet new_reassembler-IsReassembler no_packet
      (omega arith) queue-IsOrder
