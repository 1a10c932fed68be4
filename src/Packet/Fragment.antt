-- ===== src/Packet/Fragment.antt =====
-- `fragment.go`: splitting an armored packet into datagrams.
pub mod Datagram
pub mod Sizes
pub mod Laws
use ztgotroller.Base.{
  ℕ, zero, suc, ◌+◌, ◌-◌, ◌*◌, ◌/◌, ◌%◌, Bool, false, List, [], ◌∷◌, ◌++◌, Bytes, length, take,
  drop, ltb, leb, if◌then◌else◌, bit_or, Result, ok, err, ◌>>=◌, ◌>>◌, fail_if,
}
use ztgotroller.Packet.Header.{Error, too_many_fragments, fragment_length, slice}

abbrev pub default_physical_mtu : ℕ
default_physical_mtu = 1432

abbrev pub max_packet_fragments : ℕ
max_packet_fragments = 7

-- The datagram of one fragment: the packet's first 13 bytes, the indicator, the byte with the
-- total and the number, a zero hop count, and the payload.
unfoldable pub fragment_datagram : Bytes → ℕ → ℕ → Bytes → Bytes
fragment_datagram armored total number payload =
    take 13 armored ++ (0xff ∷ (bit_or (total * 16) number % 256) ∷ 0 ∷ payload)

-- The payload of a fragment takes `room` bytes, or what is left from `offset` on.
unfoldable pub fragment_size : Bytes → ℕ → ℕ → ℕ
fragment_size armored room offset =
    if ltb (length armored - offset) room then length armored - offset else room

-- The rounds of the loop that are left, from fragment `number` at `offset` on.
unfoldable pub fragment_loop : Bytes → ℕ → ℕ → ℕ → ℕ → ℕ → List Bytes
fragment_loop armored total room zero number offset = []
fragment_loop armored total room (suc rounds) number offset =
    let size = fragment_size armored room offset in
    let payload = slice offset (offset + size) armored in
    fragment_datagram armored total number payload
    ∷ fragment_loop armored total room rounds (number + 1) (offset + size)

-- `total`: one datagram of `mtu` bytes, and as many fragments as the rest needs.
unfoldable pub fragment_count : ℕ → ℕ → ℕ
fragment_count size mtu = 1 + (size - mtu + (mtu - fragment_length) - 1) / (mtu - fragment_length)

unfoldable pub fragment_armored : Bytes → ℕ → Result Error (List Bytes)
fragment_armored armored mtu = if leb (length armored) mtu then ok (armored ∷ []) else do
  let total = fragment_count (length armored) mtu
  fail_if (ltb max_packet_fragments total) too_many_fragments
  let room = mtu - fragment_length
  ok (take mtu armored ∷ fragment_loop armored total room (total - 1) 1 mtu)
