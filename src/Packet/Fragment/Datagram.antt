-- ===== src/Packet/Fragment/Datagram.antt =====
-- The datagram of one fragment: its size, and what `IsFragment` and `ParseFragment` read from it.

use ztgotroller.Base.{
  ℕ, ◌+◌, ◌*◌, ◌%◌, ◌≤◌, ◌<◌, ◌≡◌, refl, sym, ◌∙◌, arith, true, ◌∷◌, ◌++◌, Bytes, length, take,
  drop, ok, AreBytes, IsByte, length-append, All-take, All-drop, length-take, length-drop,
  take-append_length, drop-append_length, take-take, take-drop, get_or-append, hex_encode, bit_or,
  bit_or-shifted, bit_and-ones, get_be, drop-drop,
}
use ztgotroller.Domain.Ids.Laws.{parse_node_id-hex_encode}
use ztgotroller.Packet.Fragment.{fragment_datagram}
use ztgotroller.Packet.Header.{slice, byte_at, parse_fragment, is_fragment}

pub length-datagram :
    (a : Bytes) (t n : ℕ) (p : Bytes)
    → 13 ≤ length a
    → length (fragment_datagram a t n p) ≡ 16 + length p
unfolding fragment_datagram
length-datagram a t n p h =
    omega (
      arith,
      length-append (take 13 a) (0xff ∷ (bit_or (t * 16) n % 256) ∷ 0 ∷ p),
      length-take 13 a,
    )

pub drop-datagram :
    (a : Bytes) (t n : ℕ) (p : Bytes) → 13 ≤ length a → drop 16 (fragment_datagram a t n p) ≡ p
unfolding fragment_datagram
drop-datagram a t n p h =
    let size : length (take 13 a) ≡ 13 = omega (arith, length-take 13 a) in
    let tail : Bytes = 0xff ∷ (bit_or (t * 16) n % 256) ∷ 0 ∷ p in
    sym (drop-drop 13 3 (take 13 a ++ tail)) ∙ rw (drop-append_length (take 13 a) tail 13 size) refl

numbering : (t n : ℕ) → t < 16 → n < 16 → bit_or (t * 16) n % 256 ≡ t * 16 + n
numbering t n h k = rw (bit_or-shifted 4 t n k) (omega arith)

-- The fields of a datagram behind its first 13 bytes, and those 13 bytes.
datagram_bytes :
    (a : Bytes) (t n : ℕ) (p : Bytes)
    → 13 ≤ length a
    → (byte_at (fragment_datagram a t n p) 13 ≡ 0xff)
      × (byte_at (fragment_datagram a t n p) 14 ≡ bit_or (t * 16) n % 256)
      × (byte_at (fragment_datagram a t n p) 15 ≡ 0)
unfolding fragment_datagram
datagram_bytes a t n p h =
    let size : length (take 13 a) ≡ 13 = omega (arith, length-take 13 a) in
    let tail : Bytes = 0xff ∷ (bit_or (t * 16) n % 256) ∷ 0 ∷ p in
    (
      get_or-append (take 13 a) tail 13 0 0 size,
      get_or-append (take 13 a) tail 13 1 0 size,
      get_or-append (take 13 a) tail 13 2 0 size,
    )

datagram_front :
    (a : Bytes) (t n : ℕ) (p : Bytes)
    → 13 ≤ length a
    → (take 8 (fragment_datagram a t n p) ≡ take 8 a)
      × (slice 8 13 (fragment_datagram a t n p) ≡ slice 8 13 a)
unfolding fragment_datagram
datagram_front a t n p h =
    let size : length (take 13 a) ≡ 13 = omega (arith, length-take 13 a) in
    let tail : Bytes = 0xff ∷ (bit_or (t * 16) n % 256) ∷ 0 ∷ p in
    let whole : take 13 (take 13 a ++ tail) ≡ take 13 a =
      take-append_length (take 13 a) tail 13 size in
    (
      sym (take-take 8 13 (take 13 a ++ tail) (omega arith))
          ∙ rw whole (take-take 8 13 a (omega arith)),
      take-drop 5 8 (take 13 a ++ tail) ∙ rw whole (sym (take-drop 5 8 a)),
    )

-- For a packet of 13 bytes or more, and a total and a number below 16, `IsFragment` recognises the
-- fragment datagram, and `ParseFragment` reads its numbers and its payload, with the packet's
-- identifier and destination.
pub parse_fragment-datagram :
    (a : Bytes) (t n : ℕ) (p : Bytes)
    → AreBytes a
    → 13 ≤ length a
    → t < 16
    → n < 16
    → (is_fragment (fragment_datagram a t n p) ≡ true)
      × (parse_fragment (fragment_datagram a t n p)
          ≡ ok (record {
            packet_id = get_be (take 8 a);
            destination = hex_encode (slice 8 13 a);
            total_fragments = t;
            number = n;
            hops = 0;
            payload = p;
          }))
unfolding is_fragment parse_fragment
parse_fragment-datagram a t n p bytes h ht hn =
    let d = fragment_datagram a t n p in
    let size = length-datagram a t n p h in
    let at = datagram_bytes a t n p h in
    let front = datagram_front a t n p h in
    let number = numbering t n ht hn in
    let id =
      parse_node_id-hex_encode (slice 8 13 a)
        (All-take IsByte 5 (drop 8 a) (All-drop IsByte 8 a bytes))
        (omega (arith, length-take 5 (drop 8 a), length-drop 8 a)) in
    (ground arith, ground (arith, drop-datagram a t n p h, bit_and-ones 4 (t * 16 + n)))
