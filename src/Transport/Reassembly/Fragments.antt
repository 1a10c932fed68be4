-- ===== src/Transport/Reassembly/Fragments.antt =====
-- From `fragmentArmored` to the reassembler: what it reads from the datagrams of a packet.

use ztgotroller.Base.{
  dec_lt, ℕ, zero, suc, ◌+◌, ◌-◌, ◌/◌, ◌≤◌, ◌<◌, ◌≡◌, ◌≢◌, refl, sym, ap, ◌∙◌, arith, List, [], ◌∷◌,
  ◌++◌, Bytes, true, false, not, ◌==◌, length, take, drop, get_or, All, AreBytes, IsByte, All-take,
  All-drop, length-take, length-drop, take-take, hex_encode, get_be, bit_and, ok,
}
use ztgotroller.Domain.Ids.Laws.{parse_node_id-hex_encode}
use ztgotroller.Packet.Fragment.{fragment_loop, fragment_datagram, fragment_size, fragment_count}
use ztgotroller.Packet.Fragment.Datagram.{parse_fragment-datagram, drop-datagram}
use ztgotroller.Packet.Fragment.Laws.{split, fragment_armored-split, fragment_armored-join}
use ztgotroller.Packet.Fragment.Sizes.{payloads, fragment_loop_sizes, count_covers}
use ztgotroller.Packet.Header.{
  Fragment, RoutingHeader, byte_at, slice, flag_fragmented, flag_extended_armor, is_fragment,
  parse_fragment, parse_routing,
}
use ztgotroller.Transport.Reassembly.{reassembly_keys}
use ztgotroller.Transport.Reassembly.Collect.{AreDatagrams}
use ztgotroller.Transport.Reassembly.Pieces.{gather}

get_or-All :
    (n : ℕ) (ps : List Bytes) (i : ℕ) → All (λ p. length p ≤ n) ps → length (get_or ps i []) ≤ n
get_or-All n [] i h = omega arith
get_or-All n (p ∷ ps) zero h = h.0
get_or-All n (p ∷ ps) (suc i) h = get_or-All n ps i h.1

get_or-take : (n : ℕ) (xs : Bytes) (i : ℕ) → i < n → get_or (take n xs) i 0 ≡ get_or xs i 0
get_or-take zero xs i h = absurd (omega arith)
get_or-take (suc n) [] i h = refl
get_or-take (suc n) (x ∷ xs) zero h = refl
get_or-take (suc n) (x ∷ xs) (suc i) h = get_or-take n xs i (omega arith)

-- The payloads by their numbers are the payloads of the list.
gather-payloads :
    (rest : List Bytes) (p : ℕ → Bytes) (number : ℕ)
    → ((i : ℕ) → i < length rest → p (number + i) ≡ drop 16 (get_or rest i []))
    → gather p number (length rest) ≡ payloads rest
gather-payloads [] p number h = refl
gather-payloads (f ∷ rest) p number h =
    let this : p number ≡ drop 16 f =
      ap p {x = number} {y = number + 0} (omega arith) ∙ h 0 (omega arith) in
    let others = gather-payloads rest p (number + 1) (λ i below.
      ap p {x = number + 1 + i} {y = number + suc i} (omega arith) ∙ h (suc i) (omega arith)) in
    rw (this, others) refl

-- Each entry of the loop is the datagram of a fragment with its number.
get_or-fragment_loop :
    (a : Bytes) (t room rounds n offset k : ℕ)
    → k < rounds
    → (q : Bytes) × (get_or (fragment_loop a t room rounds n offset) k []
        ≡ fragment_datagram a t (n + k) q)
unfolding fragment_loop
get_or-fragment_loop a t room zero n offset k h = absurd (omega arith)
get_or-fragment_loop a t room (suc rounds) n offset zero h =
    let payload = slice offset (offset + fragment_size a room offset) a in
    (payload, ap (λ j. fragment_datagram a t j payload) {x = n} {y = n + 0} (omega arith))
get_or-fragment_loop a t room (suc rounds) n offset (suc k) h =
    let (q, is) =
      get_or-fragment_loop a t room rounds (n + 1) (offset + fragment_size a room offset) k
        (omega arith) in
    (q, is ∙ ap (λ j. fragment_datagram a t j q) {x = n + 1 + k} {y = n + suc k} (omega arith))

raw_header : Bytes → RoutingHeader
raw_header b = record {
  packet_id = get_be (take 8 b);
  destination = hex_encode (slice 8 13 b);
  source = hex_encode (slice 13 18 b);
  flags = byte_at b 18;
  hops = bit_and (byte_at b 18) 0x07;
  cipher = bit_and (byte_at b 18) 0x38 / 8;
  fragmented = not (bit_and (byte_at b 18) flag_fragmented == 0);
  extended_armor = not (bit_and (byte_at b 18) flag_extended_armor == 0);
}

parse_routing-raw : (b : Bytes) → AreBytes b → 28 ≤ length b → parse_routing b ≡ ok (raw_header b)
unfolding parse_routing raw_header
parse_routing-raw b bytes long =
    let destination =
      parse_node_id-hex_encode (slice 8 13 b)
        (All-take IsByte 5 (drop 8 b) (All-drop IsByte 8 b bytes))
        (omega (arith, length-take 5 (drop 8 b), length-drop 8 b)) in
    let source =
      parse_node_id-hex_encode (slice 13 18 b)
        (All-take IsByte 5 (drop 13 b) (All-drop IsByte 13 b bytes))
        (omega (arith, length-take 5 (drop 13 b), length-drop 13 b)) in
    ground arith

module _ (a : Bytes) (mtu : ℕ) (bytes : AreBytes a) (low : 28 ≤ mtu) (high : mtu ≤ 1432)
    (large : mtu < length a) (few : fragment_count (length a) mtu ≤ 7) (plain : byte_at a 13 ≢ 0xff)
    (flagged : bit_and (byte_at a 18) flag_fragmented ≢ 0) where
  abbrev total : ℕ
  total = fragment_count (length a) mtu

  abbrev head : Bytes
  head = take mtu a

  abbrev datagram : ℕ → Bytes
  datagram n = get_or (split a mtu) n []

  abbrev fragment : ℕ → Fragment
  fragment n = record {
    packet_id = get_be (take 8 a);
    destination = hex_encode (slice 8 13 a);
    total_fragments = total;
    number = n;
    hops = 0;
    payload = drop 16 (datagram n);
  }

  pub several : 2 ≤ total
  several =
      let covers = count_covers (length a) mtu (omega arith) large in
      elim (dec_lt (total - 1) 1) [
        | yes none_left ↦
            let nothing : total - 1 ≡ 0 = omega arith in
            absurd (omega (arith, rw nothing at covers))
        | no some_left ↦ omega arith
      ]

  loop_entry :
      (n : ℕ) → 0 < n → n < total → (q : Bytes) × (datagram n ≡ fragment_datagram a total n q)
  loop_entry zero pos below = absurd (omega arith)
  loop_entry (suc k) pos below =
      let (q, is) = get_or-fragment_loop a total (mtu - 16) (total - 1) 1 mtu k (omega arith) in
      (q, is ∙ ap (λ j. fragment_datagram a total j q) {x = 1 + k} {y = suc k} (omega arith))

  datagram_parsed :
      (n : ℕ)
      → 0 < n
      → n < total
      → (is_fragment (datagram n) ≡ true) × (parse_fragment (datagram n) ≡ ok (fragment n))
  datagram_parsed n pos below =
      let (q, is) = loop_entry n pos below in
      let whole =
        parse_fragment-datagram a total n q bytes (omega arith) (omega (arith, few))
          (omega (arith, few)) in
      let payload : drop 16 (datagram n) ≡ q =
        ap (drop 16) is ∙ drop-datagram a total n q (omega arith) in
      (ap is_fragment is ∙ whole.0, ap parse_fragment is ∙ rw payload whole.1)

  head_size : length head ≡ mtu
  head_size = omega (arith, length-take mtu a)

  head_id : get_be (take 8 head) ≡ get_be (take 8 a)
  head_id = ap get_be (take-take 8 mtu a (omega arith))

  head_flag : (raw_header head).fragmented ≡ true
  unfolding raw_header
  head_flag = ground (arith, get_or-take mtu a 18 (omega arith))

  head_not_fragment : is_fragment head ≡ false
  unfolding is_fragment
  head_not_fragment = ground (arith, get_or-take mtu a 13 (omega arith))

  datagram_sizes : (n : ℕ) → length (drop 16 (datagram n)) ≤ 1432
  datagram_sizes n =
      let fits =
        (fragment_armored-join a mtu (omega arith) (omega arith)
          (fragment_armored-split a mtu large few)).0 in
      omega (arith, length-drop 16 (datagram n), get_or-All mtu (split a mtu) n fits)

  pub split-AreDatagrams :
      AreDatagrams (get_be (take 8 a)) total head (λ n. drop 16 (datagram n)) datagram
  unfolding raw_header
  split-AreDatagrams = record {
    several = several;
    few = few;
    some_first = omega (arith, head_size);
    first_size = omega (arith, head_size);
    first_datagram = refl;
    not_fragment = head_not_fragment;
    header = raw_header head;
    routing = parse_routing-raw head (All-take IsByte mtu a bytes) (omega (arith, head_size));
    fragmented = head_flag;
    header_id = head_id;
    fragment = fragment;
    are_fragments = λ n pos below. (datagram_parsed n pos below).0;
    parsed = λ n pos below. (datagram_parsed n pos below).1;
    fragment_id = λ n. refl;
    fragment_number = λ n. refl;
    fragment_total = λ n. refl;
    fragment_payload = λ n. refl;
    sizes = datagram_sizes;
  }

  pub loop_length : length (fragment_loop a total (mtu - 16) (total - 1) 1 mtu) ≡ total - 1
  loop_length = (fragment_loop_sizes a total (mtu - 16) (total - 1) 1 mtu (omega arith)).1

  pub gathered : head ++ gather (λ n. drop 16 (datagram n)) 1 (total - 1) ≡ a
  gathered =
      let loop = fragment_loop a total (mtu - 16) (total - 1) 1 mtu in
      let whole =
        (fragment_armored-join a mtu (omega arith) (omega arith)
          (fragment_armored-split a mtu large few)).2 in
      let parts =
        gather-payloads loop (λ n. drop 16 (datagram n)) 1
          (λ i below. ap (λ n. drop 16 (datagram n)) {x = 1 + i} {y = suc i} (omega arith)) in
      ap (λ n. head ++ gather (λ k. drop 16 (datagram k)) 1 n) (sym loop_length)
      ∙ (ap (λ p. head ++ p) parts ∙ whole)
