-- ===== src/Transport/Reassembly/AnyOrder.antt =====
-- The datagrams of one packet in any order.
use ztgotroller.Base.{
  ℕ, zero, suc, ◌+◌, ◌-◌, ◌≤◌, ◌<◌, ◌≡◌, inr, refl, ap, ◌∙◌, arith, List, [], ◌∷◌, ◌++◌, Bytes,
  true, false, map, length, put, find-put_self, nat_eq, is_among,
}
use ztgotroller.Netip.{AddrPort, Time}
use ztgotroller.Packet.Header.{max_packet_length}
use ztgotroller.Transport.Reassembly.{
  Reassembler, reassembly_keys, Pushed, incomplete, complete_packet, push, key_of, reassembly_ttl,
}
use ztgotroller.Transport.Reassembly.Collect.{
  AreDatagrams, Collecting, Arrived, ready, first_arrives, fragment_arrives,
}
use ztgotroller.Transport.Reassembly.Invariant.{push-IsSound}
use ztgotroller.Transport.Reassembly.Pieces.{gather, complete_waits, complete_joins}

-- Datagrams from one endpoint, each with its time of arrival, pushed one after the other.
unfoldable pub push_all : AddrPort → Reassembler → List (Bytes × Time) → List Pushed
push_all endpoint r [] = []
push_all endpoint r ((datagram, now) ∷ rest) =
    (push r datagram endpoint now).1 ∷ push_all endpoint (push r datagram endpoint now).0 rest

-- The queue has each number below `total` once that is not among `numbers`, which has the others,
-- and each arrives before the slot of the packet expires.
abbrev pub IsOrder : ℕ → Time → List ℕ → List (ℕ × Time) → Type 0
IsOrder total since numbers [] =
    (length numbers ≡ total) × ((i : ℕ) → i < total → is_among i numbers ≡ true)
IsOrder total since numbers ((n, now) ∷ queue) =
    (n < total)
    × (is_among n numbers ≡ false)
    × (since ≤ now)
    × (now < since + reassembly_ttl)
    × IsOrder total since (n ∷ numbers) queue

IsOrder-length :
    (total : ℕ) (since : Time) (numbers : List ℕ) (queue : List (ℕ × Time))
    → IsOrder total since numbers queue
    → length numbers + length queue ≡ total
IsOrder-length total since numbers [] h = omega (arith, h.0)
IsOrder-length total since numbers ((n, now) ∷ queue) h =
    omega (arith, IsOrder-length total since (n ∷ numbers) queue h.4)

-- The results of a packet in `n` datagrams: nothing, until the last one completes it.
abbrev pub outcomes : ℕ → Bytes → List Pushed
outcomes zero packet = []
outcomes (suc zero) packet = complete_packet packet ∷ []
outcomes (suc (suc n)) packet = incomplete ∷ outcomes (suc n) packet

module _ (endpoint : AddrPort) (id total : ℕ) (first : Bytes) (payload datagram : ℕ → Bytes)
    (since : Time) (d : AreDatagrams id total first payload datagram)
    (fits : length (first ++ gather payload 1 (total - 1)) ≤ max_packet_length) where
  abbrev IsCollecting : List ℕ → Reassembler → Type 0
  IsCollecting = Collecting endpoint id total first payload datagram since d

  abbrev packet : Bytes
  packet = first ++ gather payload 1 (total - 1)

  arrives :
      (n : ℕ) (numbers : List ℕ) (r : Reassembler) (now : Time)
      → IsCollecting numbers r
      → n < total
      → is_among n numbers ≡ false
      → length numbers < total
      → since ≤ now
      → now < since + reassembly_ttl
      → Arrived endpoint id total first payload datagram since d n numbers r now
  arrives zero numbers r now c below new more late early =
      first_arrives endpoint id total first payload datagram since d numbers r now
        (ready endpoint id total first payload datagram since d numbers r now c late early) new
        (omega (arith, d.few))
  arrives (suc n) numbers r now c below new more late early =
      fragment_arrives endpoint id total first payload datagram since d (suc n) numbers r now
        (ready endpoint id total first payload datagram since d numbers r now c late early)
        (omega arith) below new (omega (arith, d.few))

  pub push_all-Collecting :
      (queue : List (ℕ × Time)) (numbers : List ℕ) (r : Reassembler)
      → IsCollecting numbers r
      → 0 < length queue
      → IsOrder total since numbers queue
      → push_all endpoint r (map (λ (q : ℕ × Time). (datagram q.0, q.1)) queue)
        ≡ outcomes (length queue) packet
  unfolding push_all
  push_all-Collecting [] numbers r c some_left order = absurd (omega arith)
  push_all-Collecting ((n, now) ∷ []) numbers r c some_left (below, new, late, early, done) =
      let arrived = arrives n numbers r now c below new (omega (arith, done.0)) late early in
      let joins =
        complete_joins total first payload since (n ∷ numbers) (key_of endpoint id) arrived.packet
          (put (key_of endpoint id) arrived.packet arrived.rest) arrived.holds d.several done.0
          done.1 d.some_first fits in
      rw (arrived.pushed, joins) refl
  push_all-Collecting ((n, now) ∷ q ∷ queue) numbers r c some_left
        (below, new, late, early, order) =
      let size = IsOrder-length total since (n ∷ numbers) (q ∷ queue) order in
      let arrived = arrives n numbers r now c below new (omega (arith, size)) late early in
      let kept = put (key_of endpoint id) arrived.packet arrived.rest in
      let waits : push r (datagram n) endpoint now ≡ (kept, incomplete) =
        arrived.pushed
        ∙ complete_waits total first payload since (n ∷ numbers) (key_of endpoint id) arrived.packet
            kept arrived.holds (omega (arith, size)) in
      let sound = (push-IsSound r (datagram n) endpoint now c.reassembler).0 in
      let next : IsCollecting (n ∷ numbers) kept = record {
        reassembler = rw waits at sound;
        held = inr (
          arrived.packet,
          find-put_self (key_of endpoint id) arrived.packet arrived.rest,
          arrived.holds,
        );
      } in
      rw waits (
        ap (◌∷◌ incomplete)
          (push_all-Collecting (q ∷ queue) (n ∷ numbers) kept next (omega arith) order))
