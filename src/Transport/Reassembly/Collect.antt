-- ===== src/Transport/Reassembly/Collect.antt =====
-- The datagrams of one packet arriving one after the other.
use mathlib.Core.Path.{subst}
use ztgotroller.Base.{
  ℕ, ◌+◌, ◌≤◌, ◌<◌, ◌≡◌, ◌⊎◌, inl, inr, refl, sym, ap, ◌∙◌, arith, List, [], ◌∷◌, Bytes, true,
  false, none, some, length, find, put, find-keep, length-keep, nat_eq, is_among, ok,
}
use ztgotroller.Netip.{AddrPort, Time, has_elapsed}
use ztgotroller.Packet.Header.{Fragment, RoutingHeader, is_fragment, parse_fragment, parse_routing}
use ztgotroller.Transport.Reassembly.{
  complete, add_fragment, add_first, is_misnumbered, PartialPacket, Reassembler, ReassemblyKey,
  reassembly_keys, expire, slot, push, push_live, key_of, reassembly_ttl, max_reassembly_slots,
}
use ztgotroller.Transport.Reassembly.Pieces.{
  Holds, add_fragment-Holds, add_first-Holds, stored_fragment, stored_first,
}
use ztgotroller.Transport.Reassembly.Slots.{IsReassembler, fresh_packet, slot_held, slot_fresh}

-- What the reassembler reads from the datagrams of one packet, which are numbered from 0.
pub record AreDatagrams (id total : ℕ) (first : Bytes) (payload datagram : ℕ → Bytes) : Type 0 where
  pub several : 2 ≤ total
  pub few : total ≤ 7
  pub some_first : 0 < length first
  pub first_size : length first ≤ 1432
  pub first_datagram : datagram 0 ≡ first
  pub not_fragment : is_fragment first ≡ false
  pub header : RoutingHeader
  pub routing : parse_routing first ≡ ok header
  pub fragmented : header.fragmented ≡ true
  pub header_id : header.packet_id ≡ id
  pub fragment : ℕ → Fragment
  pub are_fragments : (n : ℕ) → 0 < n → n < total → is_fragment (datagram n) ≡ true
  pub parsed : (n : ℕ) → 0 < n → n < total → parse_fragment (datagram n) ≡ ok (fragment n)
  pub fragment_id : (n : ℕ) → (fragment n).packet_id ≡ id
  pub fragment_number : (n : ℕ) → (fragment n).number ≡ n
  pub fragment_total : (n : ℕ) → (fragment n).total_fragments ≡ total
  pub fragment_payload : (n : ℕ) → (fragment n).payload ≡ payload n
  pub sizes : (n : ℕ) → length (payload n) ≤ 1432

is_misnumbered_not :
    (f : Fragment) (total : ℕ)
    → 0 < f.number
    → f.number < total
    → f.total_fragments ≡ total
    → total ≤ 7
    → is_misnumbered f ≡ false
unfolding is_misnumbered
is_misnumbered_not f total a b c d = ground arith

push_of_first :
    (r : Reassembler) (bytes : Bytes) (endpoint : AddrPort) (now : Time) (header : RoutingHeader)
    (p : PartialPacket) (rest : Reassembler)
    → is_fragment bytes ≡ false
    → parse_routing bytes ≡ ok header
    → header.fragmented ≡ true
    → slot (expire r now) (key_of endpoint header.packet_id) now ≡ ok (p, rest)
    → push r bytes endpoint now ≡ add_first (key_of endpoint header.packet_id) bytes p rest
unfolding push push_live
push_of_first r bytes endpoint now header p rest a b c e = rw (a, b, c, e) refl

push_of_fragment :
    (r : Reassembler) (bytes : Bytes) (endpoint : AddrPort) (now : Time) (f : Fragment)
    (key : ReassemblyKey) (p : PartialPacket) (rest : Reassembler)
    → is_fragment bytes ≡ true
    → parse_fragment bytes ≡ ok f
    → is_misnumbered f ≡ false
    → key_of endpoint f.packet_id ≡ key
    → slot (expire r now) key now ≡ ok (p, rest)
    → push r bytes endpoint now ≡ add_fragment key f p rest
unfolding push push_live
push_of_fragment r bytes endpoint now f key p rest a b c same e = rw (a, b, c, same, e) refl

module _ (endpoint : AddrPort) (id total : ℕ) (first : Bytes) (payload datagram : ℕ → Bytes)
    (since : Time) (d : AreDatagrams id total first payload datagram) where
  abbrev pub key : ReassemblyKey
  key = key_of endpoint id

  -- The state while `numbers` have arrived; before the first one there is room for a slot.
  pub record Collecting (numbers : List ℕ) (r : Reassembler) : Type 0 where
    pub reassembler : IsReassembler r
    pub held :
        ((numbers ≡ []) × (find key r ≡ none) × (length r < max_reassembly_slots))
        ⊎ ((p : PartialPacket) × (find key r ≡ some p) × Holds total first payload since numbers p)

  -- The slot that a datagram finds or gets.
  pub record Ready (numbers : List ℕ) (r : Reassembler) (now : Time) : Type 0 where
    pub packet : PartialPacket
    pub rest : Reassembler
    pub slotted : slot (expire r now) key now ≡ ok (packet, rest)
    pub holds : Holds total first payload since numbers packet

  fresh-Holds : (now : Time) → since ≤ now → Holds total first payload since [] (fresh_packet now)
  unfolding find is_among
  fresh-Holds now h = record {
    first_held = refl;
    fragment_held = λ n pos. refl;
    total_held = inl refl;
    total_known = inl refl;
    counted = refl;
    budget = omega arith;
    recent = h;
  }

  expire_absent :
      (r : Reassembler) (now : Time)
      → IsReassembler r
      → find key r ≡ none
      → find key (expire r now) ≡ none
  unfolding expire
  expire_absent r now h absent = rw (find-keep _ key r h.distinct, absent) refl

  expire_present :
      (r : Reassembler) (now : Time) (p : PartialPacket)
      → IsReassembler r
      → find key r ≡ some p
      → now < p.created + reassembly_ttl
      → find key (expire r now) ≡ some p
  unfolding expire
  expire_present r now p h present early =
      let fresh : has_elapsed now p.created reassembly_ttl ≡ false = ground arith in
      rw (find-keep _ key r h.distinct, present, fresh) refl

  expire_shorter : (r : Reassembler) (now : Time) → length (expire r now) ≤ length r
  unfolding expire
  expire_shorter r now = length-keep _ r

  pub ready :
      (numbers : List ℕ) (r : Reassembler) (now : Time)
      → Collecting numbers r
      → since ≤ now
      → now < since + reassembly_ttl
      → Ready numbers r now
  ready numbers r now c late early = by_state c.held
    where
      by_state :
          ((numbers ≡ []) × (find key r ≡ none) × (length r < max_reassembly_slots))
            ⊎ ((p : PartialPacket) × (find key r ≡ some p)
                × Holds total first payload since numbers p)
          → Ready numbers r now
      by_state (inl (none_yet, absent, room)) = record {
        packet = fresh_packet now;
        rest = put key (fresh_packet now) (expire r now);
        slotted =
            slot_fresh (expire r now) key now (expire_absent r now c.reassembler absent)
              (omega (arith, expire_shorter r now));
        holds =
            subst (λ ns. Holds total first payload since ns (fresh_packet now)) (sym none_yet)
              (fresh-Holds now late);
      }
      by_state (inr (p, present, holds)) = record {
        packet = p;
        rest = expire r now;
        slotted =
            slot_held (expire r now) key now
              (expire_present r now p c.reassembler present (omega (arith, holds.recent)));
        holds = holds;
      }

  -- A new datagram of the packet ends in `complete`.
  pub record Arrived (n : ℕ) (numbers : List ℕ) (r : Reassembler) (now : Time) : Type 0 where
    pub packet : PartialPacket
    pub rest : Reassembler
    pub pushed : push r (datagram n) endpoint now ≡ complete (put key packet rest) key packet
    pub holds : Holds total first payload since (n ∷ numbers) packet

  pub first_arrives :
      (numbers : List ℕ) (r : Reassembler) (now : Time)
      → Ready numbers r now
      → is_among 0 numbers ≡ false
      → length numbers < 7
      → Arrived 0 numbers r now
  first_arrives numbers r now y new few =
      let (added, holds) =
        add_first-Holds total first payload since numbers key y.packet y.rest y.holds new few
          d.first_size in
      record {
        packet = stored_first total first payload since y.packet;
        rest = y.rest;
        pushed =
            rw (d.first_datagram, ← d.header_id)
              (push_of_first r first endpoint now d.header y.packet y.rest d.not_fragment d.routing
                  d.fragmented (rw d.header_id y.slotted)
                ∙ rw d.header_id added);
        holds = holds;
      }

  pub fragment_arrives :
      (n : ℕ) (numbers : List ℕ) (r : Reassembler) (now : Time)
      → Ready numbers r now
      → 0 < n
      → n < total
      → is_among n numbers ≡ false
      → length numbers < 7
      → Arrived n numbers r now
  fragment_arrives n numbers r now y pos below new few =
      let f = d.fragment n in
      let number = d.fragment_number n in
      let wanted = d.fragment_id n in
      let (added, holds) =
        add_fragment-Holds total first payload since numbers key f y.packet y.rest y.holds
          (omega (arith, number)) (rw number new) few (d.fragment_total n)
          (d.fragment_payload n ∙ ap payload (sym number))
          (omega (arith, ap length (d.fragment_payload n), d.sizes n)) in
      let numbered =
        is_misnumbered_not f total (omega (arith, number)) (omega (arith, number))
          (d.fragment_total n) d.few in
      record {
        packet = stored_fragment total first payload since f y.packet;
        rest = y.rest;
        pushed =
            push_of_fragment r (datagram n) endpoint now f key y.packet y.rest
              (d.are_fragments n pos below) (d.parsed n pos below) numbered
              (ap (key_of endpoint) wanted) y.slotted
            ∙ added;
        holds =
            subst
              (λ m.
                Holds total first payload since (m ∷ numbers)
                  (stored_fragment total first payload since f y.packet))
              number holds;
      }
