-- ===== src/Transport/Reassembly/Delivery.antt =====
-- From `fragmentArmored` to `push`: the datagrams of a packet, whatever order they arrive in.
use mathlib.Core.Path.{subst}
use ztgotroller.Base.{
  ℕ, ◌≤◌, ◌<◌, ◌≡◌, ◌≢◌, refl, sym, ap, ◌∙◌, arith, List, [], Bytes, map, none, length, take, drop,
  get_or, find, AreBytes, get_be, bit_and, ok, inl, ◌∷◌,
}
use ztgotroller.Netip.{AddrPort, Time}
use ztgotroller.Packet.Fragment.{fragment_armored, fragment_count}
use ztgotroller.Packet.Fragment.Laws.{split, split_of_ok, fragment_armored-ok_iff}
use ztgotroller.Packet.Header.{byte_at, flag_fragmented}
use ztgotroller.Transport.Reassembly.{Reassembler, reassembly_keys, key_of, max_reassembly_slots}
use ztgotroller.Transport.Reassembly.AnyOrder.{push_all, IsOrder, outcomes, push_all-Collecting}
use ztgotroller.Transport.Reassembly.Collect.{Collecting}
use ztgotroller.Transport.Reassembly.Fragments.{split-AreDatagrams, loop_length, gathered, several}
use ztgotroller.Transport.Reassembly.Slots.{IsReassembler}

IsOrder-queue :
    (total : ℕ) (since : Time) (queue : List (ℕ × Time))
    → 2 ≤ total
    → IsOrder total since [] queue
    → 0 < length queue
IsOrder-queue total since [] two order = absurd (omega (arith, order.0))
IsOrder-queue total since (q ∷ queue) two order = omega arith

-- A packet of bytes beyond the MTU, which is from 28 to 1432, has the flag for fragments and a
-- source address that does not begin with 0xff. If `fragmentArmored` splits it, and a well-formed
-- reassembler that does not know the packet and has a free slot gets the datagrams from one
-- endpoint, each of them once, in any order and within the time-out, then `push` returns nothing
-- until the last datagram, and returns the packet with that one.
pub push_all-fragment_armored :
    (endpoint : AddrPort) (a : Bytes) (mtu : ℕ) (since : Time) (r : Reassembler)
    (queue : List (ℕ × Time)) {frags : List Bytes}
    → AreBytes a
    → 28 ≤ mtu
    → mtu ≤ 1432
    → mtu < length a
    → byte_at a 13 ≢ 0xff
    → bit_and (byte_at a 18) flag_fragmented ≢ 0
    → fragment_armored a mtu ≡ ok frags
    → IsReassembler r
    → find (key_of endpoint (get_be (take 8 a))) r ≡ none
    → length r < max_reassembly_slots
    → IsOrder (length frags) since [] queue
    → push_all endpoint r (map (λ (q : ℕ × Time). (get_or frags q.0 [], q.1)) queue)
      ≡ outcomes (length queue) a
push_all-fragment_armored endpoint a mtu since r queue {frags} bytes low high large plain flagged e
      sound new room order =
    let (is, few) = split_of_ok a mtu large e in
    let total = fragment_count (length a) mtu in
    let datagrams = split-AreDatagrams a mtu bytes low high large few plain flagged in
    let whole = gathered a mtu bytes low high large few plain flagged in
    let two = several a mtu bytes low high large few plain flagged in
    let count : length frags ≡ total =
      ap length (sym is)
      ∙ omega (arith, loop_length a mtu bytes low high large few plain flagged, two) in
    let capacity = (fragment_armored-ok_iff a mtu (omega arith)).0 (frags, e) in
    let ordered : IsOrder total since [] queue =
      subst (λ n. IsOrder n since [] queue) count order in
    let start : Collecting endpoint (get_be (take 8 a)) total (take mtu a)
        (λ n. drop 16 (get_or (split a mtu) n [])) (λ n. get_or (split a mtu) n []) since datagrams
        [] r =
      record { reassembler = sound; held = inl (refl, new, room) } in
    let run =
      push_all-Collecting endpoint (get_be (take 8 a)) total (take mtu a)
        (λ n. drop 16 (get_or (split a mtu) n [])) (λ n. get_or (split a mtu) n []) since datagrams
        (omega (arith, ap length whole, capacity)) queue [] r start
        (IsOrder-queue total since queue two ordered) ordered in
    subst
      (λ fs.
        push_all endpoint r (map (λ (q : ℕ × Time). (get_or fs q.0 [], q.1)) queue)
        ≡ outcomes (length queue) a)
      is (run ∙ ap (outcomes (length queue)) whole)
