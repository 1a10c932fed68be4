-- ===== src/Transport/Reassembly/Invariant.antt =====
-- The accounting of the reassembler is kept by `push`.

use ztgotroller.Base.{
  ◌+◌, ◌-◌, ◌≤◌, ◌&&◌, ◌||◌, not, ◌≡◌, ◌≢◌, arith, Bytes, none, length, ltb, ◌==◌, err, find, put,
  remove, nat_eq, inl, inr, Bool-cases, Option-cases, Result-cases,
}
use ztgotroller.Netip.{AddrPort, Time}
use ztgotroller.Packet.Header.{
  Fragment, max_packet_length, is_fragment, parse_fragment, parse_routing,
}
use ztgotroller.Transport.Reassembly.{
  assemble, Error, too_long, byte_budget_exceeded, total_changed, capacity_exhausted, PartialPacket,
  Reassembler, ReassemblyKey, reassembly_keys, Pushed, failed, Assembly, assembled,
  fragment_missing, overflow, conclude, complete, expire, slot, add_fragment, add_first, with_slot,
  key_of, push_live, push, is_misnumbered,
}
use ztgotroller.Transport.Reassembly.Budget.{IsWithin, assemble-IsWithin, payload_bytes-put}
use ztgotroller.Transport.Reassembly.Slots.{
  IsPartial, IsReassembler, Slotted, IsReassembler-remove, IsReassembler-put, slot-Slotted,
  expire-IsReassembler,
}

-- The state stays well formed, and the push does not fail for a packet that is too long.
abbrev pub IsSound : Reassembler × Pushed → Type 0
IsSound x = IsReassembler x.0 × (x.1 ≢ failed too_long)

conclude-IsSound :
    (r : Reassembler) (key : ReassemblyKey) (o : Assembly)
    → IsReassembler r
    → IsWithin o
    → IsSound (conclude r key o)
unfolding conclude
conclude-IsSound r key (assembled packet) h w = (IsReassembler-remove key r h, λ e. cc)
conclude-IsSound r key fragment_missing h w = (h, λ e. cc)
conclude-IsSound r key overflow h w = absurd w

complete-IsSound :
    (r : Reassembler) (key : ReassemblyKey) (p : PartialPacket)
    → IsReassembler r
    → IsPartial p
    → IsSound (complete r key p)
unfolding complete
complete-IsSound r key p h good =
    let within =
      assemble-IsWithin (p.total - 1) 1 p.fragments p.first
        (omega (arith, good.counted, good.budget)) in
    let done : IsSound (conclude r key (assemble p.fragments (p.total - 1) 1 p.first)) =
      conclude-IsSound r key _ h within in
    elim (Bool-cases
      (length p.first == 0 || p.total == 0 || not (length p.fragments + 1 == p.total))) [
        | inl waiting ↦ rw waiting (h, λ e. cc)
        | inr ready ↦ rw ready done
      ]

-- A fragment's payload joins the packet.
stored-IsPartial :
    (p : PartialPacket) (f : Fragment)
    → IsPartial p
    → find f.number p.fragments ≡ none
    → p.bytes + length f.payload ≤ max_packet_length
    → IsPartial (record p {
      total = f.total_fragments;
      bytes = p.bytes + length f.payload;
      fragments = put f.number f.payload p.fragments;
    })
stored-IsPartial p f good new small = record {
  counted = omega (arith, payload_bytes-put f.number f.payload p.fragments new, good.counted);
  budget = small;
}

module _ (key : ReassemblyKey) (p : PartialPacket) (r : Reassembler) (s : Slotted key (p, r)) where
  -- What is put back into the slot, once it is well formed.
  complete_stored : (q : PartialPacket) → IsPartial q → IsSound (complete (put key q r) key q)
  complete_stored q good =
      complete-IsSound (put key q r) key q (IsReassembler-put key q r s.reassembler s.held good)
        good

  dropped : (e : Error) → e ≢ too_long → IsSound (remove key r, failed e)
  dropped e other = (IsReassembler-remove key r s.reassembler, λ x. other (cc))

  add_fragment-IsSound : (f : Fragment) → IsSound (add_fragment key f p r)
  unfolding add_fragment
  add_fragment-IsSound f =
      elim (Bool-cases (not (p.total == 0) && not (p.total == f.total_fragments))) [
        | inl changed ↦ rw changed (dropped total_changed (λ e. cc))
        | inr agrees ↦ elim (Option-cases (find f.number p.fragments)) [
          | inr (q, known) ↦
              rw (agrees, known)
                (complete_stored (record p { total = f.total_fragments })
                  (record { counted = s.partial.counted; budget = s.partial.budget }))
          | inl new ↦ elim (Bool-cases (ltb max_packet_length (p.bytes + length f.payload))) [
            | inl large ↦ rw (agrees, new, large) (dropped byte_budget_exceeded (λ e. cc))
            | inr small ↦
                rw (agrees, new, small)
                  (complete_stored _ (stored-IsPartial p f s.partial new (ground arith)))
          ]
        ]
      ]

  add_first-IsSound : (d : Bytes) → IsSound (add_first key d p r)
  unfolding add_first
  add_first-IsSound d = elim (Bool-cases (length p.first == 0)) [
    | inr old ↦ rw old (complete-IsSound r key p s.reassembler s.partial)
    | inl new ↦ elim (Bool-cases (ltb max_packet_length (p.bytes + length d))) [
      | inl large ↦ rw (new, large) (dropped byte_budget_exceeded (λ e. cc))
      | inr small ↦
          rw (new, small)
            (complete_stored _
              (record { counted = ground (arith, s.partial.counted); budget = ground arith }))
    ]
  ]

slot_error :
    (r : Reassembler) (key : ReassemblyKey) (now : Time) {e : Error}
    → slot r key now ≡ err e
    → e ≡ capacity_exhausted
unfolding slot
slot_error r key now h = ground arith

with_slot-IsSound :
    (r : Reassembler) (key : ReassemblyKey) (now : Time)
    (body : PartialPacket → Reassembler → Reassembler × Pushed)
    → IsReassembler r
    → ((p : PartialPacket) (r' : Reassembler) → Slotted key (p, r') → IsSound (body p r'))
    → IsSound (with_slot r (slot r key now) body)
with_slot-IsSound r key now body h good = elim (Result-cases (slot r key now)) [
  | inl (s, ok_slot) ↦ rw ok_slot (good s.0 s.1 (slot-Slotted r key now h ok_slot))
  | inr (e, bad) ↦
      let full : e ≡ capacity_exhausted = slot_error r key now bad in rw bad (h, λ x. cc (full, x))
]

push_live-IsSound :
    (r : Reassembler) (d : Bytes) (endpoint : AddrPort) (now : Time)
    → IsReassembler r
    → IsSound (push_live r d endpoint now)
unfolding push_live
push_live-IsSound r d endpoint now h = elim (Bool-cases (is_fragment d)) [
  | inl fragment ↦ elim (Result-cases (parse_fragment d)) [
    | inr (e, bad) ↦ rw (fragment, bad) (h, λ x. cc)
    | inl (f, parsed) ↦ elim (Bool-cases (is_misnumbered f)) [
      | inl wrong ↦ rw (fragment, parsed, wrong) (h, λ x. cc)
      | inr right ↦
          let key = key_of endpoint f.packet_id in
          rw (fragment, parsed, right)
            (with_slot-IsSound r key now (add_fragment key f) h
              (λ p r' s. add_fragment-IsSound key p r' s f))
    ]
  ]
  | inr other ↦ elim (Result-cases (parse_routing d)) [
    | inr (e, bad) ↦ rw (other, bad) (h, λ x. cc)
    | inl (header, parsed) ↦ elim (Bool-cases header.fragmented) [
      | inr single ↦ rw (other, parsed, single) (h, λ x. cc)
      | inl many ↦
          let key = key_of endpoint header.packet_id in
          rw (other, parsed, many)
            (with_slot-IsSound r key now (add_first key d) h
              (λ p r' s. add_first-IsSound key p r' s d))
    ]
  ]
]

-- From a well-formed state `push` goes to a well-formed state: at most 32 packets are being
-- collected, none twice, each counts the bytes that it holds, and none holds more than
-- `MaxPacketLength`. It never fails because a reassembled packet is too long: the byte budget
-- refuses such a packet before it is complete.
pub push-IsSound :
    (r : Reassembler) (datagram : Bytes) (endpoint : AddrPort) (now : Time)
    → IsReassembler r
    → IsReassembler (push r datagram endpoint now).0
      × ((push r datagram endpoint now).1 ≢ failed too_long)
unfolding push
push-IsSound r datagram endpoint now h =
    push_live-IsSound (expire r now) datagram endpoint now (expire-IsReassembler r now h)
