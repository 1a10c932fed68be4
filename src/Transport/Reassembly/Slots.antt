-- ===== src/Transport/Reassembly/Slots.antt =====
-- The accounting of the reassembler: slots, bytes and fragment numbers, in `expire` and `slot`.
use mathlib.Core.Path.{subst}
use ztgotroller.Base.{
  ◌+◌, ◌≤◌, ◌<◌, ◌≡◌, refl, arith, [], none, some, length, ok, err, find, put, remove, nat_eq, inl,
  inr, Option-cases, AllValues, IsDistinct, find-put_self, dec_lt, length-put, length-remove,
  length-keep, IsDistinct-put, IsDistinct-remove, IsDistinct-keep, AllValues-put, AllValues-find,
  AllValues-remove, AllValues-keep,
}
use ztgotroller.Netip.{Time}
use ztgotroller.Packet.Header.{max_packet_length}
use ztgotroller.Transport.Reassembly.{
  capacity_exhausted, PartialPacket, Reassembler, ReassemblyKey, reassembly_keys,
  max_reassembly_slots, expire, slot,
}
use ztgotroller.Transport.Reassembly.Budget.{payload_bytes}

-- What holds of each packet that is being collected.
pub record IsPartial (p : PartialPacket) : Type 0 where
  pub counted : p.bytes ≡ length p.first + payload_bytes p.fragments
  pub budget : p.bytes ≤ max_packet_length

pub record IsReassembler (r : Reassembler) : Type 0 where
  pub partials : AllValues IsPartial r
  pub distinct : IsDistinct r
  pub slots : length r ≤ max_reassembly_slots

pub IsReassembler-remove :
    (k : ReassemblyKey) (r : Reassembler) → IsReassembler r → IsReassembler (remove k r)
IsReassembler-remove k r h = record {
  partials = AllValues-remove IsPartial k r h.partials;
  distinct = IsDistinct-remove k r h.distinct;
  slots = omega (arith, length-remove k r, h.slots);
}

-- A packet put back into its own slot takes no new one.
pub IsReassembler-put :
    (k : ReassemblyKey) (p : PartialPacket) (r : Reassembler) {q : PartialPacket}
    → IsReassembler r
    → find k r ≡ some q
    → IsPartial p
    → IsReassembler (put k p r)
IsReassembler-put k p r h present good = record {
  partials = AllValues-put IsPartial k p r h.partials good;
  distinct = IsDistinct-put k p r h.distinct;
  slots = rw (length-put k p r, present) h.slots;
}

pub expire-IsReassembler :
    (r : Reassembler) (now : Time) → IsReassembler r → IsReassembler (expire r now)
unfolding expire
expire-IsReassembler r now h = record {
  partials = AllValues-keep IsPartial _ r h.partials;
  distinct = IsDistinct-keep _ r h.distinct;
  slots = omega (arith, length-keep _ r, h.slots);
}

-- A slot that was found or made.
pub record Slotted (key : ReassemblyKey) (s : PartialPacket × Reassembler) : Type 0 where
  pub reassembler : IsReassembler s.1
  pub partial : IsPartial s.0
  pub held : find key s.1 ≡ some s.0

abbrev pub fresh_packet : Time → PartialPacket
fresh_packet now = record { created = now; first = []; total = 0; bytes = 0; fragments = [] }

pub slot_held :
    (r : Reassembler) (key : ReassemblyKey) (now : Time) {p : PartialPacket}
    → find key r ≡ some p
    → slot r key now ≡ ok (p, r)
unfolding slot
slot_held r key now h = ground arith

pub slot_fresh :
    (r : Reassembler) (key : ReassemblyKey) (now : Time)
    → find key r ≡ none
    → length r < max_reassembly_slots
    → slot r key now ≡ ok (fresh_packet now, put key (fresh_packet now) r)
unfolding slot
slot_fresh r key now h k = ground arith

slot_full :
    (r : Reassembler) (key : ReassemblyKey) (now : Time)
    → find key r ≡ none
    → max_reassembly_slots ≤ length r
    → slot r key now ≡ err capacity_exhausted
unfolding slot
slot_full r key now h k = ground arith

fresh-Slotted :
    (r : Reassembler) (key : ReassemblyKey) (now : Time)
    → IsReassembler r
    → find key r ≡ none
    → length r < max_reassembly_slots
    → Slotted key (fresh_packet now, put key (fresh_packet now) r)
fresh-Slotted r key now h absent room =
    let good : IsPartial (fresh_packet now) = record { counted = refl; budget = omega arith } in
    record {
      reassembler = record {
        partials = AllValues-put IsPartial key (fresh_packet now) r h.partials good;
        distinct = IsDistinct-put key (fresh_packet now) r h.distinct;
        slots = rw (length-put key (fresh_packet now) r, absent) room;
      };
      partial = good;
      held = find-put_self key (fresh_packet now) r;
    }

pub slot-Slotted :
    (r : Reassembler) (key : ReassemblyKey) (now : Time) {s : PartialPacket × Reassembler}
    → IsReassembler r
    → slot r key now ≡ ok s
    → Slotted key s
slot-Slotted r key now {s} h e = elim (Option-cases (find key r)) [
  | inr (p, present) ↦
      let is : (p, r) ≡ s = cc (slot_held r key now present) in
      subst (Slotted key) is (record {
        reassembler = h;
        partial = AllValues-find IsPartial key r h.partials present;
        held = present;
      })
  | inl absent ↦ elim (dec_lt (length r) max_reassembly_slots) [
    | yes room ↦
        let is : (fresh_packet now, put key (fresh_packet now) r) ≡ s =
          cc (slot_fresh r key now absent room) in
        subst (Slotted key) is (fresh-Slotted r key now h absent room)
    | no full ↦ absurd (cc (e, slot_full r key now absent (omega arith)))
  ]
]
