-- ===== src/Transport/Reassembly.antt =====
-- `reassembly.go`: datagrams of one packet are collected until the packet is complete. A push
-- returns the new state beside Go's three results; the `*partialPacket` that Go changes through a
-- pointer is put back into the map after each change.
pub mod Budget
pub mod Slots
pub mod Invariant
pub mod Pieces
pub mod Collect
pub mod AnyOrder
pub mod Fragments
pub mod Delivery
use ztgotroller.Base.{
  ℕ, zero, suc, ◌+◌, ◌-◌, ◌*◌, Bool, true, false, ◌&&◌, ◌||◌, not, ◌↔◌, ◌≡◌, refl, arith, List, [],
  ◌∷◌, ◌++◌, Bytes, Option, none, some, length, ltb, leb, ◌==◌, ==_iff, if◌then◌else◌, Result, ok,
  err, Eq, find, put, remove, keep, nat_eq,
}
use ztgotroller.Netip.{AddrPort, addr_port_eq, addr_port_eq_iff, Time, second, has_elapsed}
use ztgotroller.Packet.Fragment.{max_packet_fragments}
use ztgotroller.Packet.Header.{
  Fragment, RoutingHeader, is_fragment, parse_fragment, parse_routing, max_packet_length,
}
use ztgotroller.Packet.Header

pub data Error : Type 0 where
  packet_error : Header.Error → Error
  invalid_numbering total_changed byte_budget_exceeded capacity_exhausted too_long : Error

abbrev pub reassembly_ttl : ℕ
reassembly_ttl = 5 * second

abbrev pub max_reassembly_slots : ℕ
max_reassembly_slots = 32

pub record ReassemblyKey : Type 0 where
  pub endpoint : AddrPort
  pub packet_id : ℕ

unfoldable pub key_eq : ReassemblyKey → ReassemblyKey → Bool
key_eq a b = addr_port_eq a.endpoint b.endpoint && a.packet_id == b.packet_id

pub key_eq_iff : (a b : ReassemblyKey) → (key_eq a b ≡ true) ↔ (a ≡ b)
unfolding key_eq
key_eq_iff a b = ground (arith, addr_port_eq_iff a.endpoint b.endpoint)

instance abbrev pub reassembly_keys : Eq ReassemblyKey
reassembly_keys = record { same = key_eq; same_iff = key_eq_iff }

pub record PartialPacket : Type 0 where
  pub created : Time
  pub first : Bytes
  pub total : ℕ
  pub bytes : ℕ
  pub fragments : List (ℕ × Bytes)

abbrev pub Reassembler : Type 0
Reassembler = List (ReassemblyKey × PartialPacket)

abbrev pub new_reassembler : Reassembler
new_reassembler = []

-- Go's results: a packet with `true`, nothing with `false`, or an error.
pub data Pushed : Type 0 where
  complete_packet : Bytes → Pushed
  incomplete : Pushed
  failed : Error → Pushed

unfoldable pub expire : Reassembler → Time → Reassembler
expire r now = keep (λ _ p. not (has_elapsed now p.created reassembly_ttl)) r

unfoldable pub slot :
    Reassembler → ReassemblyKey → Time → Result Error (PartialPacket × Reassembler)
slot r key now = elim (find key r) [
  | some p ↦ ok (p, r)
  | none ↦
      let fresh : PartialPacket = record {
        created = now;
        first = [];
        total = 0;
        bytes = 0;
        fragments = [];
      } in
      if leb max_reassembly_slots (length r)
      then err capacity_exhausted
      else ok (fresh, put key fresh r)
]

pub data Assembly : Type 0 where
  assembled : Bytes → Assembly
  fragment_missing overflow : Assembly

-- The loop of `complete`, with the rounds that are left: `number` runs up to the total.
unfoldable pub assemble : List (ℕ × Bytes) → ℕ → ℕ → Bytes → Assembly
assemble fragments zero number out = assembled out
assemble fragments (suc rounds) number out = elim (find number fragments) [
  | none ↦ fragment_missing
  | some payload ↦
      let rest = assemble fragments rounds (number + 1) (out ++ payload) in
      if ltb max_packet_length (length out + length payload) then overflow else rest
]

-- What `complete` does with the result of its loop.
unfoldable pub conclude : Reassembler → ReassemblyKey → Assembly → Reassembler × Pushed
conclude r key (assembled packet) = (remove key r, complete_packet packet)
conclude r key fragment_missing = (r, incomplete)
conclude r key overflow = (remove key r, failed too_long)

unfoldable pub complete : Reassembler → ReassemblyKey → PartialPacket → Reassembler × Pushed
complete r key p =
    if length p.first == 0 || p.total == 0 || not (length p.fragments + 1 == p.total)
    then (r, incomplete)
    else conclude r key (assemble p.fragments (p.total - 1) 1 p.first)

-- The branch of `push` for a fragment, from the slot on.
unfoldable pub add_fragment :
    ReassemblyKey → Fragment → PartialPacket → Reassembler → Reassembler × Pushed
add_fragment key f p r =
    let counted = record p { total = f.total_fragments } in
    let stored = record p {
      total = f.total_fragments;
      bytes = p.bytes + length f.payload;
      fragments = put f.number f.payload p.fragments;
    } in
    if not (p.total == 0) && not (p.total == f.total_fragments)
    then (remove key r, failed total_changed)
    else elim (find f.number p.fragments) [
      | some _ ↦ complete (put key counted r) key counted
      | none ↦
          if ltb max_packet_length (p.bytes + length f.payload)
          then (remove key r, failed byte_budget_exceeded)
          else complete (put key stored r) key stored
    ]

-- The branch for the first datagram of a fragmented packet, from the slot on.
unfoldable pub add_first :
    ReassemblyKey → Bytes → PartialPacket → Reassembler → Reassembler × Pushed
add_first key datagram p r =
    let stored = record p { first = datagram; bytes = p.bytes + length datagram } in
    if length p.first == 0
    then if ltb max_packet_length (p.bytes + length datagram)
      then (remove key r, failed byte_budget_exceeded)
      else complete (put key stored r) key stored
    else complete r key p

-- `if err != nil` behind a call of `slot` on the state `r`.
abbrev pub with_slot :
    Reassembler
    → Result Error (PartialPacket × Reassembler)
    → (PartialPacket → Reassembler → Reassembler × Pushed)
    → Reassembler × Pushed
with_slot r (err e) body = (r, failed e)
with_slot r (ok (p, r')) body = body p r'

abbrev pub key_of : AddrPort → ℕ → ReassemblyKey
key_of endpoint packet_id = record { endpoint = endpoint; packet_id = packet_id }

unfoldable pub is_misnumbered : Fragment → Bool
is_misnumbered f =
    f.number == 0
    || ltb f.total_fragments 2
    || ltb max_packet_fragments f.total_fragments
    || leb f.total_fragments f.number

-- `push` on a state that has been cleared of expired packets.
unfoldable pub push_live : Reassembler → Bytes → AddrPort → Time → Reassembler × Pushed
push_live r datagram endpoint now =
    if is_fragment datagram
    then elim (parse_fragment datagram) [
      | err e ↦ (r, failed (packet_error e))
      | ok f ↦
          if is_misnumbered f
          then (r, failed invalid_numbering)
          else with_slot r (slot r (key_of endpoint f.packet_id) now)
              (add_fragment (key_of endpoint f.packet_id) f)
    ]
    else elim (parse_routing datagram) [
      | err e ↦ (r, failed (packet_error e))
      | ok h ↦
          if not h.fragmented
          then (r, complete_packet datagram)
          else with_slot r (slot r (key_of endpoint h.packet_id) now)
              (add_first (key_of endpoint h.packet_id) datagram)
    ]

unfoldable pub push : Reassembler → Bytes → AddrPort → Time → Reassembler × Pushed
push r datagram endpoint now = push_live (expire r now) datagram endpoint now
