-- ===== src/Packet/Header/Laws.antt =====
-- Reading back the headers that the package writes.
use mathlib.Core.List.{append_assoc}
use ztgotroller.Base.{
  ℕ, ◌+◌, ◌^◌, ◌≤◌, ◌<◌, ◌≡◌, refl, sym, ap, ◌∙◌, arith, false, true, ◌∷◌, ◌++◌, Bytes, length,
  take, drop, replicate, ◌==◌, ok, length-append, take-append_length, drop-append_length,
  get_or-append, put_be, get_be-put_be, length-put_be, bit_and, bit_and-ones, drop-drop,
  Result-cases, inl, inr, holds_below, holds_below_sound, ==_iff,
}
use ztgotroller.Domain.Ids.{NodeId, id_bytes, parse_node_id, validate_hex_id}
use ztgotroller.Packet.Header.{
  RoutingHeader, byte_at, slice, max_packet_length, parse_routing, parse_decoded, build,
}
use ztgotroller.Domain.Ids.Text.{valid-IsIdText}

-- The layout that `Build` writes.
abbrev layout : ℕ → NodeId → NodeId → ℕ → Bytes → Bytes
layout pid destination source verb payload =
    (put_be 8 pid ++ (id_bytes destination ++ (id_bytes source ++ replicate 9 0)))
    ++ (verb ∷ payload)

-- A packet whose parts stand one behind the other.
record Parts (bytes a d s z : Bytes) (v : ℕ) (p : Bytes) : Type 0 where
  whole : bytes ≡ (a ++ (d ++ (s ++ z))) ++ (v ∷ p)
  size_a : length a ≡ 8
  size_d : length d ≡ 5
  size_s : length s ≡ 5
  size_z : length z ≡ 9

module _ {bytes a d s z p : Bytes} {v : ℕ} (h : Parts bytes a d s z v p) where
  whole_from_a : bytes ≡ a ++ (d ++ (s ++ (z ++ (v ∷ p))))
  whole_from_a = h.whole ∙ simp append_assoc

  take-packet_id : take 8 bytes ≡ a
  take-packet_id = rw whole_from_a (take-append_length a _ 8 h.size_a)

  drop-packet_id : drop 8 bytes ≡ d ++ (s ++ (z ++ (v ∷ p)))
  drop-packet_id = rw whole_from_a (drop-append_length a _ 8 h.size_a)

  slice-destination : slice 8 13 bytes ≡ d
  slice-destination = rw drop-packet_id (take-append_length d _ 5 h.size_d)

  drop-destination : drop 13 bytes ≡ s ++ (z ++ (v ∷ p))
  drop-destination =
      sym (drop-drop 8 5 bytes) ∙ rw drop-packet_id (drop-append_length d _ 5 h.size_d)

  slice-source : slice 13 18 bytes ≡ s
  slice-source = rw drop-destination (take-append_length s _ 5 h.size_s)

  length-front : length (a ++ (d ++ (s ++ z))) ≡ 27
  length-front = omega (
    arith,
    length-append a (d ++ (s ++ z)),
    length-append d (s ++ z),
    length-append s z,
    h.size_a,
    h.size_d,
    h.size_s,
    h.size_z,
  )

  length-bytes : length bytes ≡ 28 + length p
  length-bytes =
      rw h.whole (omega (arith, length-append (a ++ (d ++ (s ++ z))) (v ∷ p), length-front))

  verb_byte : byte_at bytes 27 ≡ v
  verb_byte = rw h.whole (get_or-append (a ++ (d ++ (s ++ z))) (v ∷ p) 27 0 0 length-front)

  drop-header : drop 28 bytes ≡ p
  drop-header =
      sym (drop-drop 27 1 bytes)
      ∙ rw (h.whole, drop-append_length (a ++ (d ++ (s ++ z))) (v ∷ p) 27 length-front) refl

  flags_byte : byte_at bytes 18 ≡ byte_at (z ++ (v ∷ p)) 0
  flags_byte =
      let front : bytes ≡ (a ++ (d ++ s)) ++ (z ++ (v ∷ p)) = whole_from_a ∙ simp append_assoc in
      let size : length (a ++ (d ++ s)) ≡ 18 =
        omega (arith, length-append a (d ++ s), length-append d s, h.size_a, h.size_d, h.size_s) in
      rw front (get_or-append (a ++ (d ++ s)) (z ++ (v ∷ p)) 18 0 0 size)

zero_tag :
    {bytes a d s p : Bytes} {v : ℕ}
    → Parts bytes a d s (replicate 9 0) v p
    → slice 19 27 bytes ≡ replicate 8 0
zero_tag {bytes} {a} {d} {s} {p} {v} h =
    let front : bytes ≡ (a ++ (d ++ s)) ++ (replicate 9 0 ++ (v ∷ p)) =
      whole_from_a h ∙ simp append_assoc in
    let size : length (a ++ (d ++ s)) ≡ 18 =
      omega (arith, length-append a (d ++ s), length-append d s, h.size_a, h.size_d, h.size_s) in
    let rest : drop 19 bytes ≡ replicate 8 0 ++ (v ∷ p) =
      sym (drop-drop 18 1 bytes)
      ∙ rw (front, drop-append_length (a ++ (d ++ s)) (replicate 9 0 ++ (v ∷ p)) 18 size) refl in
    ap (take 8) rest

-- What a successful `Build` has checked, and the layout of its result.
record Built (pid : ℕ) (dst src : NodeId) (verb : ℕ) (payload bytes : Bytes) : Type 0 where
  destination : validate_hex_id dst 10 ≡ ok tt
  source : validate_hex_id src 10 ≡ ok tt
  verb_fits : verb ≤ 0x1f
  size_fits : 28 + length payload ≤ max_packet_length
  layout :
      bytes
      ≡ (put_be 8 pid ++ (id_bytes dst ++ (id_bytes src ++ replicate 9 0))) ++ (verb ∷ payload)

build-Built :
    (pid : ℕ) (dst src : NodeId) (verb : ℕ) (payload : Bytes) {bytes : Bytes}
    → build pid dst src verb payload ≡ ok bytes
    → Built pid dst src verb payload bytes
unfolding build
build-Built pid dst src verb payload {bytes} h = elim (Result-cases (validate_hex_id dst 10)) [
  | inr (e, bad) ↦ absurd (ground arith)
  | inl (u, valid) ↦ elim (Result-cases (validate_hex_id src 10)) [
    | inr (e, bad) ↦ absurd (ground arith)
    | inl (u', valid') ↦ record {
      destination = valid;
      source = valid';
      verb_fits = ground arith;
      size_fits = ground arith;
      layout = ground arith;
    }
  ]
]

parse_node_id-valid : (id : NodeId) → validate_hex_id id 10 ≡ ok tt → parse_node_id id ≡ ok id
unfolding parse_node_id
parse_node_id-valid id h = ground arith

verb_uncompressed : holds_below 32 (λ v. bit_and v 0x80 == 0) ≡ true
unfolding holds_below
verb_uncompressed = refl

Built-Parts :
    (pid : ℕ) (dst src : NodeId) (verb : ℕ) (payload bytes : Bytes)
    → Built pid dst src verb payload bytes
    → Parts bytes (put_be 8 pid) (id_bytes dst) (id_bytes src) (replicate 9 0) verb payload
Built-Parts pid dst src verb payload bytes b = record {
  whole = b.layout;
  size_a = length-put_be 8 pid;
  size_d = (valid-IsIdText 5 dst b.destination).size;
  size_s = (valid-IsIdText 5 src b.source).size;
  size_z = refl;
}

abbrev plain_header : ℕ → NodeId → NodeId → RoutingHeader
plain_header pid dst src = record {
  packet_id = pid;
  destination = dst;
  source = src;
  flags = 0;
  hops = 0;
  cipher = 0;
  fragmented = false;
  extended_armor = false;
}

parse_routing-Built :
    (pid : ℕ) (dst src : NodeId) (verb : ℕ) (payload bytes : Bytes)
    → pid < 2 ^ 64
    → Built pid dst src verb payload bytes
    → parse_routing bytes ≡ ok (plain_header pid dst src)
unfolding parse_routing
parse_routing-Built pid dst src verb payload bytes small b =
    let p = Built-Parts pid dst src verb payload bytes b in
    ground (
      arith,
      length-bytes p,
      slice-destination p,
      slice-source p,
      take-packet_id p,
      flags_byte p,
      (valid-IsIdText 5 dst b.destination).encoded,
      (valid-IsIdText 5 src b.source).encoded,
      parse_node_id-valid dst b.destination,
      parse_node_id-valid src b.source,
      get_be-put_be 8 pid,
    )

-- A packet that `Build` makes without an error, from a packet identifier below 2 ^ 64, is at most `MaxPacketLength` bytes long, and
-- `ParseDecoded` reads the same identifiers, verb and payload from it, with no flag set.
pub parse_decoded-build :
    (pid : ℕ) (dst src : NodeId) (verb : ℕ) (payload : Bytes) {bytes : Bytes}
    → pid < 2 ^ 64
    → build pid dst src verb payload ≡ ok bytes
    → (length bytes ≤ max_packet_length)
      × (parse_decoded bytes
          ≡ ok (record {
            routing = plain_header pid dst src;
            authenticator = replicate 8 0;
            verb = verb;
            compressed = false;
            payload = payload;
          }))
unfolding parse_decoded
parse_decoded-build pid dst src verb payload {bytes} small h =
    let b = build-Built pid dst src verb payload h in
    let p = Built-Parts pid dst src verb payload bytes b in
    let fits = b.verb_fits in
    (
      omega (arith, length-bytes p, b.size_fits),
      ground (
        arith,
        parse_routing-Built pid dst src verb payload bytes small b,
        verb_byte p,
        drop-header p,
        zero_tag p,
        bit_and-ones 5 verb,
        (==_iff (bit_and verb 0x80) 0).0
            (holds_below_sound 32 _ verb verb_uncompressed (omega arith)),
      ),
    )
