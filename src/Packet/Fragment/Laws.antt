-- ===== src/Packet/Fragment/Laws.antt =====
-- The outcomes of `fragmentArmored`.
use mathlib.Core.List.{append-nil}
use mathlib.Core.Path.{subst}
use ztgotroller.Base.{
  ℕ, ◌+◌, ◌-◌, ◌*◌, ◌≤◌, ◌<◌, ◌≡◌, ◌↔◌, refl, arith, List, [], ◌∷◌, Bytes, length, take, ok, err,
  All, length-take, take-append-drop, le→leb, lt→leb_false, le→ltb, lt→ltb, dec_lt,
}
use ztgotroller.Packet.Fragment.{
  max_packet_fragments, fragment_loop, fragment_count, fragment_armored,
}
use ztgotroller.Packet.Header.{too_many_fragments}
use ztgotroller.Packet.Fragment.Sizes.{
  join, payloads-fragment_loop, fragment_loop_sizes, count_le_iff, count_covers,
}

-- The list that `fragmentArmored` returns for a packet beyond the MTU.
abbrev pub split : Bytes → ℕ → List Bytes
split a mtu =
    let total = fragment_count (length a) mtu in
    take mtu a ∷ fragment_loop a total (mtu - 16) (total - 1) 1 mtu

pub fragment_armored_whole :
    (a : Bytes) (mtu : ℕ) → length a ≤ mtu → fragment_armored a mtu ≡ ok (a ∷ [])
unfolding fragment_armored
fragment_armored_whole a mtu h = rw (le→leb (length a) mtu h)

pub fragment_armored-split :
    (a : Bytes) (mtu : ℕ)
    → mtu < length a
    → fragment_count (length a) mtu ≤ 7
    → fragment_armored a mtu ≡ ok (split a mtu)
unfolding fragment_armored
fragment_armored-split a mtu h k =
    rw (lt→leb_false (length a) mtu h, le→ltb 7 (fragment_count (length a) mtu) k) refl

fragment_armored_many :
    (a : Bytes) (mtu : ℕ)
    → mtu < length a
    → 7 < fragment_count (length a) mtu
    → fragment_armored a mtu ≡ err too_many_fragments
unfolding fragment_armored
fragment_armored_many a mtu h k =
    rw (lt→leb_false (length a) mtu h, lt→ltb 7 (fragment_count (length a) mtu) k) refl

-- The three outcomes of `fragmentArmored`.
data Outcome (a : Bytes) (mtu : ℕ) : Type 0 where
  whole : length a ≤ mtu → Outcome a mtu
  split_up : mtu < length a → fragment_count (length a) mtu ≤ 7 → Outcome a mtu
  refused : mtu < length a → 7 < fragment_count (length a) mtu → Outcome a mtu

outcome : (a : Bytes) (mtu : ℕ) → Outcome a mtu
outcome a mtu = elim (dec_lt mtu (length a)) [
  | no small ↦ whole (omega arith)
  | yes large ↦ elim (dec_lt 7 (fragment_count (length a) mtu)) [
    | yes many ↦ refused large many
    | no few ↦ split_up large (omega arith)
  ]
]

-- A packet beyond the MTU that `fragmentArmored` accepts is split up.
pub split_of_ok :
    (a : Bytes) (mtu : ℕ) {frags : List Bytes}
    → mtu < length a
    → fragment_armored a mtu ≡ ok frags
    → (split a mtu ≡ frags) × (fragment_count (length a) mtu ≤ 7)
split_of_ok a mtu {frags} large e = by_outcome (outcome a mtu)
  where
    by_outcome : Outcome a mtu → (split a mtu ≡ frags) × (fragment_count (length a) mtu ≤ 7)
    by_outcome (whole small) = absurd (omega arith)
    by_outcome (split_up _ few) = (cc (fragment_armored-split a mtu large few), few)
    by_outcome (refused _ many) = absurd (cc (e, fragment_armored_many a mtu large many))

-- With an MTU above 16, `fragmentArmored` succeeds exactly if the packet fits seven datagrams, one of `mtu` bytes and
-- six that lose 16 bytes each to the fragment header.
pub fragment_armored-ok_iff :
    (a : Bytes) (mtu : ℕ)
    → 16 < mtu
    → ((frags : List Bytes) × (fragment_armored a mtu ≡ ok frags))
      ↔ (length a ≤ mtu + 6 * (mtu - 16))
fragment_armored-ok_iff a mtu h = by_outcome (outcome a mtu)
  where
    by_outcome :
        Outcome a mtu
        → ((frags : List Bytes) × (fragment_armored a mtu ≡ ok frags))
          ↔ (length a ≤ mtu + 6 * (mtu - 16))
    by_outcome (whole small) =
        (λ r. omega arith, λ fits. (a ∷ [], fragment_armored_whole a mtu small))
    by_outcome (split_up large few) = (
      λ r. (count_le_iff (length a) mtu h large).0 few,
      λ fits. (split a mtu, fragment_armored-split a mtu large few),
    )
    by_outcome (refused large many) = (
      λ r. absurd (cc (r.1, fragment_armored_many a mtu large many)),
      λ fits. absurd (omega (arith, (count_le_iff (length a) mtu h large).1 fits)),
    )

abbrev pub FitsAndJoins : Bytes → ℕ → List Bytes → Type 0
FitsAndJoins a mtu frags =
    All (λ f. length f ≤ mtu) frags × (length frags ≤ max_packet_fragments) × (join frags ≡ a)

split-FitsAndJoins :
    (a : Bytes) (mtu : ℕ)
    → 16 < mtu
    → 13 ≤ length a
    → mtu < length a
    → fragment_count (length a) mtu ≤ 7
    → FitsAndJoins a mtu (split a mtu)
split-FitsAndJoins a mtu h k large few =
    let total = fragment_count (length a) mtu in
    let (sizes, count) = fragment_loop_sizes a total (mtu - 16) (total - 1) 1 mtu k in
    let room : mtu - 16 + 16 ≡ mtu = omega arith in
    let covers = count_covers (length a) mtu h large in
    (
      (omega (arith, length-take mtu a), rw room at sizes),
      omega (arith, count),
      rw (payloads-fragment_loop a total (mtu - 16) (total - 1) 1 mtu k covers)
          (take-append-drop mtu a),
    )

-- If `fragmentArmored` succeeds on a packet of 13 bytes or more, with an MTU above 16, each datagram
-- fits the MTU, there are at most seven, and the first one with the payloads of the others behind it
-- is the packet.
pub fragment_armored-join :
    (a : Bytes) (mtu : ℕ) {frags : List Bytes}
    → 16 < mtu
    → 13 ≤ length a
    → fragment_armored a mtu ≡ ok frags
    → All (λ f. length f ≤ mtu) frags × (length frags ≤ max_packet_fragments) × (join frags ≡ a)
fragment_armored-join a mtu {frags} h k e = by_outcome (outcome a mtu)
  where
    by_outcome : Outcome a mtu → FitsAndJoins a mtu frags
    by_outcome (whole small) =
        let is : a ∷ [] ≡ frags = cc (fragment_armored_whole a mtu small) in
        subst (FitsAndJoins a mtu) is ((small, tt), omega arith, append-nil a)
    by_outcome (split_up large few) =
        let is : split a mtu ≡ frags = cc (fragment_armored-split a mtu large few) in
        subst (FitsAndJoins a mtu) is (split-FitsAndJoins a mtu h k large few)
    by_outcome (refused large many) = absurd (cc (e, fragment_armored_many a mtu large many))
