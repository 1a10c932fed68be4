-- ===== src/Packet/Fragment/Sizes.antt =====
-- The loop of `fragmentArmored` and its counts: payloads, sizes and the number of fragments.

use native.Mathlib.Nat.{lt-div-mul-add, mul-le-mul_right, div-lt_iff_lt-mul}
use ztgotroller.Base.{
  ℕ, zero, suc, ◌+◌, ◌-◌, ◌*◌, ◌/◌, ◌≤◌, ◌<◌, ◌≡◌, ◌↔◌, refl, sym, arith, List, [], ◌∷◌, ◌++◌,
  Bytes, length, drop, All, length-take, take-append-drop, drop-drop,
}
use ztgotroller.Packet.Fragment.{fragment_size, fragment_loop, fragment_count}
use ztgotroller.Packet.Header.{slice}
use ztgotroller.Packet.Fragment.Datagram.{length-datagram, drop-datagram}

-- The payloads, one behind the other.
abbrev pub payloads : List Bytes → Bytes
payloads [] = []
payloads (f ∷ fs) = drop 16 f ++ payloads fs

abbrev pub join : List Bytes → Bytes
join [] = []
join (f ∷ fs) = f ++ payloads fs

fragment_size_bounds :
    (a : Bytes) (room offset : ℕ)
    → (fragment_size a room offset ≤ room) × (fragment_size a room offset ≤ length a - offset)
unfolding fragment_size
fragment_size_bounds a room offset = ground arith

slice-append-drop :
    (a : Bytes) (offset size : ℕ)
    → slice offset (offset + size) a ++ drop (offset + size) a ≡ drop offset a
slice-append-drop a offset size =
    let e : offset + size - offset ≡ size = omega arith in
    rw (e, ← drop-drop offset size a) (take-append-drop size (drop offset a))

drop_all : (n : ℕ) (a : Bytes) → length a ≤ n → drop n a ≡ []
drop_all zero [] h = refl
drop_all zero (x ∷ a) h = absurd (omega arith)
drop_all (suc n) [] h = refl
drop_all (suc n) (x ∷ a) h = drop_all n a (omega arith)

pub payloads-fragment_loop :
    (a : Bytes) (t room rounds n offset : ℕ)
    → 13 ≤ length a
    → length a ≤ offset + rounds * room
    → payloads (fragment_loop a t room rounds n offset) ≡ drop offset a
unfolding fragment_loop
payloads-fragment_loop a t room zero n offset h k = sym (drop_all offset a (omega arith))
payloads-fragment_loop a t room (suc rounds) n offset h k =
    let size = fragment_size a room offset in
    rw
      (
        drop-datagram a t n (slice offset (offset + size) a) h,
        payloads-fragment_loop a t room rounds (n + 1) (offset + size) h
            (room_left a room rounds offset k),
      )
      (slice-append-drop a offset size)
  where
    room_left :
        (a : Bytes) (room rounds offset : ℕ)
        → length a ≤ offset + suc rounds * room
        → length a ≤ offset + fragment_size a room offset + rounds * room
    room_left a room rounds offset k = unfold fragment_size in ground arith

pub fragment_loop_sizes :
    (a : Bytes) (t room rounds n offset : ℕ)
    → 13 ≤ length a
    → All (λ f. length f ≤ room + 16) (fragment_loop a t room rounds n offset)
      × (length (fragment_loop a t room rounds n offset) ≡ rounds)
unfolding fragment_loop
fragment_loop_sizes a t room zero n offset h = (tt, refl)
fragment_loop_sizes a t room (suc rounds) n offset h =
    let size = fragment_size a room offset in
    let payload = slice offset (offset + size) a in
    let (sizes, count) = fragment_loop_sizes a t room rounds (n + 1) (offset + size) h in
    (
      (
        omega (
          arith,
          length-datagram a t n payload h,
          length-take (offset + size - offset) (drop offset a),
          fragment_size_bounds a room offset,
        ),
        sizes,
      ),
      omega (arith, count),
    )

ceil_covers : (rem room : ℕ) → 0 < room → rem ≤ (rem + room - 1) / room * room
ceil_covers rem room h = omega (arith, lt-div-mul-add {a = rem + room - 1} h)

ceil_le_iff : (rem room k : ℕ) → 0 < room → ((rem + room - 1) / room ≤ k) ↔ (rem ≤ k * room)
ceil_le_iff rem room k h = (
  λ c. omega (arith, ceil_covers rem room h, mul-le-mul_right room c),
  λ c. omega (arith, (div-lt_iff_lt-mul {x = rem + room - 1} {y = k + 1} h).1 (omega arith)),
)

pub count_le_iff :
    (size mtu : ℕ)
    → 16 < mtu
    → mtu < size
    → (fragment_count size mtu ≤ 7) ↔ (size ≤ mtu + 6 * (mtu - 16))
unfolding fragment_count
count_le_iff size mtu h k =
    let c = ceil_le_iff (size - mtu) (mtu - 16) 6 (omega arith) in
    (λ few. omega (arith, c.0 (omega arith)), λ small. omega (arith, c.1 (omega arith)))

pub count_covers :
    (size mtu : ℕ) → 16 < mtu → mtu < size → size ≤ mtu + (fragment_count size mtu - 1) * (mtu - 16)
unfolding fragment_count
count_covers size mtu h k =
    let q = (size - mtu + (mtu - 16) - 1) / (mtu - 16) in
    let e : 1 + q - 1 ≡ q = omega arith in
    rw e (omega (arith, ceil_covers (size - mtu) (mtu - 16) (omega arith)))
