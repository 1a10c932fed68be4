-- ===== src/Domain/Ids/Laws.antt =====
-- Which strings the identifier checks accept, and the controller's part of a network identifier.
use native.Mathlib.Nat.{pow-le-pow_right, pow-suc}
use ztgotroller.Base.{
  format_hex, replicate, length-replicate, All-replicate, Bool-cases, ltb, ltb→lt, lt→ltb,
  bit_and-ones, ◌-◌, ℕ, zero, suc, ◌+◌, ◌*◌, ◌/◌, ◌%◌, ◌^◌, ◌≤◌, ◌<◌, ◌≡◌, ◌≢◌, ◌↔◌, refl, ap,
  arith, false, ◌&&◌, [], ◌∷◌, ◌++◌, Bytes, some, length, leb, parse_hex, parse_hex_from, bit_and,
  hex_digit, hex_digit_value, ok, All, IsHexDigit, All-append, length-append, Option-cases, inl,
  inr, parse_hex-IsHexDigit, take-append_length, AreBytes, hex_encode, hex_encode-IsHexDigit,
  length-hex_encode,
}
use ztgotroller.Domain.Ids.{
  NodeId, has_uppercase, validate_hex_id, parse_node_id, parse_network_id, padded_hex,
  new_network_id, controller_id,
}

pub has_uppercase-IsHexDigit : (cs : Bytes) → All IsHexDigit cs → has_uppercase cs ≡ false
unfolding has_uppercase
has_uppercase-IsHexDigit [] h = refl
has_uppercase-IsHexDigit (c ∷ cs) ((n, small, is), h) =
    ground (arith, has_uppercase-IsHexDigit cs h, lowercase_digit n)
  where
    lowercase_digit : (n : ℕ) → n < 16 → (leb b'A' (hex_digit n) && leb (hex_digit n) b'F') ≡ false
    lowercase_digit n k = unfold hex_digit in ground arith

IsHexDigit_of_value :
    (c d : ℕ)
    → hex_digit_value c ≡ some d
    → (leb b'A' c && leb c b'F') ≡ false
    → (d < 16) × (c ≡ hex_digit d)
unfolding hex_digit_value hex_digit
IsHexDigit_of_value c d h k = ground arith

IsHexDigit-of_parse :
    (cs : Bytes) (acc : ℕ) {v : ℕ}
    → parse_hex_from acc cs ≡ some v
    → has_uppercase cs ≡ false
    → All IsHexDigit cs
unfolding parse_hex_from has_uppercase
IsHexDigit-of_parse [] acc h k = tt
IsHexDigit-of_parse (c ∷ cs) acc {v} h k = elim (Option-cases (hex_digit_value c)) [
  | inl bad ↦ absurd (ground arith)
  | inr (d, good) ↦ (
    let (small, is) = IsHexDigit_of_value c d good (ground arith) in (d, small, is),
    IsHexDigit-of_parse cs (acc * 16 + d) {v = v} (ground arith) (ground arith),
  )
]

parse_hex_nonempty : (cs : Bytes) {v : ℕ} → parse_hex cs ≡ some v → parse_hex_from 0 cs ≡ some v
unfolding parse_hex
parse_hex_nonempty [] h = cc
parse_hex_nonempty (c ∷ cs) h = h

pub validate_hex_id-inversion :
    (value : Bytes) (n : ℕ)
    → validate_hex_id value n ≡ ok tt
    → (length value ≡ n) × All IsHexDigit value
unfolding validate_hex_id
validate_hex_id-inversion value n h = elim (Option-cases (parse_hex value)) [
  | inl bad ↦ absurd (ground arith)
  | inr (v, good) ↦ (
    ground arith,
    IsHexDigit-of_parse value 0 {v = v} (parse_hex_nonempty value good) (ground arith),
  )
]

pow_le : (k : ℕ) → k ≤ 16 → 16 ^ k ≤ 2 ^ 64
pow_le k h = pow-le-pow_right (omega arith) h

pub validate_hex_id-IsHexDigit :
    (value : Bytes) (n : ℕ)
    → 0 < n
    → n ≤ 16
    → length value ≡ n
    → All IsHexDigit value
    → validate_hex_id value n ≡ ok tt
unfolding validate_hex_id
validate_hex_id-IsHexDigit value n pos small e d =
    let ne : value ≢ [] = λ nil. absurd (omega (arith, ap length nil)) in
    let fits : 16 ^ length value ≤ 2 ^ 64 = pow_le (length value) (omega arith) in
    let (v, parsed) = parse_hex-IsHexDigit value ne fits d in
    ground (arith, has_uppercase-IsHexDigit value d)

valid_of_parse :
    (value : Bytes) {id : NodeId} → parse_node_id value ≡ ok id → validate_hex_id value 10 ≡ ok tt
unfolding parse_node_id
valid_of_parse value h = ground arith

-- `validateHexID` accepts a string exactly if it has the wanted length, which is from 1 to 16, and
-- each byte is a lower-case hexadecimal digit.
pub validate_hex_id-ok_iff :
    (value : Bytes) (n : ℕ)
    → 0 < n
    → n ≤ 16
    → (validate_hex_id value n ≡ ok tt) ↔ ((length value ≡ n) × All IsHexDigit value)
validate_hex_id-ok_iff value n pos small =
    (validate_hex_id-inversion value n, λ h. validate_hex_id-IsHexDigit value n pos small h.0 h.1)

-- The text of five bytes is a node identifier.
pub parse_node_id-hex_encode :
    (bs : Bytes) → AreBytes bs → length bs ≡ 5 → parse_node_id (hex_encode bs) ≡ ok (hex_encode bs)
unfolding parse_node_id
parse_node_id-hex_encode bs h e = rw (
    validate_hex_id-IsHexDigit (hex_encode bs) 10 (omega arith) (omega arith)
      (omega (arith, length-hex_encode bs)) (hex_encode-IsHexDigit bs h))

length-format_hex : (k n v : ℕ) → v < 16 ^ suc n → length (format_hex k v) ≤ suc n
unfolding format_hex
length-format_hex zero n v h = omega arith
length-format_hex (suc k) zero v h = rw (lt→ltb v 16 (omega arith)) (omega arith)
length-format_hex (suc k) (suc n) v h =
    let front : length (format_hex k (v / 16)) ≤ suc n =
      length-format_hex k n (v / 16) (omega (arith, pow-suc 16 (suc n))) in
    elim (Bool-cases (ltb v 16)) [
      | inl one ↦ rw one (omega arith)
      | inr more ↦
          rw more
            (omega (arith, front, length-append (format_hex k (v / 16)) (hex_digit (v % 16) ∷ [])))
    ]

format_hex-IsHexDigit : (k v : ℕ) → All IsHexDigit (format_hex k v)
unfolding format_hex
format_hex-IsHexDigit zero v = ((v % 16, omega arith, refl), tt)
format_hex-IsHexDigit (suc k) v = elim (Bool-cases (ltb v 16)) [
  | inl one ↦ rw one ((v, ltb→lt v 16 one, refl), tt)
  | inr more ↦ rw more (
      All-append IsHexDigit (format_hex k (v / 16)) (hex_digit (v % 16) ∷ [])
        (format_hex-IsHexDigit k (v / 16)) ((v % 16, omega arith, refl), tt))
]

-- A number of at most six digits fills the minimum width of six.
length-padded_hex : (v : ℕ) → v < 16 ^ 6 → length (padded_hex 6 v) ≡ 6
unfolding padded_hex
length-padded_hex v h = omega (
  arith,
  length-append (replicate (6 - length (format_hex 15 v)) b'0') (format_hex 15 v),
  length-replicate {A = ℕ} (6 - length (format_hex 15 v)) b'0',
  length-format_hex 15 5 v h,
)

padded_hex-IsHexDigit : (n v : ℕ) → All IsHexDigit (padded_hex n v)
unfolding padded_hex
padded_hex-IsHexDigit n v =
    let zero_digit : IsHexDigit b'0' = (0, omega arith, unfold hex_digit in refl) in
    All-append IsHexDigit (replicate (n - length (format_hex 15 v)) b'0') (format_hex 15 v)
      (All-replicate IsHexDigit (n - length (format_hex 15 v)) b'0' zero_digit)
      (format_hex-IsHexDigit 15 v)

network_of_valid :
    (value : Bytes) → validate_hex_id value 16 ≡ ok tt → parse_network_id value ≡ ok value
unfolding parse_network_id
network_of_valid value h = ground arith

-- The network identifier that a controller makes for a sequence number is valid, and names that
-- controller.
pub controller_id-new_network_id :
    (controller : NodeId) (sequence : ℕ)
    → parse_node_id controller ≡ ok controller
    → controller_id (new_network_id controller sequence) ≡ ok controller
unfolding controller_id new_network_id
controller_id-new_network_id controller sequence h =
    let (size, digits) = validate_hex_id-inversion controller 10 (valid_of_parse controller h) in
    let tail = padded_hex 6 (bit_and sequence 0x00ffffff) in
    let small : bit_and sequence 0x00ffffff < 16 ^ 6 = omega (arith, bit_and-ones 24 sequence) in
    let valid =
      validate_hex_id-IsHexDigit (controller ++ tail) 16 (omega arith) (omega arith)
        (omega (arith, length-append controller tail, length-padded_hex _ small, size))
        (All-append IsHexDigit controller tail digits (padded_hex-IsHexDigit 6 _)) in
    rw (network_of_valid (controller ++ tail) valid, take-append_length controller tail 10 size)
