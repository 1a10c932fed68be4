-- ===== src/Base/Hex.antt =====
-- Hexadecimal text, as `encoding/hex` and `strconv` read and write it.
use Prim.Native.Nat.{ℕ, zero, suc, ◌+◌, ◌-◌, ◌*◌, ◌/◌, ◌%◌, ◌^◌, ◌≤◌, ◌<◌}
use mathlib.Core.Bool.{◌&&◌}
use mathlib.Core.List.{[], ◌∷◌, ◌++◌}
use mathlib.Core.Logic.{◌≢◌}
use mathlib.Core.Option.{Option, none, some}
use mathlib.Core.Path.{◌≡◌, refl}
use native.Mathlib.Nat.{pow-suc, one-le-pow}
use native.Mathlib.Omega.{arith}
use ztgotroller.Base.ByteStrings.{Bytes, AreBytes}
use ztgotroller.Base.Lists.{length, All}
use ztgotroller.Base.Tests.{leb, ltb, if◌then◌else◌}

unfoldable pub hex_digit : ℕ → ℕ
hex_digit n = if ltb n 10 then b'0' + n else b'a' + (n - 10)

-- A digit in either case.
unfoldable pub hex_digit_value : ℕ → Option ℕ
hex_digit_value c =
    if leb b'0' c && leb c b'9'
    then some (c - b'0')
    else if leb b'a' c && leb c b'f'
    then some (c - b'a' + 10)
    else if leb b'A' c && leb c b'F'
    then some (c - b'A' + 10)
    else none

-- `strconv.FormatUint(value, 16)` of a number below `16 ^ (k + 1)`.
unfoldable pub format_hex : ℕ → ℕ → Bytes
format_hex zero v = hex_digit (v % 16) ∷ []
format_hex (suc k) v =
    let front = format_hex k (v / 16) in
    if ltb v 16 then hex_digit v ∷ [] else front ++ (hex_digit (v % 16) ∷ [])

-- `hex.EncodeToString`.
unfoldable pub hex_encode : Bytes → Bytes
hex_encode [] = []
hex_encode (b ∷ bs) = hex_digit (b / 16) ∷ hex_digit (b % 16) ∷ hex_encode bs

-- `hex.DecodeString`; `none` is an error.
unfoldable pub hex_decode : Bytes → Option Bytes
hex_decode [] = some []
hex_decode (c ∷ []) = none
hex_decode (c ∷ d ∷ cs) = elim (hex_digit_value c) [
  | none ↦ none
  | some high ↦ elim (hex_digit_value d) [
    | none ↦ none
    | some low ↦ elim (hex_decode cs) [ none ↦ none | some bs ↦ some ((high * 16 + low) ∷ bs) ]
  ]
]

-- The loop of `strconv.ParseUint(value, 16, 64)`; `none` is an error.
unfoldable pub parse_hex_from : ℕ → Bytes → Option ℕ
parse_hex_from acc [] = some acc
parse_hex_from acc (c ∷ cs) = elim (hex_digit_value c) [
  | none ↦ none
  | some d ↦
      let rest = parse_hex_from (acc * 16 + d) cs in
      if ltb (acc * 16 + d) (2 ^ 64) then rest else none
]

unfoldable pub parse_hex : Bytes → Option ℕ
parse_hex [] = none
parse_hex (c ∷ cs) = parse_hex_from 0 (c ∷ cs)

-- A lower-case hexadecimal digit.
abbrev pub IsHexDigit : ℕ → Type 0
IsHexDigit c = (n : ℕ) × (n < 16) × (c ≡ hex_digit n)

pub hex_digit_value-hex_digit : (n : ℕ) → n < 16 → hex_digit_value (hex_digit n) ≡ some n
unfolding hex_digit_value hex_digit
hex_digit_value-hex_digit n h = ground arith

pub length-hex_encode : (bs : Bytes) → length (hex_encode bs) ≡ 2 * length bs
unfolding hex_encode
length-hex_encode [] = refl
length-hex_encode (b ∷ bs) = omega (arith, length-hex_encode bs)

pub hex_encode-IsHexDigit : (bs : Bytes) → AreBytes bs → All IsHexDigit (hex_encode bs)
hex_encode-IsHexDigit [] h = unfold hex_encode in tt
hex_encode-IsHexDigit (b ∷ bs) h = cons_digits b bs h.0 (hex_encode-IsHexDigit bs h.1)
  where
    cons_digits :
        (b : ℕ) (bs : Bytes)
        → b < 256
        → All IsHexDigit (hex_encode bs)
        → All IsHexDigit (hex_encode (b ∷ bs))
    cons_digits b bs h ih =
        unfold hex_encode in ((b / 16, omega arith, refl), ((b % 16, omega arith, refl), ih))

-- `hex.DecodeString` inverts `hex.EncodeToString`.
pub hex_decode-hex_encode : (bs : Bytes) → AreBytes bs → hex_decode (hex_encode bs) ≡ some bs
unfolding hex_decode hex_encode
hex_decode-hex_encode [] h = refl
hex_decode-hex_encode (b ∷ bs) h = ground (
  arith,
  hex_digit_value-hex_digit (b / 16),
  hex_digit_value-hex_digit (b % 16),
  hex_decode-hex_encode bs h.1,
)

room_step :
    (acc n p : ℕ)
    → n < 16
    → 0 < p
    → (acc + 1) * (p * 16) ≤ 2 ^ 64
    → ((acc * 16 + n + 1) * p ≤ 2 ^ 64) × (acc * 16 + n < 2 ^ 64)
room_step acc n p h pos b = (grind arith, grind arith)

-- A text of hexadecimal digits that fits 64 bits parses.
parse_hex_from-IsHexDigit :
    (cs : Bytes) (acc : ℕ)
    → (acc + 1) * 16 ^ length cs ≤ 2 ^ 64
    → All IsHexDigit cs
    → (v : ℕ) × (parse_hex_from acc cs ≡ some v)
unfolding parse_hex_from
parse_hex_from-IsHexDigit [] acc b d = (acc, refl)
parse_hex_from-IsHexDigit (c ∷ cs) acc b ((n, small, is), ds) =
    let (room, below) =
      room_step acc n (16 ^ length cs) small (one-le-pow (length cs) 16 (omega arith))
        (rw (pow-suc 16 (length cs)) at b) in
    let (v, parsed) = parse_hex_from-IsHexDigit cs (acc * 16 + n) room ds in
    (v, ground (arith, hex_digit_value-hex_digit n))

pub parse_hex-IsHexDigit :
    (cs : Bytes)
    → cs ≢ []
    → 16 ^ length cs ≤ 2 ^ 64
    → All IsHexDigit cs
    → (v : ℕ) × (parse_hex cs ≡ some v)
unfolding parse_hex
parse_hex-IsHexDigit [] ne b d = absurd (ne refl)
parse_hex-IsHexDigit (c ∷ cs) ne b d = parse_hex_from-IsHexDigit (c ∷ cs) 0 (omega arith) d

-- `hex.DecodeString` reads every text of an even number of digits, and encoding the result gives
-- the text again.
pub record Decodes (cs bs : Bytes) : Type 0 where
  pub decoded : hex_decode cs ≡ some bs
  pub encoded : hex_encode bs ≡ cs
  pub are_bytes : AreBytes bs

pub hex_decode-IsHexDigit :
    (n : ℕ) (cs : Bytes) → length cs ≡ 2 * n → All IsHexDigit cs → (bs : Bytes) × Decodes cs bs
hex_decode-IsHexDigit zero [] e d = (
  [],
  record {
    decoded = unfold hex_decode in refl;
    encoded = unfold hex_encode in refl;
    are_bytes = tt;
  },
)
hex_decode-IsHexDigit (suc n) [] e d = absurd (omega arith)
hex_decode-IsHexDigit n (c ∷ []) e d = absurd (omega arith)
hex_decode-IsHexDigit zero (c ∷ c' ∷ cs) e d = absurd (omega arith)
hex_decode-IsHexDigit (suc n) (c ∷ c' ∷ cs) e ((h, small, is), ((l, small', is'), d)) =
    let (bs, r) = hex_decode-IsHexDigit n cs (omega arith) d in
    ((h * 16 + l) ∷ bs, cons_pair c c' cs h l bs small small' is is' r)
  where
    cons_pair :
        (c c' : ℕ) (cs : Bytes) (h l : ℕ) (bs : Bytes)
        → h < 16
        → l < 16
        → c ≡ hex_digit h
        → c' ≡ hex_digit l
        → Decodes cs bs
        → Decodes (c ∷ c' ∷ cs) ((h * 16 + l) ∷ bs)
    cons_pair c c' cs h l bs small small' is is' r = record {
      decoded =
          unfold hex_decode in
          ground (arith, r.decoded, hex_digit_value-hex_digit h, hex_digit_value-hex_digit l);
      encoded = unfold hex_encode in ground (arith, r.encoded);
      are_bytes = (omega arith, r.are_bytes);
    }
