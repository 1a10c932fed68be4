-- ===== src/Dictionary/Hex.antt =====
-- Numbers in a dictionary: `AddHexUint` and `Metadata.HexUint`.
use mathlib.Core.List.{concat-ne-nil}
use native.Mathlib.Nat.{pow-suc}
use ztgotroller.Base.{
  format_hex, hex_digit, ℕ, zero, suc, ◌+◌, ◌*◌, ◌/◌, ◌%◌, ◌^◌, ◌<◌, ◌≡◌, refl, ap, ◌∙◌, arith,
  List, [], ◌∷◌, ◌++◌, Bytes, none, some, ok, ltb→lt, ◌≢◌, bit_or-shifted, bit_or, >>=-eq-ok,
  Option-cases, inl, inr, Bool-cases, ltb, bytes_eq_refl,
}
use ztgotroller.Dictionary.{Builder, new_builder, add, add_all, add_hex_uint}
use ztgotroller.Dictionary.Parse.{
  Metadata, lookup, nibble_of, hex_uint_from, hex_uint_value, hex_uint, parse_dictionary,
}
use ztgotroller.Dictionary.RoundTrip.{lookup-append, parse_dictionary-add_all}

nibble_of-hex_digit : (n : ℕ) → n < 16 → nibble_of (hex_digit n) ≡ some n
unfolding nibble_of hex_digit
nibble_of-hex_digit n h = ground arith

shift_nibble : (r n : ℕ) → r < 2 ^ 60 → n < 16 → bit_or (r * 16 % 2 ^ 64) n ≡ r * 16 + n
shift_nibble r n h k =
    let e : r * 16 % 2 ^ 64 ≡ r * 2 ^ 4 = omega arith in rw e (bit_or-shifted 4 r n k)

hex_uint_from-concat :
    (xs : Bytes) (acc r n : ℕ)
    → r < 2 ^ 60
    → n < 16
    → hex_uint_from acc xs ≡ some r
    → hex_uint_from acc (xs ++ (hex_digit n ∷ [])) ≡ some (r * 16 + n)
unfolding hex_uint_from
hex_uint_from-concat [] acc r n h k e = ground (arith, nibble_of-hex_digit n, shift_nibble acc n)
hex_uint_from-concat (x ∷ xs) acc r n h k e = elim (Option-cases (nibble_of x)) [
  | inl bad ↦ absurd (ground arith)
  | inr (d, good) ↦ ground (arith, hex_uint_from-concat xs (bit_or (acc * 16 % 2 ^ 64) d) r n h k)
]

hex_uint_from-format_hex :
    (k v : ℕ) → v < 16 ^ suc k → v < 2 ^ 64 → hex_uint_from 0 (format_hex k v) ≡ some v
unfolding format_hex
hex_uint_from-format_hex zero v h b =
    hex_uint_from-concat [] 0 0 (v % 16) (omega arith) (omega arith) (unfold hex_uint_from in refl)
    ∙ ap some (omega arith)
hex_uint_from-format_hex (suc k) v h b = elim (Bool-cases (ltb v 16)) [
  | inl one ↦ rw one (
      hex_uint_from-concat [] 0 0 v (omega arith) (ltb→lt v 16 one) (unfold hex_uint_from in refl)
      ∙ ap some (omega arith))
  | inr more ↦ rw more (
      hex_uint_from-concat (format_hex k (v / 16)) 0 (v / 16) (v % 16) (omega arith) (omega arith)
        (hex_uint_from-format_hex k (v / 16) (omega (arith, pow-suc 16 (suc k))) (omega arith))
      ∙ ap some (omega arith))
]

format_hex-ne-nil : (k v : ℕ) → format_hex k v ≢ []
unfolding format_hex
format_hex-ne-nil zero v h = cc
format_hex-ne-nil (suc k) v h = elim (Bool-cases (ltb v 16)) [
  | inl one ↦ absurd (ground arith)
  | inr more ↦ concat-ne-nil (hex_digit (v % 16)) (format_hex k (v / 16)) (ground arith)
]

nonempty_value : (xs : Bytes) → xs ≢ [] → hex_uint_value xs ≡ hex_uint_from 0 xs
unfolding hex_uint_value
nonempty_value [] h = absurd (h refl)
nonempty_value (x ∷ xs) h = refl

-- `HexUint` reads back the number that `strconv.FormatUint` wrote.
pub hex_uint_value-format_hex : (v : ℕ) → v < 2 ^ 64 → hex_uint_value (format_hex 15 v) ≡ some v
hex_uint_value-format_hex v h =
    nonempty_value (format_hex 15 v) (format_hex-ne-nil 15 v)
    ∙ hex_uint_from-format_hex 15 v (omega arith) h

lookup_last :
    (entries : Metadata) (k v : Bytes)
    → lookup k entries ≡ none
    → lookup k (entries ++ ((k, v) ∷ [])) ≡ some v
lookup_last entries k v h = rw (lookup-append, h) (unfold lookup in rw bytes_eq_refl)

add_all-concat :
    (es : List (Bytes × Bytes)) (a : Builder) (k v : Bytes) {b c : Builder}
    → add_all a es ≡ ok b
    → add b k v ≡ ok c
    → add_all a (es ++ ((k, v) ∷ [])) ≡ ok c
unfolding add_all
add_all-concat [] a k v h e = ground arith
add_all-concat ((j, w) ∷ es) a k v h e =
    let (next, first, rest) = >>=-eq-ok (add a j w) (λ n. add_all n es) h in
    rw first (add_all-concat es next k v rest e)

-- A number below 2 ^ 64 that `AddHexUint` adds under a new key is the number that `HexUint` finds
-- under that key in the parsed dictionary.
pub hex_uint-add_hex_uint :
    (entries : List (Bytes × Bytes)) (key : Bytes) (v : ℕ) {b c : Builder}
    → v < 2 ^ 64
    → lookup key entries ≡ none
    → add_all new_builder entries ≡ ok b
    → add_hex_uint b key v ≡ ok c
    → (m : Metadata) × (parse_dictionary c.buffer ≡ ok m) × (hex_uint m key ≡ some v)
unfolding add_hex_uint hex_uint
hex_uint-add_hex_uint entries key v small new h e =
    let all = add_all-concat entries new_builder key (format_hex 15 v) h e in
    let (m, parsed, found) = parse_dictionary-add_all _ all in
    (
      m,
      parsed,
      rw (found key, lookup_last entries key (format_hex 15 v) new, hex_uint)
          (hex_uint_value-format_hex v small),
    )
