-- ===== src/Packet/Compression/Bounds.antt =====
-- The output limit of `Decompress`, and its end.
use ztgotroller.Base.{
  ℕ, zero, suc, ◌+◌, ◌-◌, ◌≤◌, ◌<◌, ◌≡◌, ◌≢◌, refl, arith, true, false, [], ◌∷◌, ◌++◌, Bytes,
  length, take, drop, length-append, length-take, length-drop, ℤ, pos, negsuc, Result, ok, err,
  Result-cases, inl, inr, bit_or, bit_and, ◌*◌, ◌/◌, get_or,
}
use ztgotroller.Packet.Compression.{
  Error, out_of_rounds, extended_length, lz4_length, copy_match, read_match, round, expand_loop,
  expand, decompress_within, decompress,
}
use ztgotroller.Packet.Header.{Decoded}

extended_length-le :
    (size : ℕ) (rest : Bytes) {n : ℕ} {after : Bytes}
    → extended_length size rest ≡ ok (n, after)
    → length after ≤ length rest
unfolding extended_length
extended_length-le size [] h = absurd (cc)
extended_length-le size (v ∷ rest) {n} {after} h =
    ground (arith, extended_length-le (size + v) rest {n = n} {after = after})

lz4_length-le :
    (rest : Bytes) (base : ℕ) {n : ℕ} {after : Bytes}
    → lz4_length rest base ≡ ok (n, after)
    → length after ≤ length rest
unfolding lz4_length
lz4_length-le rest base {n} {after} h =
    ground (arith, extended_length-le base rest {n = n} {after = after})

length-copy_match :
    (n offset : ℕ) (output : Bytes) → length (copy_match n offset output) ≡ length output + n
unfolding copy_match
length-copy_match zero offset output = omega arith
length-copy_match (suc n) offset output = omega (
  arith,
  length-copy_match n offset (output ++ (get_or output (length output - offset) 0 ∷ [])),
  length-append output (get_or output (length output - offset) 0 ∷ []),
)

read_match_bounds :
    (maximum token : ℕ) (rest output : Bytes) {after out : Bytes}
    → read_match maximum token rest output ≡ ok (after, out)
    → length output ≤ maximum
    → (length after ≤ length rest) × (length out ≤ maximum)
unfolding read_match
read_match_bounds maximum token [] output h k = ground arith
read_match_bounds maximum token (low ∷ []) output h k = absurd (cc)
read_match_bounds maximum token (low ∷ high ∷ rest) output h k =
    elim (Result-cases (lz4_length rest (bit_and token 0x0f))) [
      | inr (e, bad) ↦ absurd (ground arith)
      | inl ((n, next), good) ↦
          let shorter = lz4_length-le rest (bit_and token 0x0f) good in
          ground (arith, length-copy_match (n + 4) (bit_or low (high * 256)) output)
    ]

round_bounds :
    (maximum token : ℕ) (rest output : Bytes) {after out : Bytes}
    → round maximum token rest output ≡ ok (after, out)
    → length output ≤ maximum
    → (length after ≤ length rest) × (length out ≤ maximum)
unfolding round
round_bounds maximum token rest output {after} {out} h k =
    elim (Result-cases (lz4_length rest (token / 16))) [
      | inr (e, bad) ↦ absurd (ground arith)
      | inl ((n, next), good) ↦
          let shorter = lz4_length-le rest (token / 16) good in
          let written = length-append output (take n next) in
          let copied = length-take n next in
          let left = length-drop n next in
          ground (
            arith,
            read_match_bounds maximum token (drop n next) (output ++ take n next) {after = after}
                {out = out},
          )
    ]

-- The errors that a round itself returns.
extended_length_error :
    (size : ℕ) (rest : Bytes) {e : Error} → extended_length size rest ≡ err e → e ≢ out_of_rounds
unfolding extended_length
extended_length_error size [] h = λ x. cc
extended_length_error size (v ∷ rest) {e} h =
    ground (arith, extended_length_error (size + v) rest {e = e})

lz4_length_error :
    (rest : Bytes) (base : ℕ) {e : Error} → lz4_length rest base ≡ err e → e ≢ out_of_rounds
unfolding lz4_length
lz4_length_error rest base {e} h = ground (arith, extended_length_error base rest {e = e})

read_match_error :
    (maximum token : ℕ) (rest output : Bytes) {e : Error}
    → read_match maximum token rest output ≡ err e
    → e ≢ out_of_rounds
unfolding read_match
read_match_error maximum token [] output h = absurd (cc)
read_match_error maximum token (low ∷ []) output h = λ x. cc
read_match_error maximum token (low ∷ high ∷ rest) output {e} h =
    elim (Result-cases (lz4_length rest (bit_and token 0x0f))) [
      | inr (e', bad) ↦ ground (arith, lz4_length_error rest (bit_and token 0x0f) bad)
      | inl (n, good) ↦ ground arith
    ]

round_error :
    (maximum token : ℕ) (rest output : Bytes) {e : Error}
    → round maximum token rest output ≡ err e
    → e ≢ out_of_rounds
unfolding round
round_error maximum token rest output {e} h = elim (Result-cases (lz4_length rest (token / 16))) [
  | inr (e', bad) ↦ ground (arith, lz4_length_error rest (token / 16) bad)
  | inl (l, good) ↦
      ground (arith, read_match_error maximum token (drop l.0 l.1) (output ++ take l.0 l.1) {e = e})
]

-- What the loop may return: an error of a round, or an output within the limit.
abbrev IsWithin : ℕ → Result Error Bytes → Type 0
IsWithin maximum (ok out) = length out ≤ maximum
IsWithin maximum (err e) = e ≢ out_of_rounds

expand_loop-IsWithin :
    (rounds maximum : ℕ) (input output : Bytes)
    → length input ≤ rounds
    → length output ≤ maximum
    → IsWithin maximum (expand_loop rounds maximum input output)
unfolding expand_loop
expand_loop-IsWithin rounds maximum [] output h k = k
expand_loop-IsWithin zero maximum (token ∷ rest) output h k = absurd (omega arith)
expand_loop-IsWithin (suc rounds) maximum (token ∷ rest) output h k =
    elim (Result-cases (round maximum token rest output)) [
      | inr (e, bad) ↦ rw bad (round_error maximum token rest output bad)
      | inl ((after, out), good) ↦
          let bounds = round_bounds maximum token rest output good k in
          rw good (expand_loop-IsWithin rounds maximum after out (omega (arith, bounds)) bounds.1)
    ]

-- What `Decompress` leaves of a compressed packet.
pub record IsExpanded (maximum : ℕ) (before after : Decoded) : Type 0 where
  pub not_empty : 0 < length after.payload
  pub within : length after.payload ≤ maximum
  pub header : after ≡ record before { payload = after.payload; compressed = false }

decompress_within_bounds :
    (maximum : ℕ) (d : Decoded) {d' : Decoded}
    → decompress_within maximum d ≡ ok d'
    → IsExpanded maximum d d'
unfolding decompress_within expand
decompress_within_bounds maximum d {d'} h =
    elim (Result-cases (expand_loop (length d.payload) maximum d.payload [])) [
      | inr (e, bad) ↦ absurd (ground arith)
      | inl (out, good) ↦
          let small : length out ≤ maximum = rw good at (
            expand_loop-IsWithin (length d.payload) maximum d.payload [] (omega arith)
              (omega arith)) in
          record { not_empty = ground arith; within = ground arith; header = ground arith }
    ]

-- If `Decompress` succeeds on a compressed packet, the limit was from 1 to the largest payload,
-- the new payload has from one byte up to the limit, and all else but the flag is as it was.
pub decompress_bounds :
    (d : Decoded) (maximum : ℤ) {d' : Decoded}
    → d.compressed ≡ true
    → decompress d maximum ≡ ok d'
    → (m : ℕ) × (maximum ≡ pos m) × (0 < m) × (m ≤ 9996) × IsExpanded m d d'
unfolding decompress
decompress_bounds d (negsuc n) c h = absurd (ground arith)
decompress_bounds d (pos m) {d'} c h =
    (m, refl, ground arith, ground arith, decompress_within_bounds m d {d' = d'} (ground arith))

-- `Decompress` ends: the loop never needs more rounds than the payload has bytes.
pub decompress-ne-out_of_rounds :
    (d : Decoded) (maximum : ℤ) → decompress d maximum ≢ err out_of_rounds
unfolding decompress decompress_within expand
decompress-ne-out_of_rounds d (negsuc n) h = ground arith
decompress-ne-out_of_rounds d (pos m) h =
    let input = d.payload in
    let within = expand_loop-IsWithin (length input) m input [] (omega arith) (omega arith) in
    elim (Result-cases (expand_loop (length input) m input [])) [
      | inl (out, good) ↦ ground arith
      | inr (e, bad) ↦ let other : e ≢ out_of_rounds = rw bad at within in ground (arith, other)
    ]
