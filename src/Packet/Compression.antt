-- ===== src/Packet/Compression.antt =====
-- `Decompress` of compression.go: the raw LZ4 block of a packet's payload. A cursor into the input
-- is the rest of the input from there on.
pub mod Bounds
pub mod Blocks
pub mod Reading
mod Examples
use ztgotroller.Base.{
  ℕ, zero, suc, ◌+◌, ◌-◌, ◌*◌, ◌/◌, Bool, false, not, ◌||◌, List, [], ◌∷◌, ◌++◌, Bytes, length,
  take, drop, get_or, ltb, ◌==◌, if◌then◌else◌, bit_and, bit_or, ℤ, pos, negsuc, Result, ok, err,
  ◌>>=◌, ◌>>◌, fail_if,
}
use ztgotroller.Packet.Header.{Decoded, header_length, max_packet_length}

-- `out_of_rounds` is the model's own: the loop would need more rounds than it was given.
pub data Error : Type 0 where
  invalid_limit length_truncated length_too_long literal_exceeds : Error
  offset_truncated invalid_offset match_exceeds empty_output out_of_rounds : Error

-- The loop of `lz4Length`: the length that the bytes extend, and the rest behind them.
unfoldable pub extended_length : ℕ → Bytes → Result Error (ℕ × Bytes)
extended_length size [] = err length_truncated
extended_length size (value ∷ rest) =
    let more = extended_length (size + value) rest in
    if ltb (max_packet_length - value) size
    then err length_too_long
    else if not (value == 255)
    then ok (size + value, rest)
    else more

unfoldable pub lz4_length : Bytes → ℕ → Result Error (ℕ × Bytes)
lz4_length rest base = if not (base == 15) then ok (base, rest) else extended_length base rest

-- `for index < matchLength { output = append(output, output[len(output)-offset]) }`
unfoldable pub copy_match : ℕ → ℕ → Bytes → Bytes
copy_match zero offset output = output
copy_match (suc rounds) offset output =
    copy_match rounds offset (output ++ (get_or output (length output - offset) 0 ∷ []))

-- The part of a round behind the literals, up to the rest of the input and the new output. With
-- nothing left it is the `break`.
unfoldable pub read_match : ℕ → ℕ → Bytes → Bytes → Result Error (Bytes × Bytes)
read_match maximum token [] output = ok ([], output)
read_match maximum token (low ∷ []) output = err offset_truncated
read_match maximum token (low ∷ high ∷ rest) output = do
  let offset = bit_or low (high * 256)
  fail_if (offset == 0 || ltb (length output) offset) invalid_offset
  m ← lz4_length rest (bit_and token 0x0f)
  let match_length = m.0 + 4
  fail_if (ltb (maximum - length output) match_length) match_exceeds
  ok (m.1, copy_match match_length offset output)

-- One round of the loop behind its token.
unfoldable pub round : ℕ → ℕ → Bytes → Bytes → Result Error (Bytes × Bytes)
round maximum token rest output = do
  l ← lz4_length rest (token / 16)
  fail_if (ltb (length l.1) l.0 || ltb (maximum - length output) l.0) literal_exceeds
  read_match maximum token (drop l.0 l.1) (output ++ take l.0 l.1)

-- The loop, with a bound on its rounds.
unfoldable pub expand_loop : ℕ → ℕ → Bytes → Bytes → Result Error Bytes
expand_loop rounds maximum [] output = ok output
expand_loop zero maximum (token ∷ rest) output = err out_of_rounds
expand_loop (suc rounds) maximum (token ∷ rest) output = do
  next ← round maximum token rest output
  expand_loop rounds maximum next.0 next.1

-- Each round takes its token, so that there are at most as many rounds as bytes.
unfoldable pub expand : ℕ → Bytes → Result Error Bytes
expand maximum input = expand_loop (length input) maximum input []

unfoldable pub decompress_within : ℕ → Decoded → Result Error Decoded
decompress_within maximum decoded = do
  output ← expand maximum decoded.payload
  fail_if (length output == 0) empty_output
  ok (record decoded { payload = output; compressed = false })

unfoldable pub decompress : Decoded → ℤ → Result Error Decoded
decompress decoded (negsuc n) = if not decoded.compressed then ok decoded else err invalid_limit
decompress decoded (pos maximum) =
    if not decoded.compressed
    then ok decoded
    else if maximum == 0 || ltb (max_packet_length - header_length) maximum
    then err invalid_limit
    else decompress_within maximum decoded
