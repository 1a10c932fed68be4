-- ===== src/Packet/Compression/Reading.antt =====
-- The decoder reads a written block.
use mathlib.Core.List.{append_assoc, append-nil}
use ztgotroller.Base.{
  ℕ, zero, suc, ◌+◌, ◌-◌, ◌*◌, ◌/◌, ◌%◌, ◌≤◌, ◌<◌, ◌≡◌, refl, ap, ◌∙◌, arith, true, false, List, [],
  ◌∷◌, ◌++◌, Bytes, length, drop, replicate, length-append, take-append_length, drop-append_length,
  dec_lt, pos, ok, bit_or, bit_and, bit_or-shifted, bit_and-ones, bit_or_comm,
}
use ztgotroller.Packet.Compression.{
  extended_length, lz4_length, read_match, round, expand_loop, expand, decompress_within,
  decompress,
}
use ztgotroller.Packet.Compression.Blocks.{
  Sequence, cycle, repeated, meaning, nibble, extension, encode_block, IsBlock, copy_match-cycle,
  length-cycle,
}
use ztgotroller.Packet.Header.{Decoded}

extended_length-reads :
    (k r size : ℕ) (rest : Bytes)
    → r < 255
    → size + k * 255 + r ≤ 10024
    → extended_length size (replicate k 255 ++ (r ∷ rest)) ≡ ok (size + k * 255 + r, rest)
unfolding extended_length
extended_length-reads zero r size rest h b =
    let same : size + r ≡ size + 0 * 255 + r = omega arith in rw (← same) (ground arith)
extended_length-reads (suc k) r size rest h b =
    let same : size + 255 + k * 255 + r ≡ size + suc k * 255 + r = omega arith in
    rw (← same) (ground (arith, extended_length-reads k r (size + 255) rest h (omega arith)))

lz4_length-reads :
    (n : ℕ) (rest : Bytes) → n ≤ 10024 → lz4_length (extension n ++ rest) (nibble n) ≡ ok (n, rest)
unfolding lz4_length
lz4_length-reads n rest h = elim (dec_lt n 15) [
  | yes short ↦ ground arith
  | no long ↦
      let whole : 15 + (n - 15) / 255 * 255 + (n - 15) % 255 ≡ n = omega arith in
      let reads =
        extended_length-reads ((n - 15) / 255) ((n - 15) % 255) 15 rest (omega arith)
          (omega arith) in
      let assoc = append_assoc (replicate ((n - 15) / 255) 255) ((n - 15) % 255 ∷ []) rest in
      ground (arith, assoc, reads, whole)
]

token_parts :
    (a b : ℕ) → a ≤ 15 → b ≤ 15 → ((a * 16 + b) / 16 ≡ a) × (bit_and (a * 16 + b) 0x0f ≡ b)
token_parts a b h k = (omega arith, omega (arith, bit_and-ones 4 (a * 16 + b)))

nibble-le : (n : ℕ) → nibble n ≤ 15
nibble-le n = ground arith

offset_bytes : (n : ℕ) → n < 65536 → bit_or (n % 256) (n / 256 * 256) ≡ n
offset_bytes n h = omega (
  arith,
  bit_or_comm (n % 256) (n / 256 * 256),
  bit_or-shifted 8 (n / 256) (n % 256) (omega arith),
)

read_match-reads :
    (maximum token : ℕ) (s : Sequence) (rest output : Bytes)
    → bit_and token 0x0f ≡ nibble (s.match_length - 4)
    → 0 < s.offset
    → s.offset < 65536
    → s.offset ≤ length output
    → 4 ≤ s.match_length
    → length output + s.match_length ≤ maximum
    → maximum ≤ 9996
    → read_match maximum token
        (s.offset % 256 ∷ s.offset / 256 ∷ (extension (s.match_length - 4) ++ rest))
        output
      ≡ ok (rest, repeated s output)
unfolding read_match
read_match-reads maximum token s rest output t positive two inside four room limit =
    let offset = offset_bytes s.offset two in
    let reads = lz4_length-reads (s.match_length - 4) rest (omega arith) in
    let whole : s.match_length - 4 + 4 ≡ s.match_length = omega arith in
    let copied = copy_match-cycle s.match_length s.offset output positive inside in
    rw (offset, t, reads) (ground (arith, whole, copied))

-- The literals of a round, with what stands behind them.
round-literals :
    (maximum token : ℕ) (literals behind output : Bytes)
    → token / 16 ≡ nibble (length literals)
    → length output + length literals ≤ maximum
    → maximum ≤ 9996
    → round maximum token (extension (length literals) ++ (literals ++ behind)) output
      ≡ read_match maximum token behind (output ++ literals)
unfolding round
round-literals maximum token literals behind output t room limit =
    let reads = lz4_length-reads (length literals) (literals ++ behind) (omega arith) in
    let taken = take-append_length literals behind (length literals) refl in
    let left = drop-append_length literals behind (length literals) refl in
    let sizes = length-append literals behind in rw (t, reads) (ground (arith, taken, left, sizes))

round-sequence :
    (maximum : ℕ) (s : Sequence) (rest output : Bytes)
    → 0 < s.offset
    → s.offset < 65536
    → s.offset ≤ length (output ++ s.literals)
    → 4 ≤ s.match_length
    → length (output ++ s.literals) + s.match_length ≤ maximum
    → maximum ≤ 9996
    → round maximum
        (nibble (length s.literals) * 16 + nibble (s.match_length - 4))
        (extension (length s.literals)
          ++ (s.literals
              ++ (s.offset % 256 ∷ s.offset / 256 ∷ (extension (s.match_length - 4) ++ rest))))
        output
      ≡ ok (rest, repeated s (output ++ s.literals))
round-sequence maximum s rest output positive two inside four room limit =
    let n = nibble (length s.literals) in
    let m = nibble (s.match_length - 4) in
    let parts = token_parts n m (nibble-le (length s.literals)) (nibble-le (s.match_length - 4)) in
    let sizes = length-append output s.literals in
    round-literals maximum (n * 16 + m) s.literals _ output parts.0 (omega arith) limit
    ∙ read_match-reads maximum (n * 16 + m) s rest (output ++ s.literals) parts.1 positive two
        inside four room limit

-- The length of what is written so far only grows.
meaning-length :
    (output : Bytes) (block : List Sequence) (last : Bytes)
    → length output + length last ≤ length (meaning output block last)
meaning-length output [] last = omega (arith, length-append output last)
meaning-length output (s ∷ block) last =
    let grown = output ++ s.literals in
    omega (
      arith,
      meaning-length (repeated s grown) block last,
      length-append output s.literals,
      length-append grown (cycle s.match_length 0 (drop (length grown - s.offset) grown)),
    )

encode_block-cons : (block : List Sequence) (last : Bytes) → 0 < length (encode_block block last)
encode_block-cons [] last = omega arith
encode_block-cons (s ∷ block) last = omega arith

expand_loop_nil :
    (rounds maximum : ℕ) (output : Bytes) → expand_loop rounds maximum [] output ≡ ok output
unfolding expand_loop
expand_loop_nil zero maximum output = refl
expand_loop_nil (suc rounds) maximum output = refl

expand_loop-encode_block :
    (rounds maximum : ℕ) (block : List Sequence) (last output : Bytes)
    → length block < rounds
    → IsBlock output block
    → length (meaning output block last) ≤ maximum
    → maximum ≤ 9996
    → expand_loop rounds maximum (encode_block block last) output ≡ ok (meaning output block last)
unfolding expand_loop
expand_loop-encode_block zero maximum block last output more b room limit = absurd (omega arith)
expand_loop-encode_block (suc rounds) maximum [] last output more b room limit =
    let small = nibble-le (length last) in
    let head : nibble (length last) * 16 / 16 ≡ nibble (length last) = omega arith in
    let sizes = length-append output last in
    let read =
      round-literals maximum (nibble (length last) * 16) last [] output head (omega arith) limit in
    let end : read_match maximum (nibble (length last) * 16) [] (output ++ last)
        ≡ ok ([], output ++ last) =
      unfold read_match in refl in
    let same : extension (length last) ++ (last ++ []) ≡ extension (length last) ++ last =
      ap (λ t. extension (length last) ++ t) (append-nil last) in
    let done : expand_loop rounds maximum [] (output ++ last) ≡ ok (output ++ last) =
      expand_loop_nil rounds maximum (output ++ last) in
    rw (← same, read, end) done
expand_loop-encode_block (suc rounds) maximum (s ∷ block) last output more
      (positive, two, inside, four, b) room limit =
    let grown = output ++ s.literals in
    let after = meaning-length (repeated s grown) block last in
    let sizes =
      length-append grown (cycle s.match_length 0 (drop (length grown - s.offset) grown)) in
    let cycled = length-cycle s.match_length 0 (drop (length grown - s.offset) grown) in
    let read =
      round-sequence maximum s (encode_block block last) output positive two inside four
        (omega arith) limit in
    rw read (
      expand_loop-encode_block rounds maximum block last (repeated s grown) (omega arith) b room
        limit)

encode_block-rounds :
    (block : List Sequence) (last : Bytes) → length block < length (encode_block block last)
encode_block-rounds [] last = omega arith
encode_block-rounds (s ∷ block) last =
    let inner = encode_block-rounds block last in
    let m = extension (s.match_length - 4) in
    let one = length-append m (encode_block block last) in
    let two =
      length-append s.literals (s.offset % 256 ∷ s.offset / 256 ∷ (m ++ encode_block block last)) in
    let three =
      length-append (extension (length s.literals))
        (s.literals ++ (s.offset % 256 ∷ s.offset / 256 ∷ (m ++ encode_block block last))) in
    omega (arith, inner, one, two, three)

-- `Decompress` of a written LZ4 block, with a limit from 1 to 9996, is what the sequences of the
-- block mean, when that is not empty and within the limit; the compressed flag is cleared.
pub decompress-encode_block :
    (d : Decoded) (maximum : ℕ) (block : List Sequence) (last : Bytes)
    → d.compressed ≡ true
    → d.payload ≡ encode_block block last
    → IsBlock [] block
    → 0 < length (meaning [] block last)
    → length (meaning [] block last) ≤ maximum
    → maximum ≤ 9996
    → decompress d (pos maximum)
      ≡ ok (record d { payload = meaning [] block last; compressed = false })
unfolding decompress decompress_within expand
decompress-encode_block d maximum block last c p b some_output room limit =
    let rounds = encode_block-rounds block last in
    let loop =
      expand_loop-encode_block (length (encode_block block last)) maximum block last [] rounds b
        room limit in
    ground (arith, c, p, loop)
