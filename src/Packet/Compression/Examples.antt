-- ===== src/Packet/Compression/Examples.antt =====
-- Decompression on concrete input, and its theorems at concrete input.
use ztgotroller.Base.{
  ℕ, ◌≡◌, ◌≢◌, ◌≤◌, ◌<◌, ◌-◌, ◌++◌, refl, arith, true, false, [], ◌∷◌, Bytes, ascii, drop,
  replicate, pos, ok, err,
}
use ztgotroller.Packet.Compression.{
  out_of_rounds, match_exceeds, lz4_length, copy_match, read_match, round, expand_loop, expand,
  decompress_within, decompress,
}
use ztgotroller.Packet.Compression.Blocks.{Sequence, cycle, meaning, encode_block, copy_match-cycle}
use ztgotroller.Packet.Compression.Bounds.{
  IsExpanded, decompress_bounds, decompress-ne-out_of_rounds,
}
use ztgotroller.Packet.Compression.Reading.{decompress-encode_block}
use ztgotroller.Packet.Header.{Decoded}

abbrev compressed_of : Bytes → Decoded
compressed_of bytes = record {
  routing = record {
    packet_id = 258;
    destination = ascii "8056c2e21c";
    source = ascii "00000000ff";
    flags = 0;
    hops = 0;
    cipher = 0;
    fragmented = false;
    extended_armor = false;
  };
  authenticator = replicate 8 0;
  verb = 0x0b;
  compressed = true;
  payload = bytes;
}

-- `abc`, eight bytes that repeat it, and `z`.
abbrev block_bytes : Bytes
block_bytes = 0x34 ∷ b'a' ∷ b'b' ∷ b'c' ∷ 3 ∷ 0 ∷ 0x10 ∷ b'z' ∷ []

abbrev repeats : Sequence
repeats = record { literals = ascii "abc"; offset = 3; match_length = 8 }

block_bytes-encoded : encode_block (repeats ∷ []) (ascii "z") ≡ block_bytes
block_bytes-encoded = refl

decompress_abc :
    decompress (compressed_of block_bytes) (pos 12)
    ≡ ok (record (compressed_of (ascii "abcabcabcabz")) { compressed = false })
unfolding decompress decompress_within expand expand_loop round lz4_length read_match copy_match
decompress_abc = refl

decompress_over_limit : decompress (compressed_of block_bytes) (pos 10) ≡ err match_exceeds
unfolding decompress decompress_within expand expand_loop round lz4_length read_match
decompress_over_limit = refl

decompress_bounds_example :
    (m : ℕ) × (pos 12 ≡ pos m)
    × (0 < m)
    × (m ≤ 9996)
    × IsExpanded m
        (compressed_of block_bytes)
        (record (compressed_of (ascii "abcabcabcabz")) { compressed = false })
decompress_bounds_example =
    decompress_bounds (compressed_of block_bytes) (pos 12) refl decompress_abc

decompress-ne-out_of_rounds_example :
    decompress (compressed_of block_bytes) (pos 12) ≢ err out_of_rounds
decompress-ne-out_of_rounds_example =
    decompress-ne-out_of_rounds (compressed_of block_bytes) (pos 12)

decompress-encode_block_example :
    decompress (compressed_of (encode_block (repeats ∷ []) (ascii "z"))) (pos 12)
    ≡ ok (record (compressed_of (meaning [] (repeats ∷ []) (ascii "z"))) { compressed = false })
decompress-encode_block_example =
    decompress-encode_block (compressed_of (encode_block (repeats ∷ []) (ascii "z"))) 12
      (repeats ∷ []) (ascii "z") refl refl (omega arith, omega arith, omega arith, omega arith, tt)
      (omega arith) (omega arith) (omega arith)

copy_match-cycle_example :
    copy_match 5 2 (ascii "xyz") ≡ ascii "xyz" ++ cycle 5 0 (drop (3 - 2) (ascii "xyz"))
copy_match-cycle_example = copy_match-cycle 5 2 (ascii "xyz") (omega arith) (omega arith)
