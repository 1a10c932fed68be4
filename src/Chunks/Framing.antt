-- ===== src/Chunks/Framing.antt =====
-- What the parser reads from a chunk that is framed as the builder frames it.
use mathlib.Core.List.{append-nil}
use ztgotroller.Base.{
  ℕ, ◌+◌, ◌^◌, ◌≤◌, ◌<◌, ◌≡◌, refl, sym, ap, ◌∙◌, arith, true, List, [], ◌∷◌, ◌++◌, Bytes, length,
  take, drop, ok, slice, byte_at, concat, size_of, length-concat, concat-append, slice-at, byte-at,
  number-at, drop-at, put_be, get_be, length-put_be, take-append_length,
}
use ztgotroller.Domain.Ids.{NetworkId, validate_hex_id, id_bytes}
use ztgotroller.Domain.Ids.Text.{valid-IsIdText, parse_network_id_of_valid}
use ztgotroller.Identity.{Identity, verify}
use ztgotroller.Identity.Primitives.{Crypto}
use ztgotroller.Chunks.{SignedChunk, signed_part, framed, parse_framed, parse_signed_chunk}

-- The values that a chunk frames.
pub record IsFramed (id : NetworkId) (total update_id index : ℕ) (chunk : Bytes) : Type 0 where
  pub valid : validate_hex_id id 16 ≡ ok tt
  pub some_id : 0 < update_id
  pub id_fits : update_id < 2 ^ 64
  pub some_total : 0 < total
  pub total_fits : total < 1048576
  pub inside : index + length chunk ≤ total
  pub short : length chunk < 65536

module _ (id : NetworkId) (total update_id index : ℕ) (chunk signature : Bytes) where
  -- The chunk that is read.
  abbrev pub read_chunk_of : SignedChunk
  read_chunk_of = record {
    network_id = id;
    data_bytes = chunk;
    flags = 0;
    update_id = update_id;
    total_length = total;
    index = index;
    signature = signature;
    signed_payload = signed_part id total update_id index chunk;
  }

  abbrev signed_parts : List Bytes
  signed_parts =
      id_bytes id
      ∷ put_be 2 (length chunk)
      ∷ chunk
      ∷ (0 ∷ [])
      ∷ put_be 8 update_id
      ∷ put_be 4 total
      ∷ put_be 4 index
      ∷ []

  abbrev end : List Bytes
  end = (1 ∷ []) ∷ put_be 2 96 ∷ signature ∷ []

  abbrev whole : Bytes
  whole = framed (signed_part id total update_id index chunk) signature

  whole_parts : whole ≡ concat (signed_parts ++ end)
  whole_parts = sym (concat-append signed_parts end)

  module _ (h : IsFramed id total update_id index chunk) (s : length signature ≡ 96) where
    sizes :
        (length (id_bytes id) ≡ 8)
        × (length (put_be 2 (length chunk)) ≡ 2)
        × (length (put_be 8 update_id) ≡ 8)
        × (length (put_be 4 total) ≡ 4)
        × (length (put_be 4 index) ≡ 4)
        × (length (put_be 2 96) ≡ 2)
    sizes = (
      (valid-IsIdText 8 id h.valid).size,
      length-put_be 2 (length chunk),
      length-put_be 8 update_id,
      length-put_be 4 total,
      length-put_be 4 index,
      length-put_be 2 96,
    )

    abbrev n : ℕ
    n = length chunk

    abbrev parts : List Bytes
    parts = signed_parts ++ end

    size_signed : size_of signed_parts ≡ 27 + length chunk
    size_signed = omega (arith, sizes)

    length-whole : length whole ≡ 126 + length chunk
    length-whole =
        ap length whole_parts ∙ (length-concat (signed_parts ++ end) ∙ omega (arith, sizes, s))

    read_id : slice 0 8 whole ≡ id_bytes id
    read_id = rw whole_parts (slice-at parts 0 0 (omega arith) refl 8 (omega (arith, sizes)))

    read_length : get_be (slice 8 10 whole) ≡ n
    read_length =
        rw whole_parts
          (number-at parts 1 8 (omega arith) (omega (arith, sizes)) 10 2 n refl refl h.short)

    read_chunk : slice 10 (10 + n) whole ≡ chunk
    read_chunk =
        rw whole_parts (slice-at parts 2 10 (omega arith) (omega (arith, sizes)) (10 + n) refl)

    read_flags : byte_at whole (10 + n) ≡ 0
    read_flags =
        rw whole_parts (byte-at parts 3 (10 + n) (omega arith) (omega (arith, sizes)) 0 refl)

    read_update_id : get_be (slice (11 + n) (19 + n) whole) ≡ update_id
    read_update_id = rw whole_parts (
        number-at parts 4 (11 + n) (omega arith) (omega (arith, sizes)) (19 + n) 8 update_id refl
          (omega arith) h.id_fits)

    read_total : get_be (slice (19 + n) (23 + n) whole) ≡ total
    read_total = rw whole_parts (
        number-at parts 5 (19 + n) (omega arith) (omega (arith, sizes)) (23 + n) 4 total refl
          (omega arith) (omega (arith, h.total_fits)))

    read_index : get_be (slice (23 + n) (27 + n) whole) ≡ index
    read_index = rw whole_parts (
        number-at parts 6 (23 + n) (omega arith) (omega (arith, sizes)) (27 + n) 4 index refl
          (omega arith) (omega (arith, h.total_fits, h.inside)))

    read_kind : byte_at whole (27 + n) ≡ 1
    read_kind =
        rw whole_parts (byte-at parts 7 (27 + n) (omega arith) (omega (arith, sizes)) 1 refl)

    read_signature_length : get_be (slice (28 + n) (30 + n) whole) ≡ 96
    read_signature_length = rw whole_parts (
        number-at parts 8 (28 + n) (omega arith) (omega (arith, sizes)) (30 + n) 2 96 refl
          (omega arith) (omega arith))

    read_signature : drop (30 + n) whole ≡ signature
    read_signature =
        rw whole_parts
          (drop-at parts 9 (30 + n) (omega arith) (omega (arith, sizes)) ∙ append-nil signature)

    read_signed : take (27 + n) whole ≡ signed_part id total update_id index chunk
    read_signed =
        take-append_length (concat signed_parts) (concat end) (27 + n)
          (length-concat signed_parts ∙ size_signed)

    -- A chunk that is framed from fitting values, and whose signature is accepted, is parsed.
    pub parse-framed :
        (c : Crypto) (signer : Identity)
        → verify c signer (signed_part id total update_id index chunk) signature ≡ true
        → parse_signed_chunk c whole signer ≡ ok read_chunk_of
    unfolding parse_signed_chunk parse_framed
    parse-framed c signer accepted =
        rw
          (
            length-whole,
            read_id,
            parse_network_id_of_valid id h.valid,
            read_length,
            read_chunk,
            read_flags,
            read_update_id,
            read_total,
            read_index,
            read_kind,
            read_signature_length,
            read_signature,
            read_signed,
            accepted,
          )
          (ground (arith, h.some_id, h.some_total, h.total_fits, h.inside))
