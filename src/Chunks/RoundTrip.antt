-- ===== src/Chunks/RoundTrip.antt =====
-- A dictionary that is built into chunks is read back from them.
use Prim.Native.Nat.{min}
use mathlib.Core.Path.{subst}
use ztgotroller.Base.{
  ℕ, zero, suc, ◌+◌, ◌^◌, ◌≤◌, ◌<◌, ◌≡◌, refl, ap, ◌∙◌, arith, true, false, ◌==◌, List, [], ◌∷◌,
  ◌++◌, Bytes, length, take, drop, Result, ok, ◌>>=◌, ltb, leb, map, concat, length-take,
  length-drop, take-append-drop, bytes_eq_refl, ℤ, pos, negsuc,
}
use ztgotroller.Domain.Ids.{NetworkId, validate_hex_id}
use ztgotroller.Identity.{Identity, public_identity, sign}
use ztgotroller.Identity.Primitives.{Crypto, IsCrypto}
use ztgotroller.Identity.Signatures.{verify-sign}
use ztgotroller.Chunks.{
  Error, SignedChunk, signed_part, framed, build_chunk, build_loop, build_signed_chunks,
  chunk_limit_of, parse_signed_chunk,
}
use ztgotroller.Chunks.Framing.{IsFramed, parse-framed, read_chunk_of}

-- Each chunk parsed, up to the first error.
abbrev pub parse_each : Crypto → Identity → List Bytes → Result Error (List SignedChunk)
parse_each c signer [] = ok []
parse_each c signer (payload ∷ payloads) = do
  chunk ← parse_signed_chunk c payload signer
  chunks ← parse_each c signer payloads
  ok (chunk ∷ chunks)

-- Chunks of one update that stand one behind the other, from `index` up to the total length, each
-- with a byte at least and at most `limit` bytes.
abbrev pub AreConsecutive : NetworkId → ℕ → ℕ → ℕ → ℕ → List SignedChunk → Type 0
AreConsecutive id total update_id limit index [] = index ≡ total
AreConsecutive id total update_id limit index (s ∷ chunks) =
    (s.network_id ≡ id)
    × (s.total_length ≡ total)
    × (s.update_id ≡ update_id)
    × (s.index ≡ index)
    × (0 < length s.data_bytes)
    × (length s.data_bytes ≤ limit)
    × AreConsecutive id total update_id limit (index + length s.data_bytes) chunks

-- A signer with a private key that belongs to its public one.
pub record IsSigner (c : Crypto) (signer : Identity) : Type 0 where
  pub private : signer.has_private ≡ true
  pub size : length signer.private_key ≡ 64
  pub matching :
      drop 32 (c.new_key_from_seed (drop 32 signer.private_key)) ≡ drop 32 signer.public_key

chunk_limit_positive : (limit : ℤ) → 0 < chunk_limit_of limit
chunk_limit_positive (negsuc n) = omega arith
chunk_limit_positive (pos n) = ground arith

-- Fitting arguments of `BuildSignedChunks`.
pub record IsBuildable (id : NetworkId) (dictionary : Bytes) (update_id : ℕ) (limit : ℤ)
    : Type 0 where
  pub valid : validate_hex_id id 16 ≡ ok tt
  pub some_id : 0 < update_id
  pub id_fits : update_id < 2 ^ 64
  pub not_empty : 0 < length dictionary
  pub fits : length dictionary < 1048576
  pub limit_fits : chunk_limit_of limit < 65536

module _ (c : Crypto) (laws : IsCrypto c) (signer : Identity) (is : IsSigner c signer) where
  signs : (message : Bytes) → (signature : Bytes) × (sign c signer message ≡ ok signature)
  unfolding sign
  signs message =
      let same = bytes_eq_refl (drop 32 signer.public_key) in
      let key = c.new_key_from_seed (drop 32 signer.private_key) in
      let digest = take 32 (c.sum512 message) in
      (c.ed_sign key digest ++ digest, rw (is.private, is.matching, same) refl)

  built :
      (id : NetworkId) (total update_id index : ℕ) (chunk : Bytes) {signature : Bytes}
      → sign c signer (signed_part id total update_id index chunk) ≡ ok signature
      → build_chunk c signer id total update_id index chunk
        ≡ ok (framed (signed_part id total update_id index chunk) signature)
  unfolding build_chunk
  built id total update_id index chunk h = ground (arith, h)

  -- The chunks from `index` on: built, and read back to the rest of the dictionary.
  record IsReadBack (id : NetworkId) (total update_id limit index : ℕ) (rest : Bytes)
      (result : Result Error (List Bytes)) : Type 0 where
    chunks : List Bytes
    parsed : List SignedChunk
    are_built : result ≡ ok chunks
    are_parsed : parse_each c (public_identity signer) chunks ≡ ok parsed
    joined : concat (map (λ s. s.data_bytes) parsed) ≡ rest
    consecutive : AreConsecutive id total update_id limit index parsed

  build_loop-IsReadBack :
      (id : NetworkId) (total update_id limit rounds index : ℕ) (rest : Bytes)
      → validate_hex_id id 16 ≡ ok tt
      → 0 < update_id
      → update_id < 2 ^ 64
      → total < 1048576
      → 0 < limit
      → limit < 65536
      → length rest ≤ rounds
      → min index total + length rest ≡ total
      → IsReadBack id total update_id limit
          (min index total)
          rest
          (build_loop c signer id total update_id limit rounds index rest)
  unfolding build_loop
  build_loop-IsReadBack id total update_id limit rounds index [] v u uf t l lf r h = record {
    chunks = [];
    parsed = [];
    are_built = refl;
    are_parsed = refl;
    joined = refl;
    consecutive = omega (arith, h);
  }
  build_loop-IsReadBack id total update_id limit zero index (b ∷ rest) v u uf t l lf r h =
      absurd (omega arith)
  build_loop-IsReadBack id total update_id limit (suc rounds) index (b ∷ rest) v u uf t l lf r h =
      let chunk = take limit (b ∷ rest) in
      let taken = length-take limit (b ∷ rest) in
      let left = length-drop limit (b ∷ rest) in
      let signed = signed_part id total update_id index chunk in
      let (signature, made) = signs signed in
      let (size, accepted) = verify-sign c laws signer signed is.size made in
      let fits : IsFramed id total update_id index chunk = record {
        valid = v;
        some_id = u;
        id_fits = uf;
        some_total = omega arith;
        total_fits = t;
        inside = omega arith;
        short = omega arith;
      } in
      let read =
        parse-framed id total update_id index chunk signature fits size c (public_identity signer)
          accepted in
      let more =
        build_loop-IsReadBack id total update_id limit rounds (index + limit)
          (drop limit (b ∷ rest)) v u uf t l lf (omega arith) (omega arith) in
      let here : index ≡ min index total = omega arith in
      let next : min (index + limit) total ≡ min index total + length chunk = omega arith in
      record {
        chunks = framed signed signature ∷ more.chunks;
        parsed = read_chunk_of id total update_id index chunk signature ∷ more.parsed;
        are_built = rw (built id total update_id index chunk made, more.are_built) refl;
        are_parsed = rw (read, more.are_parsed) refl;
        joined = ap (λ after. chunk ++ after) more.joined ∙ take-append-drop limit (b ∷ rest);
        consecutive = (
          refl,
          refl,
          refl,
          here,
          omega arith,
          omega arith,
          subst (λ i. AreConsecutive id total update_id limit i more.parsed) next more.consecutive,
        );
      }

  -- With the documented behaviour of Ed25519 and SHA-512, a signer whose private key belongs to its
  -- public one, a valid network identifier, an update identifier from 1 below 2^64, a dictionary of
  -- 1 to 2^20 - 1 bytes and a chunk size that fits 16 bits: `BuildSignedChunks` returns chunks, all
  -- of which `ParseSignedChunk` accepts under the signer's public identity. They carry the network,
  -- the update identifier and the total length, stand one behind the other from 0 on, have from one
  -- byte to the chunk size, and their data joined is the dictionary.
  pub parse_each-build_signed_chunks :
      (id : NetworkId) (dictionary : Bytes) (update_id : ℕ) (limit : ℤ)
      → IsBuildable id dictionary update_id limit
      → (chunks : List Bytes) × (parsed : List SignedChunk) × (build_signed_chunks c id dictionary
            update_id limit signer
          ≡ ok chunks)
        × (parse_each c (public_identity signer) chunks ≡ ok parsed)
        × (concat (map (λ s. s.data_bytes) parsed) ≡ dictionary)
        × AreConsecutive id (length dictionary) update_id (chunk_limit_of limit) 0 parsed
  unfolding build_signed_chunks
  parse_each-build_signed_chunks id dictionary update_id limit h =
      let n = length dictionary in
      let some : (n == 0) ≡ false = ground (arith, h.not_empty) in
      let short : leb 1048576 n ≡ false = ground (arith, h.fits) in
      let named : (update_id == 0) ≡ false = ground (arith, h.some_id) in
      let framing : ltb 65535 (chunk_limit_of limit) ≡ false = ground (arith, h.limit_fits) in
      let loop =
        build_loop-IsReadBack id n update_id (chunk_limit_of limit) n 0 dictionary h.valid h.some_id
          h.id_fits h.fits (chunk_limit_positive limit) h.limit_fits (omega arith) (omega arith) in
      let start : min 0 n ≡ 0 = omega arith in
      (
        loop.chunks,
        loop.parsed,
        ground (arith, h.valid, loop.are_built),
        loop.are_parsed,
        loop.joined,
        subst (λ i. AreConsecutive id n update_id (chunk_limit_of limit) i loop.parsed) start
            loop.consecutive,
      )
