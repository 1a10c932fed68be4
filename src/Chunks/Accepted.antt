-- ===== src/Chunks/Accepted.antt =====
-- What a chunk that the parser accepts satisfies.
use ztgotroller.Base.{
  ℕ, ◌+◌, ◌-◌, ◌≤◌, ◌<◌, ◌≡◌, arith, true, Bytes, length, take, drop, ok, slice, get_be,
  length-take, length-drop, hex_encode, Result-cases, inl, inr,
}
use ztgotroller.Domain.Ids.{parse_network_id}
use ztgotroller.Identity.{Identity, verify}
use ztgotroller.Identity.Primitives.{Crypto}
use ztgotroller.Chunks.{SignedChunk, parse_framed, parse_signed_chunk}

-- A range of the dictionary within the limits, under the signer's signature.
pub record IsAccepted (c : Crypto) (signer : Identity) (payload : Bytes) (s : SignedChunk)
    : Type 0 where
  pub verified : verify c signer s.signed_payload s.signature ≡ true
  pub signed : s.signed_payload ≡ take (length payload - 99) payload
  pub signature : s.signature ≡ drop (length payload - 96) payload
  pub named : 0 < s.update_id
  pub total : s.total_length < 1048576
  pub range : s.index + length s.data_bytes ≤ s.total_length

parse_framed-IsAccepted :
    (c : Crypto) (payload network_id : Bytes) (n : ℕ) (signer : Identity) {s : SignedChunk}
    → length payload ≡ 126 + n
    → parse_framed c payload network_id n signer ≡ ok s
    → IsAccepted c signer payload s
unfolding parse_framed
parse_framed-IsAccepted c payload network_id n signer {s} size h =
    let front : length payload - 99 ≡ 27 + n = omega arith in
    let back : length payload - 96 ≡ 30 + n = omega arith in
    let taken = length-take (10 + n - 10) (drop 10 payload) in
    let rest = length-drop 10 payload in
    let width : length (slice 10 (10 + n) payload) ≡ n = omega arith in
    record {
      verified = ground arith;
      signed = rw front (ground arith);
      signature = rw back (ground arith);
      named = ground arith;
      total = ground arith;
      range = ground arith;
    }

-- A chunk that `ParseSignedChunk` accepts has a valid signature of the signer over all but the last
-- 99 bytes of the payload, an update identifier other than zero, and a total length below 2^20 that
-- its range stays within.
pub parse_signed_chunk-IsAccepted :
    (c : Crypto) (payload : Bytes) (signer : Identity) {s : SignedChunk}
    → parse_signed_chunk c payload signer ≡ ok s
    → IsAccepted c signer payload s
unfolding parse_signed_chunk
parse_signed_chunk-IsAccepted c payload signer {s} h =
    elim (Result-cases (parse_network_id (hex_encode (slice 0 8 payload)))) [
      | inr (e, bad) ↦ absurd (ground arith)
      | inl (id, good) ↦
          parse_framed-IsAccepted c payload id (get_be (slice 8 10 payload)) signer {s = s}
            (ground arith) (ground arith)
    ]
