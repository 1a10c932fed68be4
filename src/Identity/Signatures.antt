-- ===== src/Identity/Signatures.antt =====
-- Signatures of an identity.
use ztgotroller.Base.{
  ◌≡◌, ap, ◌∙◌, arith, true, ◌++◌, Bytes, length, take, drop, ok, bytes_eq_iff, bytes_eq_refl,
  length-append, length-take, length-drop, take-append_length, drop-append_length,
}
use ztgotroller.Identity.{Identity, public_identity, sign, verify, signature_length}
use ztgotroller.Identity.Primitives.{Crypto, IsCrypto}

module _ (c : Crypto) (laws : IsCrypto c) where
  -- What a successful `Sign` found and returned.
  sign-inversion :
      (identity : Identity) (message : Bytes) {signature : Bytes}
      → sign c identity message ≡ ok signature
      → (drop 32 (c.new_key_from_seed (drop 32 identity.private_key)) ≡ drop 32 identity.public_key)
        × (signature
            ≡ c.ed_sign
                (c.new_key_from_seed (drop 32 identity.private_key))
                (take 32 (c.sum512 message))
              ++ take 32 (c.sum512 message))
  unfolding sign
  sign-inversion identity message h =
      let key = c.new_key_from_seed (drop 32 identity.private_key) in
      ((bytes_eq_iff (drop 32 key) (drop 32 identity.public_key)).0 (ground arith), ground arith)

  length-signature :
      (identity : Identity) (message : Bytes) {signature : Bytes}
      → sign c identity message ≡ ok signature
      → length signature ≡ signature_length
  length-signature identity message {signature} h =
      let digest = take 32 (c.sum512 message) in
      let key = c.new_key_from_seed (drop 32 identity.private_key) in
      omega (
        arith,
        ap length (sign-inversion identity message h).1,
        length-append (c.ed_sign key digest) digest,
        length-take 32 (c.sum512 message),
        laws.length-sum512 message,
        laws.length-ed_sign key digest,
      )

  verify_written :
      (identity : Identity) (message : Bytes)
      → length identity.private_key ≡ 64
      → drop 32 (c.new_key_from_seed (drop 32 identity.private_key)) ≡ drop 32 identity.public_key
      → verify c (public_identity identity) message (
          c.ed_sign
            (c.new_key_from_seed (drop 32 identity.private_key))
            (take 32 (c.sum512 message))
          ++ take 32 (c.sum512 message))
        ≡ true
  unfolding verify public_identity
  verify_written identity message size key =
      let digest = take 32 (c.sum512 message) in
      let seed = drop 32 identity.private_key in
      let signed = c.ed_sign (c.new_key_from_seed seed) digest in
      let front = take-append_length signed digest 64 (laws.length-ed_sign _ digest) in
      let back = drop-append_length signed digest 64 (laws.length-ed_sign _ digest) in
      let accepted =
        laws.ed_verify-ed_sign seed digest (omega (arith, length-drop 32 identity.private_key)) in
      rw (front, back, bytes_eq_refl digest, ← key) accepted

  -- With the documented sizes and acceptance of Ed25519 and SHA-512: a signature that `Sign` makes
  -- with a private key of 64 bytes has 96 bytes, and `Verify` with the public part accepts it.
  pub verify-sign :
      (identity : Identity) (message : Bytes) {signature : Bytes}
      → length identity.private_key ≡ 64
      → sign c identity message ≡ ok signature
      → (length signature ≡ signature_length)
        × (verify c (public_identity identity) message signature ≡ true)
  verify-sign identity message {signature} size h =
      let (key, is) = sign-inversion identity message h in
      (
        length-signature identity message h,
        ap (verify c (public_identity identity) message) is
            ∙ verify_written identity message size key,
      )
