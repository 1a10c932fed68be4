-- ===== src/Revocation/Issued.antt =====
-- A revocation that the controller issues is accepted.
use ztgotroller.Base.{
  ◌≡◌, refl, sym, ap, ◌∙◌, arith, true, Bytes, Option, none, some, length, ℤ, pos, negsuc, ok,
  bytes_eq, bytes_eq_refl, Result-cases, inl, inr,
}
use ztgotroller.Domain.Ids.{NetworkId, NodeId, validate_hex_id}
use ztgotroller.Identity.{Identity, public_identity, sign}
use ztgotroller.Identity.Primitives.{Crypto, IsCrypto}
use ztgotroller.Identity.Signatures.{verify-sign}
use ztgotroller.Revocation.{
  Revocation, base_bytes, signed_bytes, sign_revocation, new_com_revocation, com_draft,
  verify_revocation, credential_type_com,
}

-- The signature is no part of what is signed.
signed_bytes-signature :
    (r : Revocation) (signature : Bytes)
    → signed_bytes (record r { signature = signature }) ≡ signed_bytes r
unfolding base_bytes
signed_bytes-signature r signature = refl

-- What a new revocation says.
pub record IsRevocation (network_id : NetworkId) (target : NodeId) (threshold : ℤ)
    (signer : Identity) (r : Revocation) : Type 0 where
  pub network : r.network_id ≡ network_id
  pub target_is : r.target ≡ target
  pub threshold_is : threshold ≡ pos r.threshold
  pub signed_by : r.signed_by ≡ signer.address
  pub type_is : r.type ≡ credential_type_com

module _ (c : Crypto) (laws : IsCrypto c) where
  sign_revocation-verified :
      (signer : Identity) (r : Revocation) {s : Revocation}
      → length signer.private_key ≡ 64
      → r.signed_by ≡ signer.address
      → sign_revocation c signer r ≡ ok s
      → (signature : Bytes) × (s ≡ record r { signature = signature })
        × (verify_revocation c (record r { signature = signature }) (public_identity signer) ≡ true)
  unfolding verify_revocation public_identity
  sign_revocation-verified signer r {s} size by h =
      elim (Result-cases (sign c signer (signed_bytes r))) [
        | inr (e, bad) ↦ absurd (ground arith)
        | inl (signature, made) ↦
            let (long, accepted) = verify-sign c laws signer (signed_bytes r) size made in
            let same : bytes_eq signer.address r.signed_by ≡ true =
              rw by (bytes_eq_refl signer.address) in
            (signature, ground arith, rw (signed_bytes-signature r signature, same, accepted) refl)
      ]

  -- With the documented behaviour of Ed25519 and SHA-512: a revocation that `NewCOMRevocation` makes
  -- with a signer whose private key has 64 bytes names the network, the target and the threshold,
  -- and `Verify` accepts it under the signer's public identity.
  pub verify_revocation-new_com_revocation :
      (network_id : NetworkId) (target : NodeId) (threshold : ℤ) (signer : Identity)
      (random : Option Bytes) {r : Revocation}
      → length signer.private_key ≡ 64
      → new_com_revocation c network_id target threshold signer random ≡ ok r
      → IsRevocation network_id target threshold signer r
        × (verify_revocation c r (public_identity signer) ≡ true)
  unfolding new_com_revocation
  verify_revocation-new_com_revocation network_id target (negsuc n) signer random size h =
      elim (Result-cases (validate_hex_id target 10)) [
        | inl (u, good) ↦ absurd (ground arith)
        | inr (e, bad) ↦ absurd (ground arith)
      ]
  verify_revocation-new_com_revocation network_id target (pos n) signer none size h =
      elim (Result-cases (validate_hex_id target 10)) [
        | inl (u, good) ↦ absurd (ground arith)
        | inr (e, bad) ↦ absurd (ground arith)
      ]
  verify_revocation-new_com_revocation network_id target (pos n) signer (some bytes) {r} size h =
      elim (Result-cases (validate_hex_id target 10)) [
        | inr (e, bad) ↦ absurd (ground arith)
        | inl (u, good) ↦
            let draft = com_draft network_id target n signer.address bytes in
            let (signature, is, verified) =
              sign_revocation-verified signer draft size refl (ground arith) in
            (
              record {
                network = ap (λ (x : Revocation). x.network_id) is;
                target_is = ap (λ (x : Revocation). x.target) is;
                threshold_is = ap (λ (x : Revocation). pos x.threshold) (sym is);
                signed_by = ap (λ (x : Revocation). x.signed_by) is;
                type_is = ap (λ (x : Revocation). x.type) is;
              },
              ap (λ x. verify_revocation c x (public_identity signer)) is ∙ verified,
            )
      ]
