-- ===== src/Membership/Issued.antt =====
-- A certificate that the controller issues is accepted.
use ztgotroller.Base.{
  ℕ, ◌≡◌, refl, ap, ◌∙◌, arith, true, false, List, Bytes, length, ok, bytes_eq, bytes_eq_iff,
  bytes_eq_refl, Result-cases, inl, inr,
}
use ztgotroller.Domain.Ids.{NetworkId, validate_hex_id}
use ztgotroller.Identity.{Identity, public_identity, sign}
use ztgotroller.Identity.Primitives.{Crypto, IsCrypto}
use ztgotroller.Identity.Signatures.{verify-sign}
use ztgotroller.Membership.{
  CertificateOfMembership, ComQualifier, is_unsorted, check_signer, validate_certificate,
  must_controller_id, parse_hex_uint, qualifier_bytes, identity_public_hash, com_qualifiers,
  sign_certificate, new_certificate, verify_certificate,
}

com_qualifiers_valid :
    (timestamp max_delta network issued : ℕ) (hash : Bytes)
    → (length (com_qualifiers timestamp max_delta network issued hash) ≡ 7)
      × (is_unsorted (com_qualifiers timestamp max_delta network issued hash) ≡ false)
unfolding com_qualifiers is_unsorted
com_qualifiers_valid timestamp max_delta network issued hash = (refl, refl)

issued_valid :
    (timestamp max_delta network issued : ℕ) (hash signer signature : Bytes)
    → validate_hex_id signer 10 ≡ ok tt
    → validate_certificate (record {
      qualifiers = com_qualifiers timestamp max_delta network issued hash;
      signed_by = signer;
      signature = signature;
    })
      ≡ ok tt
unfolding validate_certificate check_signer
issued_valid timestamp max_delta network issued hash signer signature h =
    let (count, sorted) = com_qualifiers_valid timestamp max_delta network issued hash in
    ground (arith, h, count, sorted)

-- What a new certificate carries.
pub record IsIssued (timestamp max_delta : ℕ) (network_id : NetworkId) (issued_to signer : Identity)
    (x : CertificateOfMembership) : Type 0 where
  pub network : ℕ
  pub issued : ℕ
  pub hash : Bytes
  pub network_read : parse_hex_uint network_id ≡ ok network
  pub issued_read : parse_hex_uint issued_to.address ≡ ok issued
  pub qualifiers : x.qualifiers ≡ com_qualifiers timestamp max_delta network issued hash
  pub signed_by : x.signed_by ≡ signer.address

module _ (c : Crypto) (laws : IsCrypto c) where
  sign_certificate-inversion :
      (signer : Identity) (qs : List ComQualifier) {x : CertificateOfMembership}
      → sign_certificate c signer qs ≡ ok x
      → (signature : Bytes) × (sign c signer (qualifier_bytes qs) ≡ ok signature)
        × (x ≡ record { qualifiers = qs; signed_by = signer.address; signature = signature })
  unfolding sign_certificate
  sign_certificate-inversion signer qs {x} h =
      elim (Result-cases (sign c signer (qualifier_bytes qs))) [
        | inr (e, bad) ↦ absurd (ground arith)
        | inl (signature, made) ↦ (signature, made, ground arith)
      ]

  signed-verified :
      (network_id : NetworkId) (signer : Identity) (qs : List ComQualifier) (signature : Bytes)
      → length signer.private_key ≡ 64
      → signer.address ≡ must_controller_id network_id
      → validate_certificate
          (record { qualifiers = qs; signed_by = signer.address; signature = signature })
        ≡ ok tt
      → sign c signer (qualifier_bytes qs) ≡ ok signature
      → verify_certificate c
          (record { qualifiers = qs; signed_by = signer.address; signature = signature })
          network_id
          (public_identity signer)
        ≡ ok tt
  unfolding verify_certificate public_identity
  signed-verified network_id signer qs signature size own valid made =
      let (long, accepted) = verify-sign c laws signer (qualifier_bytes qs) size made in
      let same = bytes_eq_refl signer.address in
      let from : bytes_eq signer.address (must_controller_id network_id) ≡ true =
        (bytes_eq_iff signer.address (must_controller_id network_id)).1 own in
      rw (valid, from, same, accepted) refl

  new_certificate-inversion :
      (timestamp max_delta : ℕ) (network_id : NetworkId) (issued_to signer : Identity)
      {x : CertificateOfMembership}
      → new_certificate c timestamp max_delta network_id issued_to signer ≡ ok x
      → (signer.address ≡ must_controller_id network_id)
        × (network : ℕ) × (issued : ℕ) × (hash : Bytes) × (parse_hex_uint network_id ≡ ok network)
        × (parse_hex_uint issued_to.address ≡ ok issued)
        × (sign_certificate c signer (com_qualifiers timestamp max_delta network issued hash)
            ≡ ok x)
  unfolding new_certificate
  new_certificate-inversion timestamp max_delta network_id issued_to signer {x} h =
      let own = bytes_eq_iff signer.address (must_controller_id network_id) in
      elim (Result-cases (parse_hex_uint network_id)) [
        | inr (e, bad) ↦ absurd (ground arith)
        | inl (network, n) ↦ elim (Result-cases (parse_hex_uint issued_to.address)) [
          | inr (e, bad) ↦ absurd (ground arith)
          | inl (issued, i) ↦ elim (Result-cases (identity_public_hash c issued_to)) [
            | inr (e, bad) ↦ absurd (ground arith)
            | inl (hash, k) ↦ (ground arith, network, issued, hash, n, i, ground arith)
          ]
        ]
      ]

  -- With the documented behaviour of Ed25519 and SHA-512: a certificate that
  -- `NewCertificateOfMembership` makes with a signer of a valid address and a private key of 64
  -- bytes carries the times, the network and the member, and `Verify` accepts it for that network
  -- under the signer's public identity.
  pub verify_certificate-new_certificate :
      (timestamp max_delta : ℕ) (network_id : NetworkId) (issued_to signer : Identity)
      {x : CertificateOfMembership}
      → validate_hex_id signer.address 10 ≡ ok tt
      → length signer.private_key ≡ 64
      → new_certificate c timestamp max_delta network_id issued_to signer ≡ ok x
      → IsIssued timestamp max_delta network_id issued_to signer x
        × (verify_certificate c x network_id (public_identity signer) ≡ ok tt)
  verify_certificate-new_certificate timestamp max_delta network_id issued_to signer {x} valid size
        h =
      let (own, network, issued, hash, n, i, signed) =
        new_certificate-inversion timestamp max_delta network_id issued_to signer h in
      let qs = com_qualifiers timestamp max_delta network issued hash in
      let (signature, made, is) = sign_certificate-inversion signer qs signed in
      let fine =
        issued_valid timestamp max_delta network issued hash signer.address signature valid in
      let accepted = signed-verified network_id signer qs signature size own fine made in
      (
        record {
          network = network;
          issued = issued;
          hash = hash;
          network_read = n;
          issued_read = i;
          qualifiers = ap (λ (y : CertificateOfMembership). y.qualifiers) is;
          signed_by = ap (λ (y : CertificateOfMembership). y.signed_by) is;
        },
        ap (λ y. verify_certificate c y network_id (public_identity signer)) is ∙ accepted,
      )
