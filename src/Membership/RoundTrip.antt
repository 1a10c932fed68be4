-- ===== src/Membership/RoundTrip.antt =====
-- The binary form of a certificate is parsed back.
use mathlib.Core.List.{append_assoc, append-nil}
use ztgotroller.Base.{
  ◌+◌, ◌*◌, ◌^◌, ◌≤◌, ◌<◌, ◌≡◌, refl, sym, ap, ◌∙◌, arith, List, [], ◌∷◌, ◌++◌, Bytes, All, length,
  drop, concat, length-concat, slice-at, byte-at, number-at, drop-at, put_be, length-put_be,
  length-append, hex_encode, ok,
}
use ztgotroller.Domain.Ids.{NodeId, validate_hex_id, id_bytes}
use ztgotroller.Domain.Ids.Text.{valid-IsIdText, parse_node_id_of_valid}
use ztgotroller.Membership.{
  ComQualifier, CertificateOfMembership, check_signer, validate_certificate, qualifier_bytes,
  marshal_certificate, read_qualifiers, parse_signer, parse_certificate,
}

-- A qualifier of 64-bit numbers.
pub record IsQualifier (q : ComQualifier) : Type 0 where
  pub id_fits : q.id < 2 ^ 64
  pub value_fits : q.value < 2 ^ 64
  pub delta_fits : q.max_delta < 2 ^ 64

length-qualifier_bytes : (qs : List ComQualifier) → length (qualifier_bytes qs) ≡ length qs * 24
unfolding qualifier_bytes
length-qualifier_bytes [] = refl
length-qualifier_bytes (q ∷ qs) =
    let last = put_be 8 q.max_delta ++ qualifier_bytes qs in
    omega (
      arith,
      length-qualifier_bytes qs,
      length-append (put_be 8 q.id) (put_be 8 q.value ++ last),
      length-append (put_be 8 q.value) last,
      length-append (put_be 8 q.max_delta) (qualifier_bytes qs),
      length-put_be 8 q.id,
      length-put_be 8 q.value,
      length-put_be 8 q.max_delta,
    )

read_qualifiers-bytes :
    (qs : List ComQualifier) (rest : Bytes)
    → All IsQualifier qs
    → read_qualifiers (length qs) (qualifier_bytes qs ++ rest) ≡ qs
unfolding read_qualifiers qualifier_bytes
read_qualifiers-bytes [] rest h = refl
read_qualifiers-bytes (q ∷ qs) rest (is, h) =
    let a = put_be 8 q.id in
    let b = put_be 8 q.value in
    let d = put_be 8 q.max_delta in
    let tail = qualifier_bytes qs ++ rest in
    let parts : List Bytes = a ∷ b ∷ d ∷ tail ∷ [] in
    let sizes : (length a ≡ 8) × (length b ≡ 8) × (length d ≡ 8) =
      (length-put_be 8 q.id, length-put_be 8 q.value, length-put_be 8 q.max_delta) in
    let whole : (a ++ (b ++ (d ++ qualifier_bytes qs))) ++ rest ≡ concat parts =
      append_assoc a (b ++ (d ++ qualifier_bytes qs)) rest
      ∙ ap (λ t. a ++ t)
          (append_assoc b (d ++ qualifier_bytes qs) rest
            ∙ ap (λ t. b ++ t)
                (append_assoc d (qualifier_bytes qs) rest
                  ∙ ap (λ t. d ++ t) (sym (append-nil tail)))) in
    let first = number-at parts 0 0 (omega arith) refl 8 8 q.id refl refl is.id_fits in
    let second =
      number-at parts 1 8 (omega arith) (omega (arith, sizes)) 16 8 q.value refl refl
        is.value_fits in
    let third =
      number-at parts 2 16 (omega arith) (omega (arith, sizes)) 24 8 q.max_delta refl refl
        is.delta_fits in
    let left : drop 24 (concat parts) ≡ tail =
      drop-at parts 3 24 (omega arith) (omega (arith, sizes)) ∙ append-nil tail in
    rw (whole, first, second, third, left) (ap (◌∷◌ q) (read_qualifiers-bytes qs rest h))

pub validate_certificate-signer :
    (x : CertificateOfMembership)
    → validate_certificate x ≡ ok tt
    → validate_hex_id x.signed_by 10 ≡ ok tt
unfolding validate_certificate check_signer
validate_certificate-signer x h = ground arith

validate_certificate-count :
    (x : CertificateOfMembership)
    → validate_certificate x ≡ ok tt
    → (0 < length x.qualifiers) × (length x.qualifiers ≤ 8)
unfolding validate_certificate
validate_certificate-count x h = (ground arith, ground arith)

signer_read :
    (id : NodeId) → validate_hex_id id 10 ≡ ok tt → parse_signer (hex_encode (id_bytes id)) ≡ ok id
unfolding parse_signer
signer_read id h = ground (arith, parse_node_id_of_valid id h)

-- A certificate that `validate` accepts, of 64-bit numbers and with a signature of 96 bytes, is
-- written by `MarshalBinary`, and `ParseCertificateOfMembership` reads it back.
pub parse_certificate-marshal_certificate :
    (x : CertificateOfMembership)
    → validate_certificate x ≡ ok tt
    → All IsQualifier x.qualifiers
    → length x.signature ≡ 96
    → (bytes : Bytes) × (marshal_certificate x ≡ ok bytes) × (parse_certificate bytes ≡ ok x)
unfolding marshal_certificate parse_certificate
parse_certificate-marshal_certificate x valid fits size =
    let n = length x.qualifiers in
    let (some_qualifier, few) = validate_certificate-count x valid in
    let signer = validate_certificate-signer x valid in
    let qs = qualifier_bytes x.qualifiers in
    let id = id_bytes x.signed_by in
    let parts : List Bytes = (1 ∷ []) ∷ put_be 2 n ∷ qs ∷ id ∷ x.signature ∷ [] in
    let sizes : (length (put_be 2 n) ≡ 2) × (length qs ≡ n * 24) × (length id ≡ 5) = (
      length-put_be 2 n,
      length-qualifier_bytes x.qualifiers,
      (valid-IsIdText 5 x.signed_by signer).size,
    ) in
    let whole : length (concat parts) ≡ 104 + n * 24 =
      length-concat parts ∙ omega (arith, sizes, size) in
    let version = byte-at parts 0 0 (omega arith) refl 1 refl in
    let count = number-at parts 1 1 (omega arith) refl 3 2 n refl refl (omega (arith, few)) in
    let read =
      ap (read_qualifiers n) (drop-at parts 2 3 (omega arith) (omega (arith, sizes)))
      ∙ read_qualifiers-bytes x.qualifiers _ fits in
    let signed =
      slice-at parts 3 (3 + n * 24) (omega arith) (omega (arith, sizes)) (3 + n * 24 + 5)
        (omega (arith, sizes)) in
    let signature =
      drop-at parts 4 (3 + n * 24 + 5) (omega arith) (omega (arith, sizes))
      ∙ append-nil x.signature in
    (
      concat parts,
      rw valid refl,
      rw (whole, version, count, read, signed, signer_read x.signed_by signer, signature, valid)
          (ground (arith, some_qualifier, few)),
    )
