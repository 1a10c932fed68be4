-- ===== src/Identity/Binary.antt =====
-- The binary form of an identity is parsed back.
use mathlib.Core.List.{append-nil}
use ztgotroller.Base.{
  ◌≡◌, refl, sym, ap, ◌∙◌, arith, true, false, List, [], ◌∷◌, ◌++◌, Bytes, take, drop, ok,
  hex_encode, slice, byte_at, concat, size_of, length-concat, drop-parts, slice-part, byte-part,
  Bool-cases, inl, inr, ◌⊎◌,
}
use ztgotroller.Domain.Ids.{id_bytes}
use ztgotroller.Domain.Ids.Text.{valid-IsIdText}
use ztgotroller.Identity.{
  Identity, no_key, parse_address, parse_private, parse_binary, private_part, marshal_binary,
}
use ztgotroller.Identity.Text.{IsIdentity, parse_address_of_valid}

-- The written parts.
abbrev parts : Identity → List Bytes → List Bytes
parts identity tail = id_bytes identity.address ∷ (0 ∷ []) ∷ identity.public_key ∷ tail

module _ (identity : Identity) (h : IsIdentity identity) (tail : List Bytes) where
  sizes : size_of (id_bytes identity.address ∷ (0 ∷ []) ∷ identity.public_key ∷ []) ≡ 70
  sizes = omega (arith, h.public_size, (valid-IsIdText 5 identity.address h.valid).size)

  first : take 5 (concat (parts identity tail)) ≡ id_bytes identity.address
  first =
      slice-part [] (id_bytes identity.address) ((0 ∷ []) ∷ identity.public_key ∷ tail) 0 5 refl
        (omega (arith, (valid-IsIdText 5 identity.address h.valid).size))

  kind : byte_at (concat (parts identity tail)) 5 ≡ 0
  kind =
      byte-part (id_bytes identity.address ∷ []) 0 (identity.public_key ∷ tail) 5
        (omega (arith, (valid-IsIdText 5 identity.address h.valid).size))

  key : slice 6 70 (concat (parts identity tail)) ≡ identity.public_key
  key =
      slice-part (id_bytes identity.address ∷ (0 ∷ []) ∷ []) identity.public_key tail 6 70
        (omega (arith, (valid-IsIdText 5 identity.address h.valid).size))
        (omega (arith, h.public_size))

  address_read :
      parse_address (hex_encode (take 5 (concat (parts identity tail)))) ≡ ok identity.address
  address_read =
      ap (λ b. parse_address (hex_encode b)) first
      ∙ (ap parse_address (valid-IsIdText 5 identity.address h.valid).encoded
          ∙ parse_address_of_valid identity.address h.valid)

written :
    (identity : Identity) (tail : List Bytes)
    → IsIdentity identity
    → private_part identity ≡ concat tail
    → marshal_binary identity ≡ ok (concat (parts identity tail))
unfolding marshal_binary
written identity tail h p = rw (h.valid, h.not_reserved, p) refl

read :
    (identity : Identity) (tail : List Bytes)
    → IsIdentity identity
    → (size_of tail ≡ 1) ⊎ (size_of tail ≡ 65)
    → parse_private identity.address (concat (parts identity tail)) ≡ ok identity
    → parse_binary (concat (parts identity tail)) ≡ ok identity
unfolding parse_binary
read identity tail h s p =
    let length = length-concat (parts identity tail) in
    let front = sizes identity h tail in
    rw (address_read identity h tail, h.not_reserved, kind identity h tail) (ground (arith))

private_read :
    (identity : Identity)
    → IsIdentity identity
    → identity.has_private ≡ true
    → parse_private identity.address
        (concat (parts identity ((64 ∷ []) ∷ identity.private_key ∷ [])))
      ≡ ok identity
unfolding parse_private
private_read identity h p =
    let tail : List Bytes = (64 ∷ []) ∷ identity.private_key ∷ [] in
    let front : List Bytes = id_bytes identity.address ∷ (0 ∷ []) ∷ identity.public_key ∷ [] in
    let length = length-concat (parts identity tail) in
    let size = sizes identity h tail in
    let private_size = h.private_size in
    let at = byte-part front 64 (identity.private_key ∷ []) 70 size in
    let secret : drop 71 (concat (parts identity tail)) ≡ identity.private_key =
      drop-parts (front ++ ((64 ∷ []) ∷ [])) (identity.private_key ∷ []) 71 (omega (arith, size))
      ∙ append-nil identity.private_key in
    let same : record identity { has_private = true } ≡ identity =
      ap (λ b. record identity { has_private = b }) (sym p) in
    let long : size_of (parts identity tail) ≡ 135 = omega arith in
    rw (at, length, long, key identity h tail, secret) (ap ok same)

public_read :
    (identity : Identity)
    → IsIdentity identity
    → identity.has_private ≡ false
    → parse_private identity.address (concat (parts identity ((0 ∷ []) ∷ []))) ≡ ok identity
unfolding parse_private
public_read identity h p =
    let tail : List Bytes = (0 ∷ []) ∷ [] in
    let front : List Bytes = id_bytes identity.address ∷ (0 ∷ []) ∷ identity.public_key ∷ [] in
    let length = length-concat (parts identity tail) in
    let size = sizes identity h tail in
    let at = byte-part front 0 [] 70 size in
    let same : record identity { private_key = no_key; has_private = false } ≡ identity =
      ap (λ k. record identity { private_key = k; has_private = false }) (sym (h.none_kept p))
      ∙ ap (λ b. record identity { has_private = b }) (sym p) in
    let long : size_of (parts identity tail) ≡ 71 = omega arith in
    rw (at, length, long, key identity h tail) (ap ok same)

private_part_of :
    (identity : Identity)
    → ((identity.has_private ≡ true)
        × (private_part identity ≡ concat ((64 ∷ []) ∷ identity.private_key ∷ [])))
      ⊎ ((identity.has_private ≡ false) × (private_part identity ≡ concat ((0 ∷ []) ∷ [])))
unfolding private_part
private_part_of identity = elim (Bool-cases identity.has_private) [
  | inl p ↦ inl (p, rw p refl)
  | inr p ↦ inr (p, rw p refl)
]

-- A well-formed identity, with a private key or without, is written by `MarshalBinary`, and
-- `ParseBinary` reads it back.
pub parse_binary-marshal_binary :
    (identity : Identity)
    → IsIdentity identity
    → (bytes : Bytes) × (marshal_binary identity ≡ ok bytes) × (parse_binary bytes ≡ ok identity)
parse_binary-marshal_binary identity h = elim (private_part_of identity) [
  | inl (p, part) ↦
      let tail : List Bytes = (64 ∷ []) ∷ identity.private_key ∷ [] in
      let size = h.private_size in
      (
        concat (parts identity tail),
        written identity tail h part,
        read identity tail h (inr (omega arith)) (private_read identity h p),
      )
  | inr (p, part) ↦
      let tail : List Bytes = (0 ∷ []) ∷ [] in
      (
        concat (parts identity tail),
        written identity tail h part,
        read identity tail h (inl refl) (public_read identity h p),
      )
]
