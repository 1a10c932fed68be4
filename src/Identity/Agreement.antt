-- ===== src/Identity/Agreement.antt =====
-- The key agreement of two identities.
use ztgotroller.Base.{
  ℕ, zero, suc, ◌-◌, ◌≤◌, ◌<◌, ◌≡◌, refl, sym, ap, ◌∙◌, arith, true, [], Bytes, length, take, ok, ℤ,
  pos, negsuc, length-append, length-take, Option-cases, inl, inr,
}
use ztgotroller.Identity.{Identity, fill, agree_raw_public, agree}
use ztgotroller.Identity.Primitives.{Crypto, IsCrypto, HasAgreement}

module _ (c : Crypto) (laws : IsCrypto c) where
  length-fill :
      (rounds room : ℕ) (digest : Bytes)
      → length digest ≡ 64
      → room ≤ rounds
      → length (fill c rounds room digest) ≡ room
  unfolding fill
  length-fill zero room digest size h = omega arith
  length-fill (suc rounds) room digest size h =
      let part = length-take room digest in
      let rest = room - length (take room digest) in
      let more = fill c rounds rest (c.sum512 digest) in
      let inner = length-fill rounds rest (c.sum512 digest) (laws.length-sum512 digest) in
      ground
        (arith, inner, length-append (take room digest) more, length-append (take room digest) [])

  -- With the documented size of a SHA-512 sum: a key that `Agree` returns has the length that was
  -- asked for, which is from 1 to 4096.
  pub length-agree :
      (identity peer : Identity) (wanted : ℤ) {key : Bytes}
      → agree c identity peer wanted ≡ ok key
      → (wanted ≡ pos (length key)) × (0 < length key) × (length key ≤ 4096)
  unfolding agree agree_raw_public
  length-agree identity peer (negsuc n) h = absurd (ground arith)
  length-agree identity peer (pos n) h =
      elim (Option-cases (c.x25519 (take 32 identity.private_key) (take 32 peer.public_key))) [
        | inl none ↦ absurd (ground arith)
        | inr (raw, some) ↦
            let size = length-fill n n (c.sum512 raw) (laws.length-sum512 raw) (omega arith) in
            ground (arith, size)
      ]

-- The keys of an identity with a private key, as X25519 accepts and derives them.
pub record IsKeyPair (c : Crypto) (public_of : Bytes → Bytes) (identity : Identity) : Type 0 where
  pub private : identity.has_private ≡ true
  pub private_accepted : c.is_private_key (take 32 identity.private_key) ≡ true
  pub public_accepted : c.is_public_key (take 32 identity.public_key) ≡ true
  pub derived : take 32 identity.public_key ≡ public_of (take 32 identity.private_key)

-- With X25519 symmetric on derived public keys: two identities with proper key pairs agree on the
-- same key, or meet the same error, whatever length they ask for.
pub agree_comm :
    (c : Crypto) (public_of : Bytes → Bytes)
    → HasAgreement c public_of
    → (a b : Identity) → IsKeyPair c public_of a
    → IsKeyPair c public_of b
    → (wanted : ℤ) → agree c a b wanted ≡ agree c b a wanted
unfolding agree agree_raw_public
agree_comm c public_of laws a b ha hb (negsuc n) = rw (ha.private, hb.private) refl
agree_comm c public_of laws a b ha hb (pos n) =
    let shared : c.x25519 (take 32 a.private_key) (take 32 b.public_key)
        ≡ c.x25519 (take 32 b.private_key) (take 32 a.public_key) =
      ap (c.x25519 (take 32 a.private_key)) hb.derived
      ∙ (laws.x25519_comm (take 32 a.private_key) (take 32 b.private_key)
          ∙ ap (c.x25519 (take 32 b.private_key)) (sym ha.derived)) in
    rw
      (
        ha.private, hb.private, ha.private_accepted, hb.private_accepted, ha.public_accepted,
        hb.public_accepted, shared,
      )
      refl
