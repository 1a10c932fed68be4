-- ===== src/Identity/Primitives.antt =====
-- What the identities need of Go's `crypto/sha512`, `crypto/ed25519` and `crypto/ecdh`.
use ztgotroller.Base.{◌≡◌, Bool, true, Bytes, Option, length, drop}

pub record Crypto : Type 0 where
  pub sum512 : Bytes → Bytes
  pub sum384 : Bytes → Bytes
  pub new_key_from_seed : Bytes → Bytes
  pub ed_sign : Bytes → Bytes → Bytes
  pub ed_verify : Bytes → Bytes → Bytes → Bool
  pub is_private_key : Bytes → Bool
  pub is_public_key : Bytes → Bool
  pub x25519 : Bytes → Bytes → Option Bytes

-- The documented sizes, and that a signature is accepted under the public key, which is the
-- second half of the private key.
pub record IsCrypto (c : Crypto) : Type 0 where
  pub length-sum512 : (message : Bytes) → length (c.sum512 message) ≡ 64
  pub length-sum384 : (message : Bytes) → length (c.sum384 message) ≡ 48
  pub length-ed_sign : (key message : Bytes) → length (c.ed_sign key message) ≡ 64
  pub ed_verify-ed_sign :
      (seed message : Bytes)
      → length seed ≡ 32
      → c.ed_verify
          (drop 32 (c.new_key_from_seed seed))
          message
          (c.ed_sign (c.new_key_from_seed seed) message)
        ≡ true

-- The documented part of X25519: both sides agree.
pub record HasAgreement (c : Crypto) (public_of : Bytes → Bytes) : Type 0 where
  pub x25519_comm : (a b : Bytes) → c.x25519 a (public_of b) ≡ c.x25519 b (public_of a)
