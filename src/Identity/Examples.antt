-- ===== src/Identity/Examples.antt =====
-- Identities on concrete input, and the theorems at concrete input. The cryptography is a stand-in
-- with the documented sizes.
use ztgotroller.Base.{
  ℕ, ◌≡◌, ◌≤◌, ◌<◌, refl, arith, true, [], ◌++◌, Bytes, ascii, length, take, drop, replicate, some,
  ok, pos, bytes_eq, bytes_eq_refl, length-append, length-take, length-replicate, hex_digit_value,
  parse_hex, parse_hex_from,
}
use ztgotroller.Domain.Ids.{has_uppercase, validate_hex_id}
use ztgotroller.Identity.{
  Identity, public_identity, parse, identity_string, secret_text, marshal_binary, parse_binary,
  is_reserved, sign, verify, agree, agree_raw_public, fill, signature_length,
}
use ztgotroller.Identity.Agreement.{length-agree, agree_comm}
use ztgotroller.Identity.Binary.{parse_binary-marshal_binary}
use ztgotroller.Identity.Primitives.{Crypto, IsCrypto}
use ztgotroller.Identity.Signatures.{verify-sign}
use ztgotroller.Identity.Text.{IsIdentity, parse-identity_string, parse-secret_text}

-- The first `n` bytes, with zeros where there are fewer.
abbrev pub fit : ℕ → Bytes → Bytes
fit n bytes = take n (bytes ++ replicate n 0)

length-fit : (n : ℕ) (bytes : Bytes) → length (fit n bytes) ≡ n
length-fit n bytes = omega (
  arith,
  length-take n (bytes ++ replicate n 0),
  length-append bytes (replicate n 0),
  length-replicate n (the_zero),
)
  where
    the_zero : ℕ
    the_zero = 0

abbrev sum_of : Bytes → Bytes → Bytes
sum_of key bytes = fit 32 key ++ fit 32 bytes

abbrev pub stand_in : Crypto
stand_in = record {
  sum512 = fit 64;
  sum384 = fit 48;
  new_key_from_seed = λ seed. fit 32 seed ++ fit 32 seed;
  ed_sign = λ key message. fit 32 (drop 32 key) ++ fit 32 message;
  ed_verify = λ key message signature. bytes_eq signature (fit 32 key ++ fit 32 message);
  is_private_key = λ key. true;
  is_public_key = λ key. true;
  x25519 = λ a b. some (fit 64 []);
}

pub stand_in-IsCrypto : IsCrypto stand_in
stand_in-IsCrypto = record {
  length-sum512 = length-fit 64;
  length-sum384 = length-fit 48;
  length-ed_sign = λ key message. omega (
    arith,
    length-append (fit 32 (drop 32 key)) (fit 32 message),
    length-fit 32 (drop 32 key),
    length-fit 32 message,
  );
  ed_verify-ed_sign = λ seed message h.
      bytes_eq_refl (fit 32 (drop 32 (fit 32 seed ++ fit 32 seed)) ++ fit 32 message);
}

-- A key pair whose halves are all sevens and nines.
abbrev pub controller : Identity
controller = record {
  address = ascii "8056c2e21c";
  public_key = replicate 32 7 ++ replicate 32 9;
  private_key = replicate 32 7 ++ replicate 32 9;
  has_private = true;
}

abbrev other : Identity
other = record {
  address = ascii "00000000ff";
  public_key = replicate 32 1 ++ replicate 32 2;
  private_key = replicate 32 1 ++ replicate 32 2;
  has_private = true;
}

controller-IsIdentity : IsIdentity controller
unfolding validate_hex_id parse_hex parse_hex_from hex_digit_value has_uppercase is_reserved
controller-IsIdentity = record {
  valid = refl;
  not_reserved = refl;
  public_size = refl;
  public_bytes = ground arith;
  private_size = refl;
  private_bytes = ground arith;
  none_kept = λ h. absurd (cc);
}

parse-identity_string_example : parse (identity_string controller) ≡ ok (public_identity controller)
parse-identity_string_example = parse-identity_string controller controller-IsIdentity

parse-secret_text_example :
    (text : Bytes) × (secret_text controller ≡ ok text) × (parse text ≡ ok controller)
parse-secret_text_example = parse-secret_text controller controller-IsIdentity refl

parse_binary-marshal_binary_example :
    (bytes : Bytes) × (marshal_binary controller ≡ ok bytes) × (parse_binary bytes ≡ ok controller)
parse_binary-marshal_binary_example = parse_binary-marshal_binary controller controller-IsIdentity

abbrev signed_hello : Bytes
signed_hello =
    (replicate 32 9 ++ (ascii "hello" ++ replicate 27 0)) ++ (ascii "hello" ++ replicate 27 0)

sign_hello : sign stand_in controller (ascii "hello") ≡ ok signed_hello
unfolding sign
sign_hello = refl

verify-sign_example :
    (length signed_hello ≡ signature_length)
    × (verify stand_in (public_identity controller) (ascii "hello") signed_hello ≡ true)
verify-sign_example =
    verify-sign stand_in stand_in-IsCrypto controller (ascii "hello") refl sign_hello

abbrev four_zeros : Bytes
four_zeros = replicate 4 0

agree_zeros : agree stand_in controller other (pos 4) ≡ ok four_zeros
unfolding agree agree_raw_public fill
agree_zeros = refl

length-agree_example :
    (pos 4 ≡ pos (length four_zeros)) × (0 < length four_zeros) × (length four_zeros ≤ 4096)
length-agree_example = length-agree stand_in stand_in-IsCrypto controller other (pos 4) agree_zeros

agree_comm_example :
    agree stand_in controller other (pos 4) ≡ agree stand_in other controller (pos 4)
agree_comm_example =
    agree_comm stand_in (λ key. key) (record { x25519_comm = λ a b. refl }) controller other
      (record { private = refl; private_accepted = refl; public_accepted = refl; derived = refl })
      (record { private = refl; private_accepted = refl; public_accepted = refl; derived = refl })
      (pos 4)
