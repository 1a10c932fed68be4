-- ===== src/Peer/Examples.antt =====
-- Runs of the registry on concrete input, and its theorems at concrete input.
use ztgotroller.Base.{
  ℕ, ◌+◌, ◌*◌, ◌≡◌, ◌⊎◌, refl, arith, false, [], ◌∷◌, ascii, none, some, ok, find, bytes_keys,
  IsDistinct, replicate, parse_hex, parse_hex_from, hex_digit_value, keep, put, hex_encode,
  hex_digit,
}
use ztgotroller.Domain.Ids.{NodeId, parse_node_id, validate_hex_id, has_uppercase}
use ztgotroller.Identity.{Identity, public_identity, identity_string}
use ztgotroller.Netip.{AddrPort, ip4, second, is_valid}
use ztgotroller.Peer.{
  Hello, Registry, is_kept, prune, learn_validated_hello, configured_session, hello_session,
  store_session, collides, prune_locked, count_removed, is_full_for,
}
use ztgotroller.Peer.Laws.{learn_validated_hello-same_identity, prune-learn_validated_hello}

abbrev node_id : NodeId
node_id = ascii "8056c2e21c"

abbrev upstream : Identity
upstream = record {
  address = node_id;
  public_key = 1 ∷ 2 ∷ [];
  private_key = replicate 64 0;
  has_private = false;
}

abbrev hello : Hello
hello = record {
  identity = upstream;
  external_surface = none;
  protocol_version = 13;
  major = 1;
  minor = 16;
  revision = 2;
}

abbrev endpoint : AddrPort
endpoint = record { address = ip4 0x0a000001; port = 9993 }

-- A registry with a configured upstream.
abbrev before : Registry ℕ
before = record {
  sessions = (node_id, configured_session upstream 7 endpoint 5) ∷ [];
  last_prune = 0;
}

abbrev after : Registry ℕ
after = record { sessions = (node_id, hello_session hello 7 endpoint 20) ∷ []; last_prune = 20 }

learn-before :
    learn_validated_hello hello 7 endpoint 20 before
    ≡ (after, ok (hello_session hello 7 endpoint 20))
unfolding learn_validated_hello is_valid parse_node_id validate_hex_id parse_hex parse_hex_from
    hex_digit_value has_uppercase store_session collides find prune_locked count_removed keep
    is_kept identity_string public_identity hex_encode hex_digit put is_full_for
learn-before = refl

before-IsDistinct : IsDistinct before.sessions
before-IsDistinct = (tt, tt)

find-before : find node_id before.sessions ≡ some (configured_session upstream 7 endpoint 5)
unfolding find
find-before = refl

find-after :
    find node_id (learn_validated_hello hello 7 endpoint 20 before).0.sessions
    ≡ some (hello_session hello 7 endpoint 20)
unfolding learn_validated_hello is_valid parse_node_id validate_hex_id parse_hex parse_hex_from
    hex_digit_value has_uppercase store_session collides find prune_locked count_removed keep
    is_kept identity_string public_identity hex_encode hex_digit put is_full_for
find-after = refl

learn_validated_hello-same_identity_example :
    (identity_string (hello_session {K = ℕ} hello 7 endpoint 20).identity
      ≡ identity_string (configured_session {K = ℕ} upstream 7 endpoint 5).identity)
    ⊎ (is_kept 20 (configured_session {K = ℕ} upstream 7 endpoint 5) ≡ false)
learn_validated_hello-same_identity_example =
    learn_validated_hello-same_identity hello 7 endpoint 20 before node_id before-IsDistinct
      find-before find-after

prune-learn_validated_hello_example :
    find node_id (prune (20 + 600 * second) after).1.sessions ≡ none
prune-learn_validated_hello_example =
    prune-learn_validated_hello hello 7 endpoint 20 (20 + 600 * second) before before-IsDistinct
      learn-before (omega arith)

prune-after :
    prune (20 + 600 * second) after ≡ (1, record { sessions = []; last_prune = 20 + 600 * second })
unfolding prune prune_locked count_removed keep is_kept
prune-after = refl
