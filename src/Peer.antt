-- ===== src/Peer.antt =====
-- internal/zerotier/peer/registry.go: the sessions of the peers, but `List` and `Authenticate`.
-- The lock makes each operation one step. `validate_proof` stands for `Identity.LocallyValidate`,
-- and the type `K` for a session key, which no operation here looks into.
pub mod Laws
mod Examples
use ztgotroller.Base.{
  ℕ, ◌+◌, ◌*◌, Bool, true, false, ◌&&◌, ◌||◌, not, List, [], ◌∷◌, ◌++◌, Bytes, ascii, bytes_eq,
  bytes_keys, Option, none, some, length, leb, ltb, ◌==◌, find, put, keep, hex_encode, Result, ok,
  err, ◌>>=◌, ◌>>◌, fail_if, if◌then◌else◌, replicate,
}
use ztgotroller.Domain.Ids.{NodeId, parse_node_id}
use ztgotroller.Identity.{Identity, public_identity, identity_string}
use ztgotroller.Netip.{Addr, AddrPort, is_valid, Time, second, has_elapsed}

pub data Error : Type 0 where
  peer_not_found invalid_id invalid_identity identity_collision : Error
  missing_endpoint_or_time invalid_endpoint missing_time session_capacity_exhausted : Error

abbrev pub session_idle_ttl : ℕ
session_idle_ttl = 600 * second

abbrev pub session_prune_every : ℕ
session_prune_every = 60 * second

abbrev pub max_registry_sessions : ℕ
max_registry_sessions = 16384

pub record InetAddress : Type 0 where
  pub address : Addr
  pub port : ℕ

-- The fields of a HELLO that the registry reads.
pub record Hello : Type 0 where
  pub identity : Identity
  pub external_surface : Option InetAddress
  pub protocol_version : ℕ
  pub major : ℕ
  pub minor : ℕ
  pub revision : ℕ

pub record Session (K : Type 0) : Type 0 where
  pub identity : Identity
  pub shared_key : K
  pub endpoint : AddrPort
  pub external_surface : Option InetAddress
  pub protocol_version : ℕ
  pub major : ℕ
  pub minor : ℕ
  pub revision : ℕ
  pub last_seen : Time
  pub configured : Bool

pub record Registry (K : Type 0) : Type 0 where
  pub sessions : List (NodeId × Session K)
  pub last_prune : Time

module _ {K : Type 0} where
  abbrev pub new_registry : Registry K
  new_registry = record { sessions = []; last_prune = 0 }

  -- An error that `registry.sessions` holds another identity for the address.
  unfoldable pub collides : NodeId → Identity → Registry K → Bool
  collides id identity registry = elim (find id registry.sessions) [
    | none ↦ false
    | some existing ↦ not (bytes_eq (identity_string existing.identity) (identity_string identity))
  ]

  unfoldable pub is_kept : Time → Session K → Bool
  is_kept now session =
      session.configured || not (has_elapsed now session.last_seen session_idle_ttl)

  -- `removed` of the loop in `pruneLocked`.
  unfoldable pub count_removed : Time → List (NodeId × Session K) → ℕ
  count_removed now [] = 0
  count_removed now ((id, session) ∷ rest) =
      let removed = count_removed now rest in if is_kept now session then removed else removed + 1

  -- How many sessions are removed, and the registry without them.
  unfoldable pub prune_locked : Time → Bool → Registry K → ℕ × Registry K
  prune_locked now force registry =
      if not force
        && not (registry.last_prune == 0)
        && not (has_elapsed now registry.last_prune session_prune_every)
      then (0, registry)
      else (
        count_removed now registry.sessions,
        record {
          sessions = keep (λ id session. is_kept now session) registry.sessions;
          last_prune = now;
        },
      )

  unfoldable pub prune : Time → Registry K → ℕ × Registry K
  prune now registry = if now == 0 then (0, registry) else prune_locked now true registry

  abbrev pub configured_session : Identity → K → AddrPort → Time → Session K
  configured_session identity shared_key endpoint now = record {
    identity = public_identity identity;
    shared_key = shared_key;
    endpoint = endpoint;
    external_surface = none;
    protocol_version = 0;
    major = 0;
    minor = 0;
    revision = 0;
    last_seen = now;
    configured = true;
  }

  unfoldable pub register_configured :
      (Identity → Bool)
      → Identity
      → K
      → AddrPort
      → Time
      → Registry K
      → Result Error (Session K × Registry K)
  register_configured validate_proof identity shared_key endpoint now registry = do
    fail_if (not (validate_proof identity)) invalid_identity
    fail_if (not (is_valid endpoint.address) || now == 0) missing_endpoint_or_time
    let session = configured_session identity shared_key endpoint now
    fail_if (collides identity.address session.identity registry) identity_collision
    ok (session, record registry { sessions = put identity.address session registry.sessions })

  abbrev pub hello_session : Hello → K → AddrPort → Time → Session K
  hello_session hello shared_key endpoint now = record {
    identity = public_identity hello.identity;
    shared_key = shared_key;
    endpoint = endpoint;
    external_surface = hello.external_surface;
    protocol_version = hello.protocol_version;
    major = hello.major;
    minor = hello.minor;
    revision = hello.revision;
    last_seen = now;
    configured = false;
  }

  unfoldable pub is_full_for : NodeId → Registry K → Bool
  is_full_for id registry = elim (find id registry.sessions) [
    | some _ ↦ false
    | none ↦ leb max_registry_sessions (length registry.sessions)
  ]

  -- The part under the lock: old sessions are pruned first, and stay pruned on an error.
  unfoldable pub store_session :
      NodeId → Session K → Registry K → Registry K × Result Error (Session K)
  store_session id session registry =
      if collides id session.identity registry
      then (registry, err identity_collision)
      else if is_full_for id registry
      then (registry, err session_capacity_exhausted)
      else (record registry { sessions = put id session registry.sessions }, ok session)

  unfoldable pub learn_validated_hello :
      Hello → K → AddrPort → Time → Registry K → Registry K × Result Error (Session K)
  learn_validated_hello hello shared_key endpoint now registry =
      if not (is_valid endpoint.address)
      then (registry, err invalid_endpoint)
      else if now == 0
      then (registry, err missing_time)
      else elim (parse_node_id hello.identity.address) [
        | err _ ↦ (registry, err invalid_identity)
        | ok id ↦
            store_session hello.identity.address (hello_session hello shared_key endpoint now)
              (prune_locked now false registry).1
      ]

  unfoldable pub learn_hello :
      (Identity → Bool)
      → Hello
      → K
      → AddrPort
      → Time
      → Registry K
      → Registry K × Result Error (Session K)
  learn_hello validate_proof hello shared_key endpoint now registry =
      if not (is_valid endpoint.address)
      then (registry, err invalid_endpoint)
      else if now == 0
      then (registry, err missing_time)
      else if not (validate_proof hello.identity)
      then (registry, err invalid_identity)
      else learn_validated_hello hello shared_key endpoint now registry

  unfoldable pub get_session : NodeId → Registry K → Result Error (Session K)
  get_session id registry = elim (parse_node_id id) [
    | err _ ↦ err invalid_id
    | ok _ ↦ elim (find id registry.sessions) [ none ↦ err peer_not_found | some s ↦ ok s ]
  ]
