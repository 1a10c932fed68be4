-- ===== src/Request.antt =====
-- `ParseRequest` and `Request.AgentMetadata` of internal/zerotier/networkconfig/request.go: what a
-- network config request carries, and the report on the agent that is read from it.
use ztgotroller.Base.{
  ℕ, ◌+◌, Bool, true, false, not, Bytes, [], ◌∷◌, none, some, length, take, drop, slice, ltb, ◌==◌,
  ascii, get_be, hex_encode, Result, ok, err, ◌>>=◌, ◌>>◌, fail_if,
}
use ztgotroller.Chunks.{verb_network_config_request}
use ztgotroller.Dictionary.Parse.{
  ParseError, Metadata, lookup, parse_metadata, max_metadata_length, hex_uint,
}
use ztgotroller.Domain.Ids.{IdError, NetworkId, NodeId, parse_network_id}
use ztgotroller.Domain.Members.{AgentMetadata}
use ztgotroller.Netip.{Time}
use ztgotroller.Packet.Header.{Decoded}

pub data Error : Type 0 where
  unexpected_verb still_compressed request_too_short : Error
  invalid_network : IdError → Error
  metadata_too_long metadata_cut : Error
  invalid_metadata : ParseError → Error
  state_cut : Error

pub record Request : Type 0 where
  pub network_id : NetworkId
  pub metadata : Metadata
  pub has_current_state : Bool
  pub current_revision : ℕ
  pub current_timestamp : ℕ
  pub extensions : Bytes

-- The call's error under a name of this module.
abbrev pub from_error {ℓ} : {E : Type 0} {A : Type ℓ} → (E → Error) → Result E A → Result Error A
from_error f (ok a) = ok a
from_error f (err e) = err (f e)

-- The state that follows the metadata, if anything does.
unfoldable pub parse_state : NetworkId → Metadata → Bytes → Result Error Request
parse_state network_id metadata [] = ok (record {
  network_id = network_id;
  metadata = metadata;
  has_current_state = false;
  current_revision = 0;
  current_timestamp = 0;
  extensions = [];
})
parse_state network_id metadata (c ∷ cs) = do
  let remainder = c ∷ cs
  fail_if (ltb (length remainder) 16) state_cut
  ok (record {
    network_id = network_id;
    metadata = metadata;
    has_current_state = true;
    current_revision = get_be (take 8 remainder);
    current_timestamp = get_be (slice 8 16 remainder);
    extensions = drop 16 remainder;
  })

unfoldable pub parse_request : Decoded → Result Error Request
parse_request decoded = do
  fail_if (not (decoded.verb == verb_network_config_request)) unexpected_verb
  fail_if decoded.compressed still_compressed
  let payload = decoded.payload
  fail_if (ltb (length payload) 10) request_too_short
  network_id ← from_error invalid_network (parse_network_id (hex_encode (take 8 payload)))
  let n = get_be (slice 8 10 payload)
  fail_if (ltb max_metadata_length n) metadata_too_long
  fail_if (ltb (length payload) (10 + n)) metadata_cut
  metadata ← from_error invalid_metadata (parse_metadata (slice 10 (10 + n) payload))
  parse_state network_id metadata (drop (10 + n) payload)

-- `hexValue`: 0 where the key is missing or no number.
abbrev pub hex_value : Metadata → Bytes → ℕ
hex_value metadata key = elim (hex_uint metadata key) [ none ↦ 0 | some value ↦ value ]

-- A missing entry of the map reads as no bytes.
abbrev pub text_value : Metadata → Bytes → Bytes
text_value metadata key = elim (lookup key metadata) [ none ↦ [] | some value ↦ value ]

unfoldable pub agent_metadata : Request → NetworkId → NodeId → Time → AgentMetadata
agent_metadata request network_id node_id updated_at = record {
  network_id = network_id;
  node_id = node_id;
  target = text_value request.metadata (ascii "o");
  vendor = hex_value request.metadata (ascii "vend");
  protocol = hex_value request.metadata (ascii "pv");
  major = hex_value request.metadata (ascii "majv");
  minor = hex_value request.metadata (ascii "minv");
  revision = hex_value request.metadata (ascii "revv");
  rules_engine_revision = hex_value request.metadata (ascii "revr");
  max_rules = hex_value request.metadata (ascii "mr");
  max_capabilities = hex_value request.metadata (ascii "mc");
  max_capability_rules = hex_value request.metadata (ascii "mcr");
  max_tags = hex_value request.metadata (ascii "mt");
  updated_at = updated_at;
}
