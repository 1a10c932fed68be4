-- ===== src/Controller/Config.antt =====
-- internal/controller/config.go: the answer to a network config request that has been authenticated
-- and decrypted. `IssueAuthorizedConfig` of internal/zerotier/networkconfig/issue.go is an argument:
-- it works on its input alone, and the answer only reads the chunks of its result.
pub mod Kept
use ztgotroller.Base.{
  ℕ, ◌+◌, ◌-◌, ◌%◌, ◌^◌, Bool, true, false, not, ◌||◌, List, [], ◌∷◌, Bytes, map, ltb, ◌==◌,
  if◌then◌else◌, bytes_eq, ℤ, pos, Result, ok, err,
}
use ztgotroller.Chunks.{wrap_ok, wrap_error, error_object_not_found, error_access_denied}
use ztgotroller.Controller.{Service, Clock, is_not_found, register_member}
use ztgotroller.Controller.Actions.{
  Error, invalid_request, invalid_reply, source_mismatch, other_destination, signer_mismatch,
  zero_revision, revision_overflow, cannot_issue, Action, ◌>>=◌, ◌>>◌, return, fail, fail_when,
  reading, writing, attempt, computed,
}
use ztgotroller.Controller.Addresses.{ensure_automatic_assignments}
use ztgotroller.Domain.Ids.{NetworkId}
use ztgotroller.Domain.Members.{Member}
use ztgotroller.Domain.Networks.{Network}
use ztgotroller.Identity.{Identity}
use ztgotroller.Netip.{Time}
use ztgotroller.Packet.Header.{Decoded}
use ztgotroller.Request.{Request, parse_request, agent_metadata}
use ztgotroller.Store.{Context, get_network, upsert_agent_metadata}
use ztgotroller.Store.Listing.{list_members}

abbrev pub verb_error : ℕ
verb_error = 0x02

abbrev pub verb_ok : ℕ
verb_ok = 0x03

pub record ConfigReply : Type 0 where
  pub verb : ℕ
  pub payload : Bytes

-- The input of `IssueAuthorizedConfig`; its last two fields stay zero here.
pub record IssueInput : Type 0 where
  pub network : Network
  pub member : Member
  pub network_members : List Member
  pub recipient : Identity
  pub controller : Identity
  pub issued_at : Time
  pub revision : ℕ
  pub max_chunk_data : ℤ
  pub credential_delta : ℤ

-- The chunks of the issued configuration, or that there is none.
abbrev pub Issue : Type 0
Issue = IssueInput → Result (Unit {0}) (List Bytes)

-- The sum in 64-bit arithmetic: at the bound `2 ^ 64` it wraps to 0, and the 1 that is taken off
-- wraps it back.
unfoldable pub config_revision : ℕ → ℕ → Result Error ℕ
config_revision network_revision member_revision =
    if network_revision == 0 || member_revision == 0
    then err zero_revision
    else if ltb (2 ^ 64 - 1 - member_revision + 1) network_revision
    then err revision_overflow
    else ok (((network_revision + member_revision) % 2 ^ 64 + (2 ^ 64 - 1)) % 2 ^ 64)

unfoldable pub config_error_reply : ℕ → NetworkId → ℕ → Action (List ConfigReply)
config_error_reply packet_id network_id code = do
  payload ← computed invalid_reply (wrap_error packet_id network_id code)
  return (record { verb = verb_error; payload = payload } ∷ [])

abbrev pub ok_reply : ℕ → Bytes → ConfigReply
ok_reply packet_id chunk = record { verb = verb_ok; payload = wrap_ok packet_id chunk }

-- What an authorized member gets. The clock gives the times of the registration, the report, the
-- assignment and the issue in this order.
unfoldable pub issue_replies :
    Context
    → Issue
    → Decoded
    → Identity
    → Identity
    → Clock
    → Network
    → Member
    → Action (List ConfigReply)
issue_replies context issue decoded recipient controller clock network member = do
  assigned ← ensure_automatic_assignments context network member (clock 2)
  members ← reading (list_members context network.id)
  revision ← computed (λ e. e) (config_revision network.revision assigned.revision)
  chunks ←
      computed (λ _. cannot_issue)
        (issue (record {
          network = network;
          member = assigned;
          network_members = members;
          recipient = recipient;
          controller = controller;
          issued_at = clock 3;
          revision = revision;
          max_chunk_data = pos 0;
          credential_delta = pos 0;
        }))
  return (map (ok_reply decoded.routing.packet_id) chunks)

-- The answer once the store has been asked for the network.
unfoldable pub answer_request :
    Service
    → Context
    → Issue
    → Decoded
    → Identity
    → Identity
    → Clock
    → Request
    → Result Error Network
    → Action (List ConfigReply)
answer_request service context issue decoded recipient controller clock request (err e) =
    if is_not_found e
    then config_error_reply decoded.routing.packet_id request.network_id error_object_not_found
    else fail e
answer_request service context issue decoded recipient controller clock request (ok network) = do
  member ← register_member service context request.network_id recipient.address (clock 0)
  let report = agent_metadata request request.network_id recipient.address (clock 1)
  writing (upsert_agent_metadata context report)
  if not member.authorized
      then config_error_reply decoded.routing.packet_id request.network_id error_access_denied
      else issue_replies context issue decoded recipient controller clock network member

unfoldable pub handle_config_request :
    Service → Context → Issue → Decoded → Identity → Identity → Clock → Action (List ConfigReply)
handle_config_request service context issue decoded recipient controller clock = do
  request ← computed invalid_request (parse_request decoded)
  fail_when (not (bytes_eq decoded.routing.source recipient.address)) source_mismatch
  fail_when (not (bytes_eq decoded.routing.destination service.controller)) other_destination
  fail_when (not (bytes_eq controller.address service.controller) || not controller.has_private)
      signer_mismatch
  found ← attempt (reading (get_network context request.network_id))
  answer_request service context issue decoded recipient controller clock request found
