-- ===== src/Controller/Config/Kept.antt =====
-- What the answer to a config request keeps.
use ztgotroller.Base.{ℕ, not, [], ◌∷◌, map, Result, ok, err}
use ztgotroller.Chunks.{wrap_error, error_object_not_found, error_access_denied}
use ztgotroller.Controller.{Service, Clock, is_not_found, register_member}
use ztgotroller.Controller.Actions.{
  Error, invalid_request, invalid_reply, source_mismatch, other_destination, signer_mismatch,
  cannot_issue, fail, fail_when, reading, writing, attempt, computed,
}
use ztgotroller.Controller.Addresses.{ensure_automatic_assignments}
use ztgotroller.Controller.Config.{
  ConfigReply, Issue, verb_error, config_revision, config_error_reply, ok_reply, issue_replies,
  answer_request, handle_config_request,
}
use ztgotroller.Controller.MemberOperations.{
  register_member-Preserves, ensure_automatic_assignments-Preserves,
}
use ztgotroller.Controller.Preserved.{
  Preserves, writing-Preserves, bind-Preserves, then_Preserves, if-Preserves, return-Preserves,
  reading-Preserves, attempt-Preserves, fail_when-Preserves,
}
use ztgotroller.Domain.Ids.{NetworkId}
use ztgotroller.Domain.Members.{Member}
use ztgotroller.Domain.Networks.{Network}
use ztgotroller.Identity.{Identity}
use ztgotroller.Packet.Header.{Decoded}
use ztgotroller.Request.{Request, parse_request, agent_metadata}
use ztgotroller.Store.{Context, get_network}
use ztgotroller.Store.Listing.{list_members}
use ztgotroller.Store.Steps.{upserts_metadata, apply}

module _ (service : Service) where
  computed-Preserves :
      {E A : Type 0} (f : E → Error) (r : Result E A) → Preserves service (computed f r)
  computed-Preserves f (ok a) s h = h
  computed-Preserves f (err e) s h = h

  config_error_reply-Preserves :
      (packet_id : ℕ) (id : NetworkId) (code : ℕ)
      → Preserves service (config_error_reply packet_id id code)
  unfolding config_error_reply
  config_error_reply-Preserves packet_id id code =
      bind-Preserves service (computed invalid_reply (wrap_error packet_id id code)) _
        (computed-Preserves invalid_reply (wrap_error packet_id id code))
        (λ payload.
          let reply : ConfigReply = record { verb = verb_error; payload = payload } in
          return-Preserves service (reply ∷ []))

  module _ (c : Context) (issue : Issue) (decoded : Decoded) (recipient controller : Identity)
      (clock : Clock) where
    issue_replies-Preserves :
        (network : Network) (member : Member)
        → Preserves service
            (issue_replies c issue decoded recipient controller clock network member)
    unfolding issue_replies
    issue_replies-Preserves network member =
        bind-Preserves service (ensure_automatic_assignments c network member (clock 2)) _
          (ensure_automatic_assignments-Preserves service c network member (clock 2))
          (λ assigned.
            bind-Preserves service (reading (list_members c network.id)) _
              (reading-Preserves service (list_members c network.id))
              (λ members.
                bind-Preserves service
                  (computed (λ e. e) (config_revision network.revision assigned.revision)) _
                  (computed-Preserves (λ e. e) (config_revision network.revision assigned.revision))
                  (λ revision.
                    bind-Preserves service (computed (λ _. cannot_issue) (issue _)) _
                      (computed-Preserves (λ _. cannot_issue) (issue _))
                      (λ chunks.
                        return-Preserves service
                          (map (ok_reply decoded.routing.packet_id) chunks)))))

    answer_request-Preserves :
        (request : Request) (found : Result Error Network)
        → Preserves service
            (answer_request service c issue decoded recipient controller clock request found)
    unfolding answer_request apply
    answer_request-Preserves request (err e) =
        if-Preserves service (is_not_found e) _ (fail e)
          (config_error_reply-Preserves decoded.routing.packet_id request.network_id
            error_object_not_found)
          (λ s h. h)
    answer_request-Preserves request (ok network) =
        let report = agent_metadata request request.network_id recipient.address (clock 1) in
        bind-Preserves service
          (register_member service c request.network_id recipient.address (clock 0)) _
          (register_member-Preserves service c request.network_id recipient.address (clock 0))
          (λ member.
            then_Preserves service (writing (apply c (upserts_metadata report))) _
              (writing-Preserves service c (upserts_metadata report) tt)
              (if-Preserves service (not member.authorized) _ _
                (config_error_reply-Preserves decoded.routing.packet_id request.network_id
                  error_access_denied)
                (issue_replies-Preserves network member)))

    pub handle_config_request-Preserves :
        Preserves service (handle_config_request service c issue decoded recipient controller clock)
    unfolding handle_config_request
    handle_config_request-Preserves =
        bind-Preserves service (computed invalid_request (parse_request decoded)) _
          (computed-Preserves invalid_request (parse_request decoded))
          (λ request.
            then_Preserves service (fail_when _ source_mismatch) _
              (fail_when-Preserves service _ source_mismatch)
              (then_Preserves service (fail_when _ other_destination) _
                (fail_when-Preserves service _ other_destination)
                (then_Preserves service (fail_when _ signer_mismatch) _
                  (fail_when-Preserves service _ signer_mismatch)
                  (bind-Preserves service (attempt (reading (get_network c request.network_id)))
                    (answer_request service c issue decoded recipient controller clock request)
                    (attempt-Preserves service (reading (get_network c request.network_id))
                      (reading-Preserves service (get_network c request.network_id)))
                    (λ found. answer_request-Preserves request found)))))
