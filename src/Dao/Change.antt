-- ===== src/Dao/Change.antt =====
-- `get_update_string` and `get_delete_string` of each struct of src/dao/mod.rs. A struct that has
-- none of its own has the trait's, which is an error.
use doordarshan_media_server.Base.{
  String, ◌&&◌, ◌||◌, [], ◌∷◌, if◌then◌else◌, is_some, is_none, Outcome, ok, err, unwrap, ◌>>=◌,
}
use doordarshan_media_server.Base.Texts.{format, display, display_ℤ}
use doordarshan_media_server.Dao.Types.{
  Dao, ContainerHeartbeat, MeetingStatus, RouterWorker, RouterMeeting, ParticipantMeeting,
  ParticipantConsumerTransport, ParticipantProducerTransport, ParticipantProducers,
  ParticipantConsumers, Statement, update_set_where, delete_from_where,
}

unfoldable pub update_container_heartbeat : ContainerHeartbeat → Outcome String Statement
update_container_heartbeat s =
    if is_some s.heartbeat
    then (do
      heartbeat ← unwrap s.heartbeat
      ok (
          update_set_where "container_heartbeat" (format ("heartbeat = " ∷ display heartbeat ∷ []))
            (format ("container_id = '" ∷ s.container_id ∷ "'" ∷ []))))
    else err "Nothing to update"

unfoldable pub update_router_meeting : RouterMeeting → Outcome String Statement
update_router_meeting s = if is_none s.router_id then err "Router Id is mandatory field" else do
  router_id ← unwrap s.router_id
  if is_some s.capacity
      then (do
        capacity ← unwrap s.capacity
        ok (
            update_set_where "router_meeting"
              (format (
                "router_id = '"
                ∷ router_id
                ∷ "', meeting_id = '"
                ∷ s.meeting_id
                ∷ "', capacity ='"
                ∷ display_ℤ capacity
                ∷ "'"
                ∷ []))
              (format ("meeting_id = '" ∷ s.meeting_id ∷ "'" ∷ []))))
      else if is_some s.producer_capacity && is_some s.consumer_capacity
      then (do
        producer_capacity ← unwrap s.producer_capacity
        consumer_capacity ← unwrap s.consumer_capacity
        ok (
            update_set_where "router_meeting"
              (format (
                "router_id = '"
                ∷ router_id
                ∷ "', meeting_id = '"
                ∷ s.meeting_id
                ∷ "', producer_capacity = '"
                ∷ display_ℤ producer_capacity
                ∷ "', consumer_capacity = '"
                ∷ display_ℤ consumer_capacity
                ∷ "'"
                ∷ []))
              (format ("meeting_id = '" ∷ s.meeting_id ∷ "'" ∷ []))))
      else err "Mandatory fields are missing"

unfoldable pub update_participant_meeting : ParticipantMeeting → Outcome String Statement
update_participant_meeting s =
    if is_none s.participant_id || is_none s.instance_id
    then err "Participant Id & Instance Id is mandatory field"
    else do
      participant_id ← unwrap s.participant_id
      instance_id ← unwrap s.instance_id
      ok (
          update_set_where "participant_meeting"
            (format ("instance_id = '" ∷ instance_id ∷ "'" ∷ []))
            (format (
              "participant_id = '" ∷ participant_id ∷ "' and meeting_id = '" ∷ s.meeting_id ∷ "'"
              ∷ [])))

-- `Dao::get_update_string`
unfoldable pub get_update_string : Dao → Outcome String Statement
get_update_string (Dao.container_heartbeat e) = update_container_heartbeat e
get_update_string (Dao.router_meeting e) = update_router_meeting e
get_update_string (Dao.participant_meeting e) = update_participant_meeting e
get_update_string _ = err "Not implemented"

unfoldable pub delete_meeting_status : MeetingStatus → Outcome String Statement
delete_meeting_status s =
    ok (delete_from_where "meeting_status" (format ("meeting_id = '" ∷ s.meeting_id ∷ "'" ∷ [])))

unfoldable pub delete_router_worker : RouterWorker → Outcome String Statement
delete_router_worker s =
    ok (delete_from_where "router_worker" (format ("router_id = '" ∷ s.router_id ∷ "'" ∷ [])))

unfoldable pub delete_router_meeting : RouterMeeting → Outcome String Statement
delete_router_meeting s =
    if is_none s.router_id && is_none s.container_id
    then ok
        (delete_from_where "router_meeting" (format ("meeting_id = '" ∷ s.meeting_id ∷ "'" ∷ [])))
    else if is_none s.container_id
    then (do
      router_id ← unwrap s.router_id
      ok (
          delete_from_where "router_meeting" (
            format
              ("router_id = '" ∷ router_id ∷ "' and meeting_id = '" ∷ s.meeting_id ∷ "'" ∷ []))))
    else do
      container_id ← unwrap s.container_id
      ok (
          delete_from_where "router_meeting" (
            format (
              "container_id = '" ∷ container_id ∷ "' and meeting_id = '" ∷ s.meeting_id ∷ "'"
              ∷ [])))

unfoldable pub delete_participant_meeting : ParticipantMeeting → Outcome String Statement
delete_participant_meeting s =
    if is_none s.participant_id then err "Participant Id is mandatory field" else do
      participant_id ← unwrap s.participant_id
      if is_some s.instance_id
          then (do
            instance_id ← unwrap s.instance_id
            ok (
                delete_from_where "participant_meeting" (
                  format (
                    "meeting_id = '" ∷ s.meeting_id ∷ "' and participant_id = '" ∷ participant_id
                    ∷ "' and instance_id = '" ∷ instance_id ∷ "'" ∷ []))))
          else ok (
              delete_from_where "participant_meeting" (
                format (
                  "meeting_id = '" ∷ s.meeting_id ∷ "' and participant_id = '" ∷ participant_id
                  ∷ "'" ∷ [])))

unfoldable pub delete_participant_consumer_transport :
    ParticipantConsumerTransport → Outcome String Statement
delete_participant_consumer_transport s = ok (
    delete_from_where "participant_consumer_transport"
      (format ("participant_id = '" ∷ s.participant_id ∷ "'" ∷ [])))

unfoldable pub delete_participant_producer_transport :
    ParticipantProducerTransport → Outcome String Statement
delete_participant_producer_transport s = ok (
    delete_from_where "participant_producer_transport"
      (format ("participant_id = '" ∷ s.participant_id ∷ "'" ∷ [])))

-- The third branch repeats the test of the first, as the source has it.
unfoldable pub delete_participant_producers : ParticipantProducers → Outcome String Statement
delete_participant_producers s =
    if is_some s.producer_id
    then (do
      producer_id ← unwrap s.producer_id
      participant_id ← unwrap s.participant_id
      ok (
          delete_from_where "participant_producers" (
            format (
              "participant_id = '" ∷ participant_id ∷ "' and producer_id = '" ∷ producer_id ∷ "'"
              ∷ []))))
    else if is_some s.kind
    then (do
      kind ← unwrap s.kind
      participant_id ← unwrap s.participant_id
      ok (
          delete_from_where "participant_producers"
            (format ("participant_id = '" ∷ participant_id ∷ "' and kind = '" ∷ kind ∷ "'" ∷ []))))
    else if is_some s.producer_id
    then (do
      producer_id ← unwrap s.producer_id
      ok (
          delete_from_where "participant_producers"
            (format ("producer_id = '" ∷ producer_id ∷ "'" ∷ []))))
    else do
      participant_id ← unwrap s.participant_id
      ok (
          delete_from_where "participant_producers"
            (format ("participant_id = '" ∷ participant_id ∷ "'" ∷ [])))

unfoldable pub delete_participant_consumers : ParticipantConsumers → Outcome String Statement
delete_participant_consumers s =
    if is_some s.kind && (is_some s.target_participant_id && is_some s.participant_id)
    then (do
      kind ← unwrap s.kind
      target_participant_id ← unwrap s.target_participant_id
      participant_id ← unwrap s.participant_id
      ok (
          delete_from_where "participant_consumers" (
            format (
              "participant_id = '" ∷ participant_id ∷ "' and target_participant_id = '"
              ∷ target_participant_id ∷ "' and kind = '" ∷ kind ∷ "'" ∷ []))))
    else if is_some s.target_participant_id && is_some s.participant_id
    then (do
      target_participant_id ← unwrap s.target_participant_id
      participant_id ← unwrap s.participant_id
      ok (
          delete_from_where "participant_consumers" (
            format (
              "participant_id = '" ∷ participant_id ∷ "' and target_participant_id = '"
              ∷ target_participant_id ∷ "'" ∷ []))))
    else if is_some s.target_participant_id && is_none s.participant_id
    then (do
      target_participant_id ← unwrap s.target_participant_id
      ok (
          delete_from_where "participant_consumers"
            (format ("target_participant_id = '" ∷ target_participant_id ∷ "'" ∷ []))))
    else if is_some s.consumer_id
    then (do
      consumer_id ← unwrap s.consumer_id
      ok (
          delete_from_where "participant_consumers"
            (format ("consumer_id = '" ∷ consumer_id ∷ "'" ∷ []))))
    else do
      participant_id ← unwrap s.participant_id
      ok (
          delete_from_where "participant_consumers"
            (format ("participant_id = '" ∷ participant_id ∷ "'" ∷ [])))

-- `Dao::get_delete_string`
unfoldable pub get_delete_string : Dao → Outcome String Statement
get_delete_string (Dao.meeting_status e) = delete_meeting_status e
get_delete_string (Dao.router_worker e) = delete_router_worker e
get_delete_string (Dao.router_meeting e) = delete_router_meeting e
get_delete_string (Dao.participant_meeting e) = delete_participant_meeting e
get_delete_string (Dao.participant_consumer_transport e) = delete_participant_consumer_transport e
get_delete_string (Dao.participant_producer_transport e) = delete_participant_producer_transport e
get_delete_string (Dao.participant_producers e) = delete_participant_producers e
get_delete_string (Dao.participant_consumers e) = delete_participant_consumers e
get_delete_string _ = err "Not implemented"
