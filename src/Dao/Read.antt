-- ===== src/Dao/Read.antt =====
-- `get_query_string` and the two custom queries of the structs of src/dao/mod.rs. A struct that has
-- none of its own has the trait's, which is an error.
use doordarshan_media_server.Base.{
  String, ◌&&◌, ◌||◌, [], ◌∷◌, if◌then◌else◌, is_some, is_none, Outcome, ok, err, unwrap, ◌>>=◌,
}
use doordarshan_media_server.Base.Texts.{format}
use doordarshan_media_server.Dao.Types.{
  Dao, RouterMeeting, ParticipantMeeting, ParticipantProducers, Statement, delete_from_where,
  select_from_where,
}

unfoldable pub query_router_meeting : RouterMeeting → Outcome String Statement
query_router_meeting s = ok (
    select_from_where "router_id" "router_meeting"
      (format ("meeting_id = '" ∷ s.meeting_id ∷ "'" ∷ [])))

unfoldable pub query_participant_meeting : ParticipantMeeting → Outcome String Statement
query_participant_meeting s = ok (
    select_from_where "participant_id,meeting_id" "participant_meeting"
      (format ("meeting_id = '" ∷ s.meeting_id ∷ "'" ∷ [])))

unfoldable pub query_participant_producers : ParticipantProducers → Outcome String Statement
query_participant_producers s =
    if is_some s.meeting_id
    then (do
      meeting_id ← unwrap s.meeting_id
      ok (
          select_from_where "participant_id, producer_id, kind" "participant_producers"
            (format ("meeting_id = '" ∷ meeting_id ∷ "'" ∷ []))))
    else err "Unhandled case"

-- `Dao::get_query_string`
unfoldable pub get_query_string : Dao → Outcome String Statement
get_query_string (Dao.router_meeting e) = query_router_meeting e
get_query_string (Dao.participant_meeting e) = query_participant_meeting e
get_query_string (Dao.participant_producers e) = query_participant_producers e
get_query_string _ = err "Not implemented"

-- Deletes the participant's memberships of the meeting in every other instance.
unfoldable pub custom_query1_participant_meeting : ParticipantMeeting → Outcome String Statement
custom_query1_participant_meeting s =
    if is_none s.participant_id || is_none s.instance_id
    then err "Participant Id & Instance Id are mandatory fields"
    else do
      participant_id ← unwrap s.participant_id
      instance_id ← unwrap s.instance_id
      ok (
          delete_from_where "participant_meeting" (
            format (
              "meeting_id = '" ∷ s.meeting_id ∷ "' and participant_id = '" ∷ participant_id
              ∷ "' and instance_id != '" ∷ instance_id ∷ "'" ∷ [])))

-- `Dao::get_custom_query1_string`
unfoldable pub get_custom_query1_string : Dao → Outcome String Statement
get_custom_query1_string (Dao.participant_meeting e) = custom_query1_participant_meeting e
get_custom_query1_string _ = err "Not implemented"

-- The last quote of the clause is missing in the source too.
unfoldable pub custom_query2_participant_producers : ParticipantProducers → Outcome String Statement
custom_query2_participant_producers s =
    if is_some s.meeting_id && is_some s.participant_id
    then (do
      meeting_id ← unwrap s.meeting_id
      participant_id ← unwrap s.participant_id
      ok (
          select_from_where "participant_id, producer_id, kind" "participant_producers" (
            format
              ("meeting_id = '" ∷ meeting_id ∷ "' and participant_id != '" ∷ participant_id ∷ []))))
    else err "Unhandled case"

-- `Dao::get_custom_query2_string`
unfoldable pub get_custom_query2_string : Dao → Outcome String Statement
get_custom_query2_string (Dao.participant_producers e) = custom_query2_participant_producers e
get_custom_query2_string _ = err "Not implemented"
