-- ===== src/Dao/Quoting/Reads.antt =====
-- The quotes in the queries of src/dao/mod.rs.
use doordarshan_media_server.Base.{arith}
use doordarshan_media_server.Base.Texts.{quotes}
use doordarshan_media_server.Dao.Types.{
  Dao, ParticipantMeeting, ParticipantProducers, RouterMeeting,
}
use doordarshan_media_server.Dao.Read.{
  custom_query1_participant_meeting, query_participant_meeting, query_participant_producers,
  query_router_meeting,
}
use doordarshan_media_server.Dao.Quoting.Rules.{
  IsPaired, HasPlainValues, IsPaired-if, IsPaired-unwrap_plain, IsPaired-delete, IsPaired-select,
  refused,
}

pub query_router_meeting-IsPaired :
    (s : RouterMeeting) → HasPlainValues (Dao.router_meeting s) → IsPaired (query_router_meeting s)
unfolding query_router_meeting quotes
query_router_meeting-IsPaired s h = IsPaired-select _ _ _ (omega (arith))

pub query_participant_meeting-IsPaired :
    (s : ParticipantMeeting)
    → HasPlainValues (Dao.participant_meeting s)
    → IsPaired (query_participant_meeting s)
unfolding query_participant_meeting quotes
query_participant_meeting-IsPaired s h = IsPaired-select _ _ _ (omega (arith))

pub query_participant_producers-IsPaired :
    (s : ParticipantProducers)
    → HasPlainValues (Dao.participant_producers s)
    → IsPaired (query_participant_producers s)
unfolding query_participant_producers quotes
query_participant_producers-IsPaired s h =
    IsPaired-if _
      (IsPaired-unwrap_plain _ _ h.3
        (λ meeting_id meeting_id_plain. IsPaired-select _ _ _ (omega (arith))))
      (refused _)

pub custom_query1_participant_meeting-IsPaired :
    (s : ParticipantMeeting)
    → HasPlainValues (Dao.participant_meeting s)
    → IsPaired (custom_query1_participant_meeting s)
unfolding custom_query1_participant_meeting quotes
custom_query1_participant_meeting-IsPaired s h = IsPaired-if _ (refused _) (
    IsPaired-unwrap_plain _ _ h.1 (λ participant_id participant_id_plain.
      IsPaired-unwrap_plain _ _ h.2
        (λ instance_id instance_id_plain. IsPaired-delete _ _ (omega (arith)))))
