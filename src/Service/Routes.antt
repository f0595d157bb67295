-- ===== src/Service/Routes.antt =====
-- The routes of src/service/mod.rs and the handlers that they call.
use doordarshan_media_server.Base.{
  Bool, true, false, if◌then◌else◌, ℕ, String, Option, none, some, [], ◌∷◌,
}
use doordarshan_media_server.Base.Dict.{Dict, lookup}
use doordarshan_media_server.Base.Action.{◌>>=◌, pure}
use doordarshan_media_server.Sfu.Platform.{Platform}
use doordarshan_media_server.Sfu.Server.{Handler}
use doordarshan_media_server.Sfu.Producing.{Production}
use doordarshan_media_server.Service.Payload.{
  JoinMeetingPayload, GetParticipantsOfMeetingPayload, CreateTransportRequest, RestartIceRequest,
  GetRtpCapabilitiesRequest, PreMeetingDetailsRequest, ConnectTransportRequest, ConsumersRequest,
  ProducersRequest, LeaveMeetingRequest, EndMeetingRequest, CreateConsumeRequest,
  ReplaceMeetingsRequest, CreateMeetingPayload,
}
use doordarshan_media_server.Service.Answers.{Response, Decoder}
use doordarshan_media_server.Service.Meetings.{create_meeting, replace_meetings}
use doordarshan_media_server.Service.Profiler.{pprof_start}
use doordarshan_media_server.Service.Transports.{
  join_meeting, get_rtp_capabilities, get_producers_of_meeting, pre_meeting_details,
  connect_transport, restart_ice, recreate_producer_transport, recreate_consumer_transport,
  get_participant_producers, get_participant_consumers,
}
use doordarshan_media_server.Service.Media.{
  create_producer, create_consumer, resume_consumer, resume_producer, pause_producer,
  pause_consumer, close_producer, close_consumer, leave_meeting, end_meeting,
}

pub data Route : Type 0 where
  to_create_meeting : Route
  to_replace_meetings : Route
  to_join_meeting : Route
  to_get_producers_of_meeting : Route
  to_connect_transport : Route
  to_restart_ice : Route
  to_recreate_producer_transport : Route
  to_recreate_consumer_transport : Route
  to_create_consumer : Route
  to_create_producer : Route
  to_resume_consumer : Route
  to_resume_producer : Route
  to_pause_producer : Route
  to_pause_consumer : Route
  to_close_producer : Route
  to_close_consumer : Route
  to_leave_meeting : Route
  to_end_meeting : Route
  to_get_rtp_capabilities : Route
  to_pre_meeting_details : Route
  to_get_participant_producers : Route
  to_get_participant_consumers : Route
  to_pprof_start : Route

-- The methods that the routes tell apart.
pub data Method : Type 0 where
  get : Method
  post : Method

abbrev pub matches : Method → Method → Bool
matches Method.get Method.get = true
matches Method.post Method.post = true
matches Method.get Method.post = false
matches Method.post Method.get = false

unfoldable pub setup_routes : Dict (Method × Route)
setup_routes =
    ("/v1/createMeeting", (Method.post, Route.to_create_meeting))
    ∷ ("/v1/replaceMeetings", (Method.post, Route.to_replace_meetings))
    ∷ ("/v1/joinMeeting", (Method.post, Route.to_join_meeting))
    ∷ ("/v1/getProducersOfMeeting", (Method.post, Route.to_get_producers_of_meeting))
    ∷ ("/v1/connectTransport", (Method.post, Route.to_connect_transport))
    ∷ ("/v1/restartIce", (Method.post, Route.to_restart_ice))
    ∷ ("/v1/recreateProducerTransport", (Method.post, Route.to_recreate_producer_transport))
    ∷ ("/v1/recreateConsumerTransport", (Method.post, Route.to_recreate_consumer_transport))
    ∷ ("/v1/createConsumer", (Method.post, Route.to_create_consumer))
    ∷ ("/v1/createProducer", (Method.post, Route.to_create_producer))
    ∷ ("/v1/resumeConsumer", (Method.post, Route.to_resume_consumer))
    ∷ ("/v1/resumeProducer", (Method.post, Route.to_resume_producer))
    ∷ ("/v1/pauseProducer", (Method.post, Route.to_pause_producer))
    ∷ ("/v1/pauseConsumer", (Method.post, Route.to_pause_consumer))
    ∷ ("/v1/closeProducer", (Method.post, Route.to_close_producer))
    ∷ ("/v1/closeConsumer", (Method.post, Route.to_close_consumer))
    ∷ ("/v1/leaveMeeting", (Method.post, Route.to_leave_meeting))
    ∷ ("/v1/endMeeting", (Method.post, Route.to_end_meeting))
    ∷ ("/v1/getRTPCapabilities", (Method.post, Route.to_get_rtp_capabilities))
    ∷ ("/v1/preMeetingDetails", (Method.post, Route.to_pre_meeting_details))
    ∷ ("/v1/getParticipantProducers", (Method.post, Route.to_get_participant_producers))
    ∷ ("/v1/getParticipantConsumers", (Method.post, Route.to_get_participant_consumers))
    ∷ ("/v1/pprofStart", (Method.get, Route.to_pprof_start))
    ∷ []

module _ (x : Platform) where
  -- serde's decoder for each payload
  pub record Decoders : Type 0 where
    pub create_meeting_payload : Decoder CreateMeetingPayload
    pub replace_meetings_request : Decoder ReplaceMeetingsRequest
    pub join_meeting_payload : Decoder JoinMeetingPayload
    pub get_participants_payload : Decoder GetParticipantsOfMeetingPayload
    pub connect_transport_request : Decoder (ConnectTransportRequest x)
    pub restart_ice_request : Decoder RestartIceRequest
    pub create_transport_request : Decoder CreateTransportRequest
    pub create_consume_request : Decoder (CreateConsumeRequest x)
    pub create_produce_request : Decoder (Production × x.RtpParameters)
    pub consumers_request : Decoder ConsumersRequest
    pub producers_request : Decoder ProducersRequest
    pub leave_meeting_request : Decoder LeaveMeetingRequest
    pub end_meeting_request : Decoder EndMeetingRequest
    pub get_rtp_capabilities_request : Decoder GetRtpCapabilitiesRequest
    pub pre_meeting_details_request : Decoder PreMeetingDetailsRequest

  -- The status of a handler's response.
  unfoldable pub status_of : {B : Type 0} → Handler x (Response B) → Handler x ℕ
  status_of m = m >>= λ r. pure r.status

  -- What a route calls with the text of a request, up to the body of the response.
  unfoldable pub call : Decoders → Route → String → Handler x ℕ
  call d Route.to_create_meeting text = status_of (create_meeting x d.create_meeting_payload text)
  call d Route.to_replace_meetings text =
      status_of (replace_meetings x d.replace_meetings_request text)
  call d Route.to_join_meeting text = status_of (join_meeting x d.join_meeting_payload text)
  call d Route.to_get_producers_of_meeting text =
      status_of (get_producers_of_meeting x d.get_participants_payload text)
  call d Route.to_connect_transport text =
      status_of (connect_transport x d.connect_transport_request text)
  call d Route.to_restart_ice text = status_of (restart_ice x d.restart_ice_request text)
  call d Route.to_recreate_producer_transport text =
      status_of (recreate_producer_transport x d.create_transport_request text)
  call d Route.to_recreate_consumer_transport text =
      status_of (recreate_consumer_transport x d.create_transport_request text)
  call d Route.to_create_consumer text = status_of (create_consumer x d.create_consume_request text)
  call d Route.to_create_producer text = status_of (create_producer x d.create_produce_request text)
  call d Route.to_resume_consumer text = status_of (resume_consumer x d.consumers_request text)
  call d Route.to_resume_producer text = status_of (resume_producer x d.producers_request text)
  call d Route.to_pause_producer text = status_of (pause_producer x d.producers_request text)
  call d Route.to_pause_consumer text = status_of (pause_consumer x d.consumers_request text)
  call d Route.to_close_producer text = status_of (close_producer x d.producers_request text)
  call d Route.to_close_consumer text = status_of (close_consumer x d.consumers_request text)
  call d Route.to_leave_meeting text = status_of (leave_meeting x d.leave_meeting_request text)
  call d Route.to_end_meeting text = status_of (end_meeting x d.end_meeting_request text)
  call d Route.to_get_rtp_capabilities text =
      status_of (get_rtp_capabilities x d.get_rtp_capabilities_request text)
  call d Route.to_pre_meeting_details text =
      status_of (pre_meeting_details x d.pre_meeting_details_request text)
  call d Route.to_get_participant_producers text =
      status_of (get_participant_producers x d.restart_ice_request text)
  call d Route.to_get_participant_consumers text =
      status_of (get_participant_consumers x d.restart_ice_request text)
  call d Route.to_pprof_start text = status_of (pprof_start x)

  -- axum answers a path without a route with 404, and another method than the route's with 405.
  unfoldable pub answer_from : Decoders → Method → Option (Method × Route) → String → Handler x ℕ
  answer_from d method none text = pure 404
  answer_from d method (some (expected, route)) text =
      if matches expected method then call d route text else pure 405

  unfoldable pub serve : Decoders → Method → String → String → Handler x ℕ
  serve d method path text = answer_from d method (lookup path setup_routes) text
