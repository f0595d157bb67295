-- ===== src/Service/Transports.antt =====
-- The handlers of src/service/v1/mod.rs for transports, for the capabilities of routers and for what
-- a meeting has.
use doordarshan_media_server.Base.{String, List}
use doordarshan_media_server.Base.Dict.{Dict}
use doordarshan_media_server.Base.Action.{◌>>=◌, pure}
use doordarshan_media_server.Sfu.Platform.{Platform}
use doordarshan_media_server.Sfu.Server.{Handler}
use doordarshan_media_server.Sfu.Closing.{ProducerDetail}
use doordarshan_media_server.Sfu.Queries
use doordarshan_media_server.Sfu.Joining
use doordarshan_media_server.Sfu.Control
use doordarshan_media_server.Sfu.Ports.{get_router_capabilities}
use doordarshan_media_server.Sfu.Recreation.{
  RecreateProducerTransportResponse, CreateTransportResponse, recreate_producer_transport_helper,
  recreate_consumer_transport_helper,
}
use doordarshan_media_server.Service.Payload.{
  JoinMeetingPayload, GetParticipantsOfMeetingPayload, CreateTransportRequest, RestartIceRequest,
  GenericResponse, GetRtpCapabilitiesRequest, PreMeetingDetailsRequest, CapabilitiesResponse,
  PreClassDetailsResponse, ConnectTransportRequest,
}
use doordarshan_media_server.Service.Answers.{
  Response, Decoder, accepted, failed, told_plainly, with_payload, respond,
}

module _ (x : Platform) where
  open x use {IceParameters}

  unfoldable pub capabilities : String → String → Handler x (CapabilitiesResponse x)
  capabilities producer_router_id consumer_router_id = do
    producer_rtp_capabilities ← get_router_capabilities x producer_router_id
    consumer_rtp_capabilities ← get_router_capabilities x consumer_router_id
    pure (record {
      producer_rtp_capabilities = producer_rtp_capabilities;
      consumer_rtp_capabilities = consumer_rtp_capabilities;
    })

  unfoldable pub join_meeting :
      Decoder JoinMeetingPayload → String → Handler x (Response (CapabilitiesResponse x))
  join_meeting from_str request_payload =
      with_payload x from_str request_payload
        λ p. (do c ← capabilities p.producer_router_id p.consumer_router_id; pure (accepted c))

  unfoldable pub get_rtp_capabilities :
      Decoder GetRtpCapabilitiesRequest → String → Handler x (Response (CapabilitiesResponse x))
  get_rtp_capabilities from_str request_payload =
      with_payload x from_str request_payload
        λ p. (do c ← capabilities p.producer_router_id p.consumer_router_id; pure (accepted c))

  unfoldable pub get_producers_of_meeting :
      Decoder GetParticipantsOfMeetingPayload → String → Handler x (Response (List ProducerDetail))
  get_producers_of_meeting from_str request_payload = with_payload x from_str request_payload λ p.
      respond x (Joining.get_producers_of_meeting x p.meeting_id) accepted
        (λ e. told_plainly "Error in getting participants of meeting")

  unfoldable pub pre_meeting_details :
      Decoder PreMeetingDetailsRequest → String → Handler x (Response (PreClassDetailsResponse x))
  pre_meeting_details from_str request_payload = with_payload x from_str request_payload λ p. (do
    c ← capabilities p.producer_router_id p.consumer_router_id
    respond x (Joining.get_producers_of_meeting x p.meeting_id)
        (λ o. accepted (record {
          producer_rtp_capabilities = c.producer_rtp_capabilities;
          consumer_rtp_capabilities = c.consumer_rtp_capabilities;
          producer_details = o;
        }))
        (λ e. told_plainly "Error in getting participants of meeting"))

  unfoldable pub connect_transport :
      Decoder (ConnectTransportRequest x) → String → Handler x (Response GenericResponse)
  connect_transport from_str request_payload = with_payload x from_str request_payload λ p.
      respond x (Control.connect_transport x p.transport_id p.dtls_parameters)
        (λ o. accepted (record { response = o }))
        (λ e. failed "Error in connecting producer transport")

  unfoldable pub restart_ice :
      Decoder RestartIceRequest → String → Handler x (Response (Dict IceParameters))
  restart_ice from_str request_payload = with_payload x from_str request_payload λ p.
      respond x (Control.restart_ice x p.transport_ids) accepted
        (λ e. failed "Error in restarting ice")

  unfoldable pub recreate_producer_transport :
      Decoder CreateTransportRequest
      → String
      → Handler x (Response (RecreateProducerTransportResponse x))
  recreate_producer_transport from_str request_payload =
      with_payload x from_str request_payload λ p.
        respond x
          (recreate_producer_transport_helper x p.participant_id p.meeting_id p.instance_id
            p.router_id p.old_producer_transport_id p.old_consumer_transport_id)
          accepted (λ e. failed "Error in creating producer transport")

  unfoldable pub recreate_consumer_transport :
      Decoder CreateTransportRequest → String → Handler x (Response (CreateTransportResponse x))
  recreate_consumer_transport from_str request_payload =
      with_payload x from_str request_payload λ p.
        respond x
          (recreate_consumer_transport_helper x p.participant_id p.meeting_id p.instance_id
            p.router_id p.old_producer_transport_id p.old_consumer_transport_id)
          accepted (λ e. failed "Failed to fetch producers of meeting")

  unfoldable pub get_participant_producers :
      Decoder RestartIceRequest → String → Handler x (Response (List String))
  get_participant_producers from_str request_payload = with_payload x from_str request_payload λ p.
      (do
        producers ← Queries.get_participant_producers x p.participant_id
        pure (accepted producers))

  unfoldable pub get_participant_consumers :
      Decoder RestartIceRequest → String → Handler x (Response (List String))
  get_participant_consumers from_str request_payload = with_payload x from_str request_payload λ p.
      (do
        consumers ← Queries.get_participant_consumers x p.participant_id p.meeting_id
        pure (accepted consumers))
