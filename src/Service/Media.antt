-- ===== src/Service/Media.antt =====
-- The handlers of src/service/v1/mod.rs for producers and consumers, and for leaving and ending a
-- meeting.
use doordarshan_media_server.Base.{String, List, [], ◌∷◌, ◌++◌}
use doordarshan_media_server.Base.Texts.{format}
use doordarshan_media_server.Base.Dict.{Dict}
use doordarshan_media_server.Sfu.Platform.{Platform}
use doordarshan_media_server.Sfu.Server.{Handler}
use doordarshan_media_server.Sfu.Closing
use doordarshan_media_server.Sfu.Closing.{ProducerDetail}
use doordarshan_media_server.Sfu.Leaving
use doordarshan_media_server.Sfu.Leaving.{LeaveMeetingResponse}
use doordarshan_media_server.Sfu.Control
use doordarshan_media_server.Sfu.Consuming
use doordarshan_media_server.Sfu.Producing
use doordarshan_media_server.Sfu.Producing.{Production}
use doordarshan_media_server.Service.Payload.{
  GenericResponse, ConsumersRequest, ProducersRequest, LeaveMeetingRequest, EndMeetingRequest,
  CreateConsumeRequest, ConsumerDetails, ConsumerResponse,
}
use doordarshan_media_server.Service.Answers.{
  Response, Decoder, accepted, failed, with_payload, respond,
}

abbrev pub said : {A : Type 0} → String → A → Response GenericResponse
said text a = accepted (record { response = text })

abbrev pub failed_with : {B : Type 0} → String → String → Response B
failed_with what e = failed (format (what ∷ e ∷ []))

module _ (x : Platform) where
  open x use {Consumer, RtpParameters}

  unfoldable pub create_producer :
      Decoder (Production × RtpParameters) → String → Handler x (Response ProducerDetail)
  create_producer from_str request_payload = with_payload x from_str request_payload λ p.
      respond x (Producing.create_producer x p.0 p.1) accepted
        (λ e. failed "Error in creating producer")

  unfoldable pub details_of_kinds : String → Dict Consumer → List (ConsumerDetails x)
  details_of_kinds target_participant_id [] = []
  details_of_kinds target_participant_id ((kind, consumer) ∷ kinds) =
      record {
        consumer_id = x.consumer_id consumer;
        rtp_parameters = x.consumer_rtp_parameters consumer;
        producer_id = x.consumer_producer_id consumer;
        target_participant_id = target_participant_id;
        kind = kind;
      }
      ∷ details_of_kinds target_participant_id kinds

  -- The loops over the consumers that were created.
  unfoldable pub details_of : Dict (Dict Consumer) → List (ConsumerDetails x)
  details_of [] = []
  details_of ((target_participant_id, kinds) ∷ entries) =
      details_of_kinds target_participant_id kinds ++ details_of entries

  abbrev consumption_of : CreateConsumeRequest x → Consuming.Consumption
  consumption_of p = record {
    participant_id = p.participant_id;
    consumer_transport_id = p.transport_id;
    meeting_id = p.meeting_id;
    instance_id = p.instance_id;
  }

  unfoldable pub create_consumer :
      Decoder (CreateConsumeRequest x) → String → Handler x (Response (ConsumerResponse x))
  create_consumer from_str request_payload = with_payload x from_str request_payload λ p.
      respond x
        (Consuming.create_consumer x (consumption_of p) p.target_participants p.rtp_capabilities)
        (λ c. accepted (record { consumer_details = details_of c }))
        (failed_with "Error in creating consumer ")

  unfoldable pub resume_consumer :
      Decoder ConsumersRequest → String → Handler x (Response GenericResponse)
  resume_consumer from_str request_payload = with_payload x from_str request_payload λ p.
      respond x (Control.resume_consumer x p.consumer_ids p.meeting_id)
        (said "Successfully resumed") (failed_with "Error in resuming consumer ")

  unfoldable pub resume_producer :
      Decoder ProducersRequest → String → Handler x (Response (List ProducerDetail))
  resume_producer from_str request_payload = with_payload x from_str request_payload λ p.
      respond x (Control.resume_producer x p.participant_id p.producer_kind_map) accepted
        (failed_with "Error in resuming producer ")

  unfoldable pub pause_producer :
      Decoder ProducersRequest → String → Handler x (Response (List ProducerDetail))
  pause_producer from_str request_payload = with_payload x from_str request_payload λ p.
      respond x (Control.pause_producer x p.participant_id p.producer_kind_map) accepted
        (failed_with "Error in creating consumer ")

  unfoldable pub pause_consumer :
      Decoder ConsumersRequest → String → Handler x (Response GenericResponse)
  pause_consumer from_str request_payload = with_payload x from_str request_payload λ p.
      respond x (Control.pause_consumer x p.consumer_ids p.meeting_id) (said "Successfully paused")
        (failed_with "Error in creating consumer ")

  unfoldable pub close_producer :
      Decoder ProducersRequest → String → Handler x (Response (List ProducerDetail))
  close_producer from_str request_payload = with_payload x from_str request_payload λ p.
      respond x (Closing.close_producer x p.participant_id p.meeting_id p.producer_kind_map)
        accepted (failed_with "Error in closing producer ")

  unfoldable pub close_consumer :
      Decoder ConsumersRequest → String → Handler x (Response GenericResponse)
  close_consumer from_str request_payload = with_payload x from_str request_payload λ p.
      respond x (Closing.close_consumer x p.consumer_ids p.meeting_id)
        (said "Successfully closed consumer") (failed_with "Error in closing consumer ")

  unfoldable pub leave_meeting :
      Decoder LeaveMeetingRequest → String → Handler x (Response LeaveMeetingResponse)
  leave_meeting from_str request_payload = with_payload x from_str request_payload λ p.
      respond x
        (Leaving.leave_meeting x p.participant_id p.meeting_id p.instance_id p.producer_transport_id
          p.consumer_transport_id)
        accepted (failed_with "Error in leaving meeting ")

  unfoldable pub end_meeting :
      Decoder EndMeetingRequest → String → Handler x (Response GenericResponse)
  end_meeting from_str request_payload = with_payload x from_str request_payload λ p.
      respond x (Leaving.end_meeting x p.meeting_id p.router_ids p.transport_ids p.participant_ids)
        (said "Successfully ended meeting") (failed_with "Error in ending meeting ")
