-- ===== src/Service/Payload.antt =====
-- The payloads of src/service/payload.rs that the handlers read and answer with. Those that only name
-- the arguments of one call of the SFU, as create_producer's, are that call's record.
use doordarshan_media_server.Base.{String, Option, List}
use doordarshan_media_server.Base.Texts.{ℤ}
use doordarshan_media_server.Base.Dict.{Dict}
use doordarshan_media_server.Sfu.Platform.{Platform}
use doordarshan_media_server.Sfu.Closing.{ProducerDetail}

pub record RouterDetails : Type 0 where
  pub router_capacity : ℤ
  pub worker_id : String

pub record ReplaceMeetingPayload : Type 0 where
  pub producer_router_details : Option (List RouterDetails)
  pub consumer_router_details : Option (List RouterDetails)
  pub routers : Option RouterDetails
  pub meeting_id : String
  pub old_container_id : String
  pub new_container_id : String

pub record ReplaceMeetingsRequest : Type 0 where
  pub replace_meeting_requests : List ReplaceMeetingPayload

pub record CreateMeetingPayload : Type 0 where
  pub producer_router_details : Option (List RouterDetails)
  pub consumer_router_details : Option (List RouterDetails)
  pub routers : Option RouterDetails
  pub meeting_id : String
  pub container_id : String

pub record JoinMeetingPayload : Type 0 where
  pub producer_router_id : String
  pub consumer_router_id : String
  pub participant_id : String
  pub instance_id : String
  pub meeting_id : String

pub record GetParticipantsOfMeetingPayload : Type 0 where
  pub meeting_id : String

pub record CreateTransportRequest : Type 0 where
  pub meeting_id : String
  pub participant_id : String
  pub instance_id : String
  pub router_id : String
  pub old_producer_transport_id : Option String
  pub old_consumer_transport_id : Option String
  pub old_producer_ids : Option (List String)
  pub old_consumer_ids : Option (List String)

pub record RestartIceRequest : Type 0 where
  pub participant_id : String
  pub meeting_id : String
  pub transport_ids : List String

pub record GenericResponse : Type 0 where
  pub response : String

-- Resuming, pausing and closing of consumers.
pub record ConsumersRequest : Type 0 where
  pub participant_id : String
  pub meeting_id : String
  pub consumer_ids : List String

-- Resuming, pausing and closing of producers.
pub record ProducersRequest : Type 0 where
  pub participant_id : String
  pub meeting_id : String
  pub producer_kind_map : Dict String

pub record LeaveMeetingRequest : Type 0 where
  pub participant_id : String
  pub instance_id : String
  pub meeting_id : String
  pub producer_transport_id : Option String
  pub consumer_transport_id : Option String
  pub producer_ids : Option (List String)
  pub consumer_ids : Option (List String)

pub record EndMeetingRequest : Type 0 where
  pub meeting_id : String
  pub router_ids : List String
  pub transport_ids : List String
  pub producer_ids : List String
  pub consumer_ids : List String
  pub participant_ids : List String

pub record GetRtpCapabilitiesRequest : Type 0 where
  pub meeting_id : String
  pub producer_router_id : String
  pub consumer_router_id : String

pub record PreMeetingDetailsRequest : Type 0 where
  pub meeting_id : String
  pub producer_router_id : String
  pub consumer_router_id : String
  pub participant_id : String

module _ (x : Platform) where
  open x use {DtlsParameters, RtpParameters, RtpCapabilities, RtpCapabilitiesFinalized}

  -- `JoinMeetingResponse` and `GetRTPCapabilitiesResponse`
  pub record CapabilitiesResponse : Type 0 where
    pub producer_rtp_capabilities : RtpCapabilitiesFinalized
    pub consumer_rtp_capabilities : RtpCapabilitiesFinalized

  pub record PreClassDetailsResponse : Type 0 where
    pub producer_rtp_capabilities : RtpCapabilitiesFinalized
    pub consumer_rtp_capabilities : RtpCapabilitiesFinalized
    pub producer_details : List ProducerDetail

  pub record ConnectTransportRequest : Type 0 where
    pub participant_id : String
    pub transport_id : String
    pub dtls_parameters : DtlsParameters
    pub meeting_id : String

  pub record CreateConsumeRequest : Type 0 where
    pub participant_id : String
    pub rtp_capabilities : RtpCapabilities
    pub meeting_id : String
    pub transport_id : String
    pub target_participants : Dict (Dict String)
    pub instance_id : String

  pub record ConsumerDetails : Type 0 where
    pub consumer_id : String
    pub rtp_parameters : RtpParameters
    pub producer_id : String
    pub target_participant_id : String
    pub kind : String

  pub record ConsumerResponse : Type 0 where
    pub consumer_details : List ConsumerDetails
