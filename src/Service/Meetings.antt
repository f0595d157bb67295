-- ===== src/Service/Meetings.antt =====
-- The handlers of src/service/v1/mod.rs that create and replace meetings.
use doordarshan_media_server.Base.{
  String, Bool, Option, none, some, is_some, is_none, ◌&&◌, List, [], ◌∷◌, if◌then◌else◌,
}
use doordarshan_media_server.Base.Texts.{format}
use doordarshan_media_server.Base.Dict.{Dict, insert}
use doordarshan_media_server.Base.Action.{◌>>=◌, pure, unwrap}
use doordarshan_media_server.Sfu.Platform.{Platform}
use doordarshan_media_server.Sfu.Server.{Handler}
use doordarshan_media_server.Sfu.Creation.{
  ProducerConsumerCapacity, create_meeting_and_routers_on_workers,
}
use doordarshan_media_server.Sfu.Batch.{MeetingPayload, batch_create_router_on_worker}
use doordarshan_media_server.Service.Payload.{
  RouterDetails, ReplaceMeetingPayload, ReplaceMeetingsRequest, CreateMeetingPayload,
  GenericResponse,
}
use doordarshan_media_server.Service.Answers.{
  Response, Decoder, message, accepted, failed, with_payload, respond,
}

abbrev pub router_capacity_of : RouterDetails → ProducerConsumerCapacity
router_capacity_of r = record {
  producer_capacity = none;
  consumer_capacity = none;
  capacity = some r.router_capacity;
}

abbrev pub producer_capacity_of : RouterDetails → ProducerConsumerCapacity
producer_capacity_of r = record {
  producer_capacity = some r.router_capacity;
  consumer_capacity = none;
  capacity = none;
}

abbrev pub consumer_capacity_of : RouterDetails → ProducerConsumerCapacity
consumer_capacity_of r = record {
  producer_capacity = none;
  consumer_capacity = some r.router_capacity;
  capacity = none;
}

-- A loop over router details, which gives each one's worker what `f` makes of it.
unfoldable pub insert_details :
    {V : Type 0} → (RouterDetails → V) → List RouterDetails → Dict V → Dict V
insert_details f [] workers = workers
insert_details f (r ∷ rs) workers = insert_details f rs (insert r.worker_id (f r) workers)

-- The test of the payload.
unfoldable pub is_rejected : CreateMeetingPayload → Bool
is_rejected p =
    is_none p.routers
    && ((is_none p.producer_router_details && is_some p.consumer_router_details)
        && (is_some p.producer_router_details && is_none p.consumer_router_details))

abbrev pub meeting_error : String → String
meeting_error e = format ("Error in creation of meeting " ∷ e ∷ [])

module _ (x : Platform) where
  abbrev pub in_vector :
      (RouterDetails → ProducerConsumerCapacity) → RouterDetails → List ProducerConsumerCapacity
  in_vector f r = f r ∷ []

  unfoldable pub worker_router_capacity :
      Option RouterDetails
      → Option (List RouterDetails)
      → Option (List RouterDetails)
      → Handler x (Dict (List ProducerConsumerCapacity))
  worker_router_capacity (some router) producers consumers =
      pure (insert router.worker_id (router_capacity_of router ∷ []) [])
  worker_router_capacity none producers consumers = do
    producer_router_details ← unwrap producers
    consumer_router_details ← unwrap consumers
    pure (
        insert_details (in_vector consumer_capacity_of) consumer_router_details
          (insert_details (in_vector producer_capacity_of) producer_router_details []))

  -- The end of create_meeting.
  unfoldable pub create_with :
      CreateMeetingPayload
      → Dict (List ProducerConsumerCapacity)
      → Handler x (Response GenericResponse)
  create_with p capacities =
      respond x (create_meeting_and_routers_on_workers x capacities p.meeting_id p.container_id)
        (λ o. accepted (record { response = o })) (λ e. failed (meeting_error e))

  unfoldable pub create_meeting :
      Decoder CreateMeetingPayload → String → Handler x (Response GenericResponse)
  create_meeting from_str request_payload = with_payload x from_str request_payload λ p.
      if is_rejected p
      then pure (record {
        status = 400;
        body =
            message
              "Neither single router details are present nor producer and consumer details are absent";
      })
      else (do
        capacities ←
            worker_router_capacity p.routers p.producer_router_details p.consumer_router_details
        create_with p capacities)

  unfoldable pub worker_payload :
      Option RouterDetails
      → Option (List RouterDetails)
      → Option (List RouterDetails)
      → Handler x (Dict ProducerConsumerCapacity)
  worker_payload (some router) producers consumers =
      pure (insert router.worker_id (router_capacity_of router) [])
  worker_payload none producers consumers = do
    producer_router_details ← unwrap producers
    consumer_router_details ← unwrap consumers
    pure (
        insert_details consumer_capacity_of consumer_router_details
          (insert_details producer_capacity_of producer_router_details []))

  abbrev meeting_payload : ReplaceMeetingPayload → Dict ProducerConsumerCapacity → MeetingPayload
  meeting_payload p workers = record {
    worker_payload = workers;
    old_container_id = p.old_container_id;
    new_container_id = p.new_container_id;
  }

  unfoldable pub batch_router_payload :
      List ReplaceMeetingPayload → Dict MeetingPayload → Handler x (Dict MeetingPayload)
  batch_router_payload [] batch = pure batch
  batch_router_payload (p ∷ ps) batch = do
    workers ← worker_payload p.routers p.producer_router_details p.consumer_router_details
    batch_router_payload ps (insert p.meeting_id (meeting_payload p workers) batch)

  unfoldable pub replace_meetings :
      Decoder ReplaceMeetingsRequest → String → Handler x (Response String)
  replace_meetings from_str request_payload = with_payload x from_str request_payload λ p. (do
    batch ← batch_router_payload p.replace_meeting_requests []
    respond x (batch_create_router_on_worker x batch) accepted (λ e. failed (meeting_error e)))
