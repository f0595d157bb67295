-- ===== src/Service/Plans.antt =====
-- What the routes of src/service/mod.rs promise: which calls of the SFU a request makes, with which
-- parts of its payload, and the status that follows from what they return.
use doordarshan_media_server.Base.{
  ℕ, String, Option, none, some, ◌⊎◌, inl, inr, List, [], ◌∷◌, Outcome, ok, err, panic,
}
use doordarshan_media_server.Base.Dict.{Dict, insert}
use doordarshan_media_server.Base.Action.{◌>>=◌, pure, panics}
use doordarshan_media_server.Sfu.Platform.{Platform}
use doordarshan_media_server.Sfu.Server.{Handler}
use doordarshan_media_server.Sfu.Queries
use doordarshan_media_server.Sfu.Joining
use doordarshan_media_server.Sfu.Closing
use doordarshan_media_server.Sfu.Leaving
use doordarshan_media_server.Sfu.Control
use doordarshan_media_server.Sfu.Consuming
use doordarshan_media_server.Sfu.Producing
use doordarshan_media_server.Sfu.Recreation
use doordarshan_media_server.Sfu.Ports.{get_router_capabilities}
use doordarshan_media_server.Sfu.Creation.{
  ProducerConsumerCapacity, create_meeting_and_routers_on_workers,
}
use doordarshan_media_server.Sfu.Batch.{MeetingPayload, batch_create_router_on_worker}
use doordarshan_media_server.Service.Payload.{RouterDetails, ReplaceMeetingPayload}
use doordarshan_media_server.Service.Meetings.{
  in_vector, router_capacity_of, producer_capacity_of, consumer_capacity_of, insert_details,
}
use doordarshan_media_server.Service.Profiler.{profiling}
use doordarshan_media_server.Service.Routes.{Route, Method, Decoders}

-- Where a route is found: under version 1, with the name of its handler.
unfoldable pub path_of : Route → String
path_of Route.to_create_meeting = "/v1/createMeeting"
path_of Route.to_replace_meetings = "/v1/replaceMeetings"
path_of Route.to_join_meeting = "/v1/joinMeeting"
path_of Route.to_get_producers_of_meeting = "/v1/getProducersOfMeeting"
path_of Route.to_connect_transport = "/v1/connectTransport"
path_of Route.to_restart_ice = "/v1/restartIce"
path_of Route.to_recreate_producer_transport = "/v1/recreateProducerTransport"
path_of Route.to_recreate_consumer_transport = "/v1/recreateConsumerTransport"
path_of Route.to_create_consumer = "/v1/createConsumer"
path_of Route.to_create_producer = "/v1/createProducer"
path_of Route.to_resume_consumer = "/v1/resumeConsumer"
path_of Route.to_resume_producer = "/v1/resumeProducer"
path_of Route.to_pause_producer = "/v1/pauseProducer"
path_of Route.to_pause_consumer = "/v1/pauseConsumer"
path_of Route.to_close_producer = "/v1/closeProducer"
path_of Route.to_close_consumer = "/v1/closeConsumer"
path_of Route.to_leave_meeting = "/v1/leaveMeeting"
path_of Route.to_end_meeting = "/v1/endMeeting"
path_of Route.to_get_rtp_capabilities = "/v1/getRTPCapabilities"
path_of Route.to_pre_meeting_details = "/v1/preMeetingDetails"
path_of Route.to_get_participant_producers = "/v1/getParticipantProducers"
path_of Route.to_get_participant_consumers = "/v1/getParticipantConsumers"
path_of Route.to_pprof_start = "/v1/pprofStart"

-- The profiler is got; everything else is posted.
unfoldable pub method_of : Route → Method
method_of Route.to_pprof_start = Method.get
method_of _ = Method.post

module _ (x : Platform) where
  -- 400; a panic; a query and what comes after it; 200; and a last call, with the status of its
  -- failure, whose success is 200.
  pub data Plan : Type 1 where
    malformed : Plan
    crashes : Plan
    reads : {A : Type 0} → Handler x A → Plan → Plan
    answers : Plan
    acts : {A : Type 0} → Handler x A → ℕ → Plan

  abbrev pub status_from : {A : Type 0} → ℕ → Outcome String A → Outcome String ℕ
  status_from failure (ok a) = ok 200
  status_from failure (err e) = ok failure
  status_from failure panic = panic

  unfoldable pub run : Plan → Handler x ℕ
  run malformed = pure 400
  run crashes = panics
  run (reads m plan) = m >>= λ _. run plan
  run answers = pure 200
  run (acts m failure) = λ s. (status_from failure (m s).0, (m s).1)

  -- The plan for a payload, if the text decodes.
  abbrev pub decoded : {P : Type 0} → (P → Plan) → P ⊎ String → Plan
  decoded f (inl p) = f p
  decoded f (inr e) = Plan.malformed

  -- The routers of a meeting: one on one worker, or those of both lists, of which the consumers' come
  -- last.
  unfoldable pub routers_of :
      {V : Type 0}
      → ((RouterDetails → ProducerConsumerCapacity) → RouterDetails → V)
      → Option RouterDetails
      → Option (List RouterDetails)
      → Option (List RouterDetails)
      → Option (Dict V)
  routers_of put (some r) producers consumers = some ((r.worker_id, put router_capacity_of r) ∷ [])
  routers_of put none (some ps) (some cs) = some (
      insert_details (put consumer_capacity_of) cs
        (insert_details (put producer_capacity_of) ps []))
  routers_of put none none consumers = none
  routers_of put none (some ps) none = none

  abbrev pub or_crash : {A : Type 0} → (A → Plan) → Option A → Plan
  or_crash f none = Plan.crashes
  or_crash f (some a) = f a

  abbrev pub replacing : ReplaceMeetingPayload → Dict ProducerConsumerCapacity → MeetingPayload
  replacing p workers = record {
    worker_payload = workers;
    old_container_id = p.old_container_id;
    new_container_id = p.new_container_id;
  }

  unfoldable pub replace_each : List ReplaceMeetingPayload → Dict MeetingPayload → Plan
  replace_each [] batch = Plan.acts (batch_create_router_on_worker x batch) 500
  replace_each (p ∷ ps) batch =
      or_crash (λ workers. replace_each ps (insert p.meeting_id (replacing p workers) batch))
        (routers_of (λ f. f) p.routers p.producer_router_details p.consumer_router_details)

  unfoldable pub plan : Decoders x → Route → String → Plan
  plan d Route.to_create_meeting text =
      decoded
        (λ p.
          or_crash
            (λ routers.
              Plan.acts
                (create_meeting_and_routers_on_workers x routers p.meeting_id p.container_id) 500)
            (routers_of (in_vector x) p.routers p.producer_router_details
              p.consumer_router_details))
        (d.create_meeting_payload text)
  plan d Route.to_replace_meetings text =
      decoded (λ p. replace_each p.replace_meeting_requests []) (d.replace_meetings_request text)
  plan d Route.to_join_meeting text =
      decoded
        (λ p.
          Plan.reads (get_router_capabilities x p.producer_router_id)
            (Plan.reads (get_router_capabilities x p.consumer_router_id) Plan.answers))
        (d.join_meeting_payload text)
  plan d Route.to_get_producers_of_meeting text =
      decoded (λ p. Plan.acts (Joining.get_producers_of_meeting x p.meeting_id) 200)
        (d.get_participants_payload text)
  plan d Route.to_connect_transport text =
      decoded (λ p. Plan.acts (Control.connect_transport x p.transport_id p.dtls_parameters) 500)
        (d.connect_transport_request text)
  plan d Route.to_restart_ice text =
      decoded (λ p. Plan.acts (Control.restart_ice x p.transport_ids) 500)
        (d.restart_ice_request text)
  plan d Route.to_recreate_producer_transport text =
      decoded
        (λ p.
          Plan.acts
            (Recreation.recreate_producer_transport_helper x p.participant_id p.meeting_id
              p.instance_id p.router_id p.old_producer_transport_id p.old_consumer_transport_id)
            500)
        (d.create_transport_request text)
  plan d Route.to_recreate_consumer_transport text =
      decoded
        (λ p.
          Plan.acts
            (Recreation.recreate_consumer_transport_helper x p.participant_id p.meeting_id
              p.instance_id p.router_id p.old_producer_transport_id p.old_consumer_transport_id)
            500)
        (d.create_transport_request text)
  plan d Route.to_create_consumer text =
      decoded
        (λ p.
          Plan.acts
            (Consuming.create_consumer x
              (record {
                participant_id = p.participant_id;
                consumer_transport_id = p.transport_id;
                meeting_id = p.meeting_id;
                instance_id = p.instance_id;
              })
              p.target_participants p.rtp_capabilities)
            500)
        (d.create_consume_request text)
  plan d Route.to_create_producer text =
      decoded (λ p. Plan.acts (Producing.create_producer x p.0 p.1) 500)
        (d.create_produce_request text)
  plan d Route.to_resume_consumer text =
      decoded (λ p. Plan.acts (Control.resume_consumer x p.consumer_ids p.meeting_id) 500)
        (d.consumers_request text)
  plan d Route.to_resume_producer text =
      decoded (λ p. Plan.acts (Control.resume_producer x p.participant_id p.producer_kind_map) 500)
        (d.producers_request text)
  plan d Route.to_pause_producer text =
      decoded (λ p. Plan.acts (Control.pause_producer x p.participant_id p.producer_kind_map) 500)
        (d.producers_request text)
  plan d Route.to_pause_consumer text =
      decoded (λ p. Plan.acts (Control.pause_consumer x p.consumer_ids p.meeting_id) 500)
        (d.consumers_request text)
  plan d Route.to_close_producer text =
      decoded
        (λ p.
          Plan.acts (Closing.close_producer x p.participant_id p.meeting_id p.producer_kind_map)
            500)
        (d.producers_request text)
  plan d Route.to_close_consumer text =
      decoded (λ p. Plan.acts (Closing.close_consumer x p.consumer_ids p.meeting_id) 500)
        (d.consumers_request text)
  plan d Route.to_leave_meeting text =
      decoded
        (λ p.
          Plan.acts
            (Leaving.leave_meeting x p.participant_id p.meeting_id p.instance_id
              p.producer_transport_id p.consumer_transport_id)
            500)
        (d.leave_meeting_request text)
  plan d Route.to_end_meeting text =
      decoded
        (λ p.
          Plan.acts
            (Leaving.end_meeting x p.meeting_id p.router_ids p.transport_ids p.participant_ids) 500)
        (d.end_meeting_request text)
  plan d Route.to_get_rtp_capabilities text =
      decoded
        (λ p.
          Plan.reads (get_router_capabilities x p.producer_router_id)
            (Plan.reads (get_router_capabilities x p.consumer_router_id) Plan.answers))
        (d.get_rtp_capabilities_request text)
  plan d Route.to_pre_meeting_details text =
      decoded
        (λ p. Plan.reads (get_router_capabilities x p.producer_router_id) (
          Plan.reads (get_router_capabilities x p.consumer_router_id)
            (Plan.acts (Joining.get_producers_of_meeting x p.meeting_id) 200)))
        (d.pre_meeting_details_request text)
  plan d Route.to_get_participant_producers text =
      decoded (λ p. Plan.reads (Queries.get_participant_producers x p.participant_id) Plan.answers)
        (d.restart_ice_request text)
  plan d Route.to_get_participant_consumers text =
      decoded
        (λ p.
          Plan.reads (Queries.get_participant_consumers x p.participant_id p.meeting_id)
            Plan.answers)
        (d.restart_ice_request text)
  plan d Route.to_pprof_start text = Plan.reads (profiling x) Plan.answers
