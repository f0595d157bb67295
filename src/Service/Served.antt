-- ===== src/Service/Served.antt =====
-- What a request to src/service does to the SFU of src/mediasoupv1/mod.rs.
use doordarshan_media_server.Base.{
  ℕ, ◌≤◌, ◌<◌, List, [], ◌∷◌, ok, ◌≡◌, String, Option, none, some, inl,
}
use doordarshan_media_server.Base.Dict.{lookup}
use doordarshan_media_server.Sfu.Platform.{Platform}
use doordarshan_media_server.Sfu.Server.{Server, get_shard}
use doordarshan_media_server.Sfu.Queries
use doordarshan_media_server.Sfu.Consuming.Rounds.{AreDistinct}
use doordarshan_media_server.Sfu.Reachable.{Step, Steps}
use doordarshan_media_server.Sfu.Reachable.Fresh.{reached-at_most_one}
use doordarshan_media_server.Sfu.Server.{SfuConfig}
use doordarshan_media_server.Sfu.Shards.{shard_of}
use doordarshan_media_server.Sfu.Start.{Outside, create_inner}
use doordarshan_media_server.Sfu.Consuming.{Consumption, is_existing}
use doordarshan_media_server.Sfu.Consuming.Counts.{count_where}
use doordarshan_media_server.Sfu.Producing.{Production, is_produced}
use doordarshan_media_server.Service.Payload.{CreateConsumeRequest}
use doordarshan_media_server.Service.Transports.{
  join_meeting, get_rtp_capabilities, get_producers_of_meeting, pre_meeting_details,
  connect_transport, restart_ice, recreate_producer_transport, recreate_consumer_transport,
  get_participant_producers, get_participant_consumers,
}
use doordarshan_media_server.Service.Media.{
  create_producer, create_consumer, resume_consumer, resume_producer, pause_producer,
  pause_consumer, close_producer, close_consumer, leave_meeting, end_meeting,
}
use doordarshan_media_server.Service.Routes.{
  Route, Method, matches, Decoders, setup_routes, call, answer_from, serve,
}
use doordarshan_media_server.Service.Calls.{
  append, Takes, one, Takes-bind, with_payload-Takes, status_of-Takes, calling-Takes, respond-Takes,
  create_meeting-Takes, replace_meetings-Takes, capabilities-Takes, if-Takes,
}
use doordarshan_media_server.Service.Profiler.{
  outside, expect, write_report, profile, profiling, pprof_start,
}

-- A request, with the text that it carries.
pub record Request : Type 0 where
  pub method : Method
  pub path : String
  pub text : String

module _ (x : Platform) where
  -- A `HashMap` that is decoded has each key once.
  abbrev pub HasMaps : Decoders x → Type 0
  HasMaps d =
      (text : String) (p : CreateConsumeRequest x)
      → d.create_consume_request text ≡ inl p
      → AreDistinct x p.target_participants

  get_shard-Takes : (m : String) → Takes x (get_shard x m)
  unfolding get_shard
  get_shard-Takes m s = Steps.none_yet

  outside-Takes : {A : Type 0} (f : x.World → Option A × x.World) → Takes x (outside x f)
  unfolding outside
  outside-Takes f s = one x (Step.goes_on (f s.world).1 s)

  expect-Takes : {A : Type 0} (o : Option A) → Takes x (expect x o)
  expect-Takes none = λ s. Steps.none_yet
  expect-Takes (some a) = λ s. Steps.none_yet

  write_report-Takes : (o : Option x.Report) → Takes x (write_report x o)
  unfolding write_report
  write_report-Takes none = λ s. Steps.none_yet
  write_report-Takes (some report) = Takes-bind x _ _ (outside-Takes _) λ created.
      Takes-bind x _ _ (expect-Takes created)
        λ _. Takes-bind x _ _ (outside-Takes _) λ written. expect-Takes written

  profiling-Takes : Takes x (profiling x)
  unfolding profiling profile
  profiling-Takes = Takes-bind x _ _ (outside-Takes _) λ built.
      Takes-bind x _ _ (expect-Takes built) λ guard.
        Takes-bind x _ _ (λ s. one x (Step.goes_on (x.sleep 30 s.world) s))
          λ _. Takes-bind x _ _ (outside-Takes _) write_report-Takes

  pprof_start-Takes : Takes x (pprof_start x)
  unfolding pprof_start
  pprof_start-Takes = Takes-bind x _ _ profiling-Takes λ _ s. Steps.none_yet

  call-Takes :
      (d : Decoders x) → HasMaps d → (route : Route) (text : String) → Takes x (call x d route text)
  unfolding call join_meeting get_rtp_capabilities get_producers_of_meeting pre_meeting_details
      connect_transport restart_ice recreate_producer_transport recreate_consumer_transport
      get_participant_producers get_participant_consumers create_producer create_consumer
      resume_consumer resume_producer pause_producer pause_consumer close_producer close_consumer
      leave_meeting end_meeting Queries.get_participant_producers Queries.get_participant_consumers
  call-Takes d h Route.to_create_meeting text =
      status_of-Takes x _ (create_meeting-Takes x d.create_meeting_payload text)
  call-Takes d h Route.to_replace_meetings text =
      status_of-Takes x _ (replace_meetings-Takes x d.replace_meetings_request text)
  call-Takes d h Route.to_join_meeting text = status_of-Takes x _ (
      with_payload-Takes x _ text _ λ p _.
        Takes-bind x _ _ (capabilities-Takes x p.producer_router_id p.consumer_router_id)
          λ c s. Steps.none_yet)
  call-Takes d h Route.to_get_producers_of_meeting text =
      calling-Takes x _ text _ _ _ λ p _ s. one x (Step.lists_producers p.meeting_id s)
  call-Takes d h Route.to_connect_transport text =
      calling-Takes x _ text _ _ _ λ p _ s. one x (Step.connects p.transport_id p.dtls_parameters s)
  call-Takes d h Route.to_restart_ice text =
      calling-Takes x _ text _ _ _ λ p _ s. one x (Step.restarts p.transport_ids s)
  call-Takes d h Route.to_recreate_producer_transport text = calling-Takes x _ text _ _ _ λ p _ s.
      one x (
        Step.recreates_producer_transport p.participant_id p.meeting_id p.instance_id p.router_id
          p.old_producer_transport_id p.old_consumer_transport_id s)
  call-Takes d h Route.to_recreate_consumer_transport text = calling-Takes x _ text _ _ _ λ p _ s.
      one x (
        Step.recreates_consumer_transport p.participant_id p.meeting_id p.instance_id p.router_id
          p.old_producer_transport_id p.old_consumer_transport_id s)
  call-Takes d h Route.to_create_consumer text =
      calling-Takes x _ text _ _ _
        λ p e s. one x (Step.consumes _ p.target_participants p.rtp_capabilities s (h text p e))
  call-Takes d h Route.to_create_producer text =
      calling-Takes x _ text _ _ _ λ p _ s. one x (Step.produces p.0 p.1 s)
  call-Takes d h Route.to_resume_consumer text =
      calling-Takes x _ text _ _ _
        λ p _ s. one x (Step.resumes_consumers p.consumer_ids p.meeting_id s)
  call-Takes d h Route.to_resume_producer text =
      calling-Takes x _ text _ _ _
        λ p _ s. one x (Step.resumes_producers p.participant_id p.producer_kind_map s)
  call-Takes d h Route.to_pause_producer text =
      calling-Takes x _ text _ _ _
        λ p _ s. one x (Step.pauses_producers p.participant_id p.producer_kind_map s)
  call-Takes d h Route.to_pause_consumer text =
      calling-Takes x _ text _ _ _
        λ p _ s. one x (Step.pauses_consumers p.consumer_ids p.meeting_id s)
  call-Takes d h Route.to_close_producer text =
      calling-Takes x _ text _ _ _
        λ p _ s. one x (Step.closes_producers p.participant_id p.meeting_id p.producer_kind_map s)
  call-Takes d h Route.to_close_consumer text =
      calling-Takes x _ text _ _ _
        λ p _ s. one x (Step.closes_consumers p.consumer_ids p.meeting_id s)
  call-Takes d h Route.to_leave_meeting text = calling-Takes x _ text _ _ _ λ p _ s. one x (
      Step.leaves p.participant_id p.meeting_id p.instance_id p.producer_transport_id
        p.consumer_transport_id s)
  call-Takes d h Route.to_end_meeting text =
      calling-Takes x _ text _ _ _
        λ p _ s. one x (Step.ends p.meeting_id p.router_ids p.transport_ids p.participant_ids s)
  call-Takes d h Route.to_get_rtp_capabilities text = status_of-Takes x _ (
      with_payload-Takes x _ text _ λ p _.
        Takes-bind x _ _ (capabilities-Takes x p.producer_router_id p.consumer_router_id)
          λ c s. Steps.none_yet)
  call-Takes d h Route.to_pre_meeting_details text = status_of-Takes x _ (
      with_payload-Takes x _ text _ λ p _.
        Takes-bind x _ _ (capabilities-Takes x p.producer_router_id p.consumer_router_id)
          λ c. respond-Takes x _ _ _ λ s. one x (Step.lists_producers p.meeting_id s))
  call-Takes d h Route.to_get_participant_producers text = status_of-Takes x _ (
      with_payload-Takes x _ text _
        λ p _. Takes-bind x _ _ (λ s. Steps.none_yet) λ c s. Steps.none_yet)
  call-Takes d h Route.to_get_participant_consumers text = status_of-Takes x _ (
      with_payload-Takes x _ text _ λ p _.
        Takes-bind x _ _ (Takes-bind x _ _ (get_shard-Takes p.meeting_id) λ c s. Steps.none_yet)
          λ c s. Steps.none_yet)
  call-Takes d h Route.to_pprof_start text = status_of-Takes x _ pprof_start-Takes

  answer_from-Takes :
      (d : Decoders x) (method : Method)
      → HasMaps d
      → (o : Option (Method × Route)) (text : String) → Takes x (answer_from x d method o text)
  unfolding answer_from
  answer_from-Takes d method h none text = λ s. Steps.none_yet
  answer_from-Takes d method h (some (expected, route)) text =
      if-Takes x (matches expected method) _ _ (call-Takes d h route text) (λ s. Steps.none_yet)

  -- A request takes the SFU through steps of its own.
  serve-Steps :
      (d : Decoders x) (method : Method) (path text : String) (s : Server x)
      → HasMaps d
      → Steps x s (serve x d method path text s).1
  unfolding serve
  serve-Steps d method path text s h =
      answer_from-Takes d method h (lookup path setup_routes) text s

  -- The requests of a list, one after another.
  unfoldable pub serve_all : Decoders x → List Request → Server x → Server x
  serve_all d [] s = s
  serve_all d (r ∷ requests) s = serve_all d requests (serve x d r.method r.path r.text s).1

  serve_all-Steps :
      (d : Decoders x) (requests : List Request) (s : Server x)
      → HasMaps d
      → Steps x s (serve_all d requests s)
  unfolding serve_all
  serve_all-Steps d [] s h = Steps.none_yet
  serve_all-Steps d (r ∷ requests) s h =
      append x (serve-Steps d r.method r.path r.text s h)
        (serve_all-Steps d requests (serve x d r.method r.path r.text s).1 h)

  -- Of a server that `create_inner` made with at least one shard, after any list of requests, with any
  -- methods, paths and texts, if the decoder of a consume request gives maps without repeated keys: a
  -- participant of a meeting has at most one producer of each kind, and in the shard of a meeting, a
  -- participant's instance has at most one consumer of each kind of each participant.
  pub serve_all-at_most_one :
      (d : Decoders x) (requests : List Request) (config : SfuConfig) (boot : ℕ)
      (ip tenant : String) (o : Outside x) (s : Server x) (c : Consumption) (target kind : String)
      (p : Production)
      → HasMaps d
      → 0 < config.consumer_shard_count
      → (create_inner x config boot ip tenant o).0 ≡ ok s
      → (count_where
            (is_existing x c target kind)
            (shard_of x c.meeting_id (serve_all d requests s))
          ≤ 1)
        × (count_where (is_produced x p) (serve_all d requests s).producer_map ≤ 1)
  serve_all-at_most_one d requests config boot ip tenant o s c target kind p maps h made =
      reached-at_most_one x config boot ip tenant o s (serve_all d requests s) c target kind p h
        made (serve_all-Steps d requests s maps)
