-- ===== src/Service/Planned.antt =====
-- The routes of src/service/mod.rs and the handlers of src/service/v1/mod.rs keep what they promise.
use mathlib.Core.Path.{fun_ext}
use doordarshan_media_server.Base.{ℕ, ◌≡◌, refl, ap, String, if◌then◌else◌, some, []}
use doordarshan_media_server.Base.Dict.{lookup}
use doordarshan_media_server.Base.Action.{pure}
use doordarshan_media_server.Sfu.Platform.{Platform}
use doordarshan_media_server.Sfu.Server.{Server, Handler}
use doordarshan_media_server.Service.Meetings.{is_rejected, create_meeting, replace_meetings}
use doordarshan_media_server.Service.Capacities.{is_rejected-false}
use doordarshan_media_server.Service.Transports.{
  join_meeting, get_rtp_capabilities, get_producers_of_meeting, pre_meeting_details,
  connect_transport, restart_ice, recreate_producer_transport, recreate_consumer_transport,
  get_participant_producers, get_participant_consumers,
}
use doordarshan_media_server.Service.Media.{
  create_producer, create_consumer, resume_consumer, resume_producer, pause_producer,
  pause_consumer, close_producer, close_consumer, leave_meeting, end_meeting,
}
use doordarshan_media_server.Service.Profiler.{profiling, pprof_start}
use doordarshan_media_server.Service.Routes.{
  Route, Method, matches, Decoders, setup_routes, call, answer_from, serve,
}
use doordarshan_media_server.Service.Plans.{run, plan, path_of, method_of}
use doordarshan_media_server.Service.Follows.{
  with_payload-Follows, respond-Follows, bind-Follows, pure-Follows, calling-Follows,
  capabilities-Follows, rejecting-Follows, create_meeting-Follows, replace_from,
}

module _ (x : Platform) where
  call-plan :
      (d : Decoders x) (route : Route) (text : String) (s : Server x)
      → call x d route text s ≡ run x (plan x d route text) s
  unfolding call plan pprof_start create_meeting replace_meetings join_meeting get_rtp_capabilities
      get_producers_of_meeting pre_meeting_details connect_transport restart_ice
      recreate_producer_transport recreate_consumer_transport get_participant_producers
      get_participant_consumers create_producer create_consumer resume_consumer resume_producer
      pause_producer pause_consumer close_producer close_consumer leave_meeting end_meeting
  call-plan d Route.to_create_meeting text = with_payload-Follows x _ text _ _ λ p.
      rejecting-Follows x (is_rejected p) _ _ _ (is_rejected-false x p)
        (create_meeting-Follows x p p.routers p.producer_router_details p.consumer_router_details)
  call-plan d Route.to_replace_meetings text =
      with_payload-Follows x _ text _ _ λ p. replace_from x p.replace_meeting_requests []
  call-plan d Route.to_join_meeting text = with_payload-Follows x _ text _ _ λ p.
      capabilities-Follows x p.producer_router_id p.consumer_router_id _ _
        λ c. pure-Follows x _ refl
  call-plan d Route.to_get_rtp_capabilities text = with_payload-Follows x _ text _ _ λ p.
      capabilities-Follows x p.producer_router_id p.consumer_router_id _ _
        λ c. pure-Follows x _ refl
  call-plan d Route.to_pre_meeting_details text = with_payload-Follows x _ text _ _ λ p.
      capabilities-Follows x p.producer_router_id p.consumer_router_id _ _
        λ c. respond-Follows x _ _ _ 200 (λ a. refl) (λ e. refl)
  call-plan d Route.to_get_participant_producers text =
      with_payload-Follows x _ text _ _ λ p. bind-Follows x _ _ _ λ a. pure-Follows x _ refl
  call-plan d Route.to_get_participant_consumers text =
      with_payload-Follows x _ text _ _ λ p. bind-Follows x _ _ _ λ a. pure-Follows x _ refl
  call-plan d Route.to_pprof_start text =
      bind-Follows x (profiling x) _ _ λ _. pure-Follows x _ refl
  call-plan d Route.to_get_producers_of_meeting text =
      calling-Follows x _ text _ _ _ 200 (λ p a. refl) (λ p e. refl)
  call-plan d Route.to_connect_transport text =
      calling-Follows x _ text _ _ _ 500 (λ p a. refl) (λ p e. refl)
  call-plan d Route.to_restart_ice text =
      calling-Follows x _ text _ _ _ 500 (λ p a. refl) (λ p e. refl)
  call-plan d Route.to_recreate_producer_transport text =
      calling-Follows x _ text _ _ _ 500 (λ p a. refl) (λ p e. refl)
  call-plan d Route.to_recreate_consumer_transport text =
      calling-Follows x _ text _ _ _ 500 (λ p a. refl) (λ p e. refl)
  call-plan d Route.to_create_consumer text =
      calling-Follows x _ text _ _ _ 500 (λ p a. refl) (λ p e. refl)
  call-plan d Route.to_create_producer text =
      calling-Follows x _ text _ _ _ 500 (λ p a. refl) (λ p e. refl)
  call-plan d Route.to_resume_consumer text =
      calling-Follows x _ text _ _ _ 500 (λ p a. refl) (λ p e. refl)
  call-plan d Route.to_resume_producer text =
      calling-Follows x _ text _ _ _ 500 (λ p a. refl) (λ p e. refl)
  call-plan d Route.to_pause_producer text =
      calling-Follows x _ text _ _ _ 500 (λ p a. refl) (λ p e. refl)
  call-plan d Route.to_pause_consumer text =
      calling-Follows x _ text _ _ _ 500 (λ p a. refl) (λ p e. refl)
  call-plan d Route.to_close_producer text =
      calling-Follows x _ text _ _ _ 500 (λ p a. refl) (λ p e. refl)
  call-plan d Route.to_close_consumer text =
      calling-Follows x _ text _ _ _ 500 (λ p a. refl) (λ p e. refl)
  call-plan d Route.to_leave_meeting text =
      calling-Follows x _ text _ _ _ 500 (λ p a. refl) (λ p e. refl)
  call-plan d Route.to_end_meeting text =
      calling-Follows x _ text _ _ _ 500 (λ p a. refl) (λ p e. refl)

  lookup-path_of :
      (route : Route) → lookup (path_of route) setup_routes ≡ some (method_of route, route)
  unfolding lookup setup_routes path_of method_of
  lookup-path_of Route.to_create_meeting = refl
  lookup-path_of Route.to_replace_meetings = refl
  lookup-path_of Route.to_join_meeting = refl
  lookup-path_of Route.to_get_producers_of_meeting = refl
  lookup-path_of Route.to_connect_transport = refl
  lookup-path_of Route.to_restart_ice = refl
  lookup-path_of Route.to_recreate_producer_transport = refl
  lookup-path_of Route.to_recreate_consumer_transport = refl
  lookup-path_of Route.to_create_consumer = refl
  lookup-path_of Route.to_create_producer = refl
  lookup-path_of Route.to_resume_consumer = refl
  lookup-path_of Route.to_resume_producer = refl
  lookup-path_of Route.to_pause_producer = refl
  lookup-path_of Route.to_pause_consumer = refl
  lookup-path_of Route.to_close_producer = refl
  lookup-path_of Route.to_close_consumer = refl
  lookup-path_of Route.to_leave_meeting = refl
  lookup-path_of Route.to_end_meeting = refl
  lookup-path_of Route.to_get_rtp_capabilities = refl
  lookup-path_of Route.to_pre_meeting_details = refl
  lookup-path_of Route.to_get_participant_producers = refl
  lookup-path_of Route.to_get_participant_consumers = refl
  lookup-path_of Route.to_pprof_start = refl

  pub serve-plan :
      (d : Decoders x) (route : Route) (method : Method) (text : String) (s : Server x)
      → serve x d method (path_of route) text s
        ≡ (if matches (method_of route) method then run x (plan x d route text) else pure 405) s
  unfolding serve answer_from
  serve-plan d route method text s = rw (lookup-path_of route) (
      ap {A = Handler x ℕ} (λ f. (if matches (method_of route) method then f else pure 405) s)
        (fun_ext (call-plan d route text)))
