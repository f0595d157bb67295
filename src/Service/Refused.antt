-- ===== src/Service/Refused.antt =====
-- What a request of src/service gets whose text does not decode, or whose call of the SFU fails.
use doordarshan_media_server.Base.{◌≡◌, refl, String, inr, ok}
use doordarshan_media_server.Base.Action.{◌>>=◌}
use doordarshan_media_server.Sfu.Platform.{Platform}
use doordarshan_media_server.Sfu.Server.{Server, Handler}
use doordarshan_media_server.Service.Answers.{Response, Decoder, with_payload, parse_payload}
use doordarshan_media_server.Service.Meetings.{create_meeting, replace_meetings}
use doordarshan_media_server.Service.Transports.{
  join_meeting, get_rtp_capabilities, get_producers_of_meeting, pre_meeting_details,
  connect_transport, restart_ice, recreate_producer_transport, recreate_consumer_transport,
  get_participant_producers, get_participant_consumers,
}
use doordarshan_media_server.Service.Media.{
  create_producer, create_consumer, resume_consumer, resume_producer, pause_producer,
  pause_consumer, close_producer, close_consumer, leave_meeting, end_meeting,
}
use doordarshan_media_server.Service.Routes.{Route, Decoders, status_of, call}

module _ (x : Platform) where
  -- The decoder of a route's payload gives an error for a text. The profiler's route has no payload.
  abbrev pub IsMalformed : Decoders x → Route → String → String → Type 0
  IsMalformed d Route.to_create_meeting text e = d.create_meeting_payload text ≡ inr e
  IsMalformed d Route.to_replace_meetings text e = d.replace_meetings_request text ≡ inr e
  IsMalformed d Route.to_join_meeting text e = d.join_meeting_payload text ≡ inr e
  IsMalformed d Route.to_get_producers_of_meeting text e = d.get_participants_payload text ≡ inr e
  IsMalformed d Route.to_connect_transport text e = d.connect_transport_request text ≡ inr e
  IsMalformed d Route.to_restart_ice text e = d.restart_ice_request text ≡ inr e
  IsMalformed d Route.to_recreate_producer_transport text e =
      d.create_transport_request text ≡ inr e
  IsMalformed d Route.to_recreate_consumer_transport text e =
      d.create_transport_request text ≡ inr e
  IsMalformed d Route.to_create_consumer text e = d.create_consume_request text ≡ inr e
  IsMalformed d Route.to_create_producer text e = d.create_produce_request text ≡ inr e
  IsMalformed d Route.to_resume_consumer text e = d.consumers_request text ≡ inr e
  IsMalformed d Route.to_resume_producer text e = d.producers_request text ≡ inr e
  IsMalformed d Route.to_pause_producer text e = d.producers_request text ≡ inr e
  IsMalformed d Route.to_pause_consumer text e = d.consumers_request text ≡ inr e
  IsMalformed d Route.to_close_producer text e = d.producers_request text ≡ inr e
  IsMalformed d Route.to_close_consumer text e = d.consumers_request text ≡ inr e
  IsMalformed d Route.to_leave_meeting text e = d.leave_meeting_request text ≡ inr e
  IsMalformed d Route.to_end_meeting text e = d.end_meeting_request text ≡ inr e
  IsMalformed d Route.to_get_rtp_capabilities text e = d.get_rtp_capabilities_request text ≡ inr e
  IsMalformed d Route.to_pre_meeting_details text e = d.pre_meeting_details_request text ≡ inr e
  IsMalformed d Route.to_get_participant_producers text e = d.restart_ice_request text ≡ inr e
  IsMalformed d Route.to_get_participant_consumers text e = d.restart_ice_request text ≡ inr e
  IsMalformed d Route.to_pprof_start text e = ⊥

  malformed :
      {P B : Type 0} (from_str : Decoder P) (text e : String) (f : P → Handler x (Response B))
      (s : Server x)
      → from_str text ≡ inr e
      → status_of x (with_payload x from_str text f) s ≡ (ok 400, s)
  unfolding status_of with_payload parse_payload ◌>>=◌
  malformed from_str text e f s h = rw h refl

  -- A text that does not decode is answered with the status 400 by the handler of every route that
  -- has a payload, and the server is unchanged.
  pub call-bad_request :
      (d : Decoders x) (route : Route) (text e : String) (s : Server x)
      → IsMalformed d route text e
      → call x d route text s ≡ (ok 400, s)
  unfolding call create_meeting replace_meetings join_meeting get_rtp_capabilities
      get_producers_of_meeting pre_meeting_details connect_transport restart_ice
      recreate_producer_transport recreate_consumer_transport get_participant_producers
      get_participant_consumers create_producer create_consumer resume_consumer resume_producer
      pause_producer pause_consumer close_producer close_consumer leave_meeting end_meeting
  call-bad_request d Route.to_create_meeting text e s = malformed _ text e _ s
  call-bad_request d Route.to_replace_meetings text e s = malformed _ text e _ s
  call-bad_request d Route.to_join_meeting text e s = malformed _ text e _ s
  call-bad_request d Route.to_get_producers_of_meeting text e s = malformed _ text e _ s
  call-bad_request d Route.to_connect_transport text e s = malformed _ text e _ s
  call-bad_request d Route.to_restart_ice text e s = malformed _ text e _ s
  call-bad_request d Route.to_recreate_producer_transport text e s = malformed _ text e _ s
  call-bad_request d Route.to_recreate_consumer_transport text e s = malformed _ text e _ s
  call-bad_request d Route.to_create_consumer text e s = malformed _ text e _ s
  call-bad_request d Route.to_create_producer text e s = malformed _ text e _ s
  call-bad_request d Route.to_resume_consumer text e s = malformed _ text e _ s
  call-bad_request d Route.to_resume_producer text e s = malformed _ text e _ s
  call-bad_request d Route.to_pause_producer text e s = malformed _ text e _ s
  call-bad_request d Route.to_pause_consumer text e s = malformed _ text e _ s
  call-bad_request d Route.to_close_producer text e s = malformed _ text e _ s
  call-bad_request d Route.to_close_consumer text e s = malformed _ text e _ s
  call-bad_request d Route.to_leave_meeting text e s = malformed _ text e _ s
  call-bad_request d Route.to_end_meeting text e s = malformed _ text e _ s
  call-bad_request d Route.to_get_rtp_capabilities text e s = malformed _ text e _ s
  call-bad_request d Route.to_pre_meeting_details text e s = malformed _ text e _ s
  call-bad_request d Route.to_get_participant_producers text e s = malformed _ text e _ s
  call-bad_request d Route.to_get_participant_consumers text e s = malformed _ text e _ s
  call-bad_request d Route.to_pprof_start text e s = λ h. absurd h
