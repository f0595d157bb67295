-- ===== src/Service/Tests.antt =====
-- Runs of the handlers of src/service on a small platform.
use mathlib.Core.Path.{subst}
use doordarshan_media_server.Base.{
  true, ◌≤◌, ◌≡◌, refl, inl, inr, String, none, some, List, [], ◌∷◌, ok, panic, arith,
}
use doordarshan_media_server.Base.Texts.{pos}
use doordarshan_media_server.Base.Dict.{Dict, lookup}
use doordarshan_media_server.Sfu.Example.{platform, server}
use doordarshan_media_server.Sfu.Example.Fresh.{outside, new, started-new}
use doordarshan_media_server.Sfu.Consuming.Rounds.{AreDistinct}
use doordarshan_media_server.Sfu.Shards.{shard_of}
use doordarshan_media_server.Sfu.Creation.{ProducerConsumerCapacity}
use doordarshan_media_server.Sfu.Consuming.{Consumption, is_existing}
use doordarshan_media_server.Sfu.Consuming.Counts.{count_where}
use doordarshan_media_server.Sfu.Producing.{Production, is_produced}
use doordarshan_media_server.Service.Payload.{
  RouterDetails, CreateMeetingPayload, CreateConsumeRequest,
}
use doordarshan_media_server.Service.Answers.{Decoder}
use doordarshan_media_server.Service.Meetings.{
  in_vector, consumer_capacity_of, producer_capacity_of, worker_router_capacity, create_meeting,
}
use doordarshan_media_server.Service.Routes.{Route, Method, Decoders, call, serve}
use doordarshan_media_server.Service.Plans.{run, plan, path_of, method_of}
use doordarshan_media_server.Service.Planned.{serve-plan}
use doordarshan_media_server.Service.Capacities.{
  last_of, said_by, worker_router_capacity-lookup, create_meeting-panics,
}
use doordarshan_media_server.Service.Refused.{call-bad_request}
use doordarshan_media_server.Service.Served.{Request, HasMaps, serve_all, serve_all-at_most_one}

abbrev details : String → RouterDetails
details w = record { router_capacity = pos 7; worker_id = w }

-- Worker "a" is to have a router of each sort.
worker_router_capacity-lookup_example :
    (capacities : Dict (List ProducerConsumerCapacity)) × (worker_router_capacity platform none
        (some (details "a" ∷ []))
        (some (details "b" ∷ details "a" ∷ []))
        server
      ≡ (ok capacities, server))
    × ((w : String)
        → lookup w capacities
          ≡ said_by
              (in_vector platform consumer_capacity_of)
              (last_of w (details "b" ∷ details "a" ∷ []))
              (said_by
                (in_vector platform producer_capacity_of)
                (last_of w (details "a" ∷ []))
                none))
worker_router_capacity-lookup_example =
    worker_router_capacity-lookup platform (details "a" ∷ []) (details "b" ∷ details "a" ∷ [])
      server

abbrev incomplete : CreateMeetingPayload
incomplete = record {
  producer_router_details = some (details "a" ∷ []);
  consumer_router_details = none;
  routers = none;
  meeting_id = "m";
  container_id = "c";
}

abbrev decode_incomplete : Decoder CreateMeetingPayload
decode_incomplete text = inl incomplete

create_meeting-panics_example :
    create_meeting platform decode_incomplete "{}" server ≡ (panic, server)
create_meeting-panics_example =
    create_meeting-panics platform decode_incomplete "{}" incomplete server refl refl (inr refl)

abbrev consuming : CreateConsumeRequest platform
consuming = record {
  participant_id = "p";
  rtp_capabilities = "caps";
  meeting_id = "m";
  transport_id = "t";
  target_participants = ("q", ("video", "v") ∷ []) ∷ [];
  instance_id = "i";
}

-- The requests for consumers decode, others do not.
abbrev decoders : Decoders platform
decoders = record {
  create_meeting_payload = λ text. inr "expected value";
  replace_meetings_request = λ text. inr "expected value";
  join_meeting_payload = λ text. inr "expected value";
  get_participants_payload = λ text. inr "expected value";
  connect_transport_request = λ text. inr "expected value";
  restart_ice_request = λ text. inr "expected value";
  create_transport_request = λ text. inr "expected value";
  create_consume_request = λ text. inl consuming;
  create_produce_request = λ text. inr "expected value";
  consumers_request =
      λ text. inl (record { participant_id = "p"; meeting_id = "m"; consumer_ids = text ∷ [] });
  producers_request = λ text. inr "expected value";
  leave_meeting_request = λ text. inr "expected value";
  end_meeting_request = λ text. inr "expected value";
  get_rtp_capabilities_request = λ text. inr "expected value";
  pre_meeting_details_request = λ text. inr "expected value";
}

call-bad_request_example : call platform decoders Route.to_end_meeting "{" server ≡ (ok 400, server)
call-bad_request_example =
    call-bad_request platform decoders Route.to_end_meeting "{" "expected value" server refl

decoders-HasMaps : HasMaps platform decoders
unfolding lookup
decoders-HasMaps text p e =
    let same : consuming ≡ p = cc in
    subst (λ q. AreDistinct platform q.target_participants) same ((refl, tt), ((refl, tt), tt))

serve-plan_example :
    serve platform decoders Method.post "/v1/closeConsumer" "k" server
    ≡ run platform (plan platform decoders Route.to_close_consumer "k") server
unfolding method_of path_of
serve-plan_example = serve-plan platform decoders Route.to_close_consumer Method.post "k" server

abbrev consumption : Consumption
consumption = record {
  participant_id = "p";
  consumer_transport_id = "t";
  meeting_id = "m";
  instance_id = "i";
}

abbrev production : Production
production = record {
  participant_id = "q";
  kind = "video";
  meeting_id = "m";
  producer_router_id = "r";
  consumer_router_ids = none;
  producer_transport_id = "t";
  start_recording = true;
  instance_id = "i";
}

abbrev posted : String → String → Request
posted path text = record { method = Method.post; path = path; text = text }

abbrev requests : List Request
requests =
    posted "/v1/createConsumer" "{}"
    ∷ posted "/v1/createConsumer" "{}"
    ∷ posted "/v1/closeConsumer" "k"
    ∷ []

serve_all-at_most_one_example :
    (count_where
        (is_existing platform consumption "q" "video")
        (shard_of platform "m" (serve_all platform decoders requests new))
      ≤ 1)
    × (count_where
          (is_produced platform production)
          (serve_all platform decoders requests new).producer_map
        ≤ 1)
serve_all-at_most_one_example =
    serve_all-at_most_one platform decoders requests server.config 7 "ip" "tenant" outside new
      consumption "q" "video" production decoders-HasMaps (omega arith) started-new
