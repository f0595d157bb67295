-- ===== src/Sfu/Example.antt =====
-- A small platform for the tests: a world that counts the ids it has given, handles that are their
-- ids, and calls that succeed.
pub mod Fresh
use doordarshan_media_server.Base.{
  ℕ, suc, String, true, false, none, some, [], ◌∷◌, ok, ltb, ◌==◌, if◌then◌else◌,
}
use doordarshan_media_server.Db.Example.{driver as table}
use doordarshan_media_server.Sfu.Platform.{Platform}
use doordarshan_media_server.Sfu.Server.{Server, ProducerInMemory, ConsumerInMemory}

abbrev pub platform : Platform
platform = record {
  driver = table;
  World = ℕ;
  Worker = String;
  Router = String;
  WebRtcTransport = String;
  Producer = String;
  Consumer = String;
  PlainTransport = String;
  DtlsParameters = String;
  IceCandidates = String;
  IceParameters = String;
  RtpCapabilities = String;
  RtpCapabilitiesFinalized = String;
  router_id = λ r. r;
  transport_id = λ t. t;
  producer_id = λ p. p;
  consumer_id = λ c. c;
  dtls_parameters = λ t. t;
  ice_candidates = λ t. t;
  ice_parameters = λ t. t;
  worker_id = λ w. w;
  create_worker = λ w. (ok "w", suc w);
  rtp_capabilities = λ r. r;
  create_router = λ worker w. (ok "r", suc w);
  create_webrtc_transport = λ router w. (ok "t", suc w);
  set_max_incoming_bitrate = λ t n w. w;
  set_min_outgoing_bitrate = λ t n w. w;
  set_max_outgoing_bitrate = λ t n w. w;
  connect = λ t d w. (ok tt, w);
  is_already_called = λ e. false;
  restart_ice = λ t w. (ok t, w);
  ProducerId = String;
  parse_producer_id = λ e. ok e;
  consume = λ t p c w. (ok "c", suc w);
  RtpParameters = String;
  ProfilerGuard = Unit {0};
  Report = Unit {0};
  build_profiler = λ w. (some tt, w);
  build_report = λ guard w. (some tt, w);
  write_flamegraph = λ report w. (some tt, w);
  create_file = λ name w. (some tt, w);
  sleep = λ n w. w;
  consumer_producer_id = λ consumer. consumer;
  consumer_rtp_parameters = λ consumer. consumer;
  produce = λ t k r w. (ok "v", suc w);
  pipe_producer_to_router = λ r p s w. (ok tt, w);
  plain_transport_id = λ t. t;
  create_plain_transport = λ r w. (ok "pt", suc w);
  connect_plain_transport = λ t p q w. (ok tt, w);
  consume_plain_transport = λ t p w. (ok "pc", suc w);
  resume_consumer = λ c w. (ok tt, w);
  pause_consumer = λ c w. (ok tt, w);
  resume_producer = λ p w. (ok tt, w);
  pause_producer = λ p w. (ok tt, w);
  Pipeline = String;
  Element = String;
  Pad = String;
  SignalHandlerId = String;
  new_pipeline = λ name w. (name, suc w);
  make = λ factory name properties w. (ok name, suc w);
  set_property = λ e name v w. w;
  add = λ p e w. (none, w);
  add_many = λ p es w. (none, w);
  remove = λ p e w. (none, w);
  abort_state = λ p w. w;
  static_pad = λ e name w. some name;
  request_pad_simple = λ e name w. (some name, suc w);
  link_pads = λ a b w. (none, w);
  link = λ a b w. (none, w);
  pad_session = λ p. some 0;
  connect_format_location = λ e f w. w;
  connect_pad_added = λ e w. ("h", w);
  seconds = λ w. w;
  init_gstreamer = λ w. (none, w);
  set_state = λ e s w. (none, w);
  set_pipeline_state = λ p s w. (none, w);
  remove_many = λ p es w. (none, w);
  release_request_pad = λ e p w. w;
  clear_ssrc = λ e session ssrc w. w;
  is_info_logged = true;
  nanos = λ w. w;
  now = λ w. w;
  new_uuid = λ w. ("e", suc w);
  path_exists = λ p w. false;
  create_dir_all = λ p w. (ok tt, w);
  udp_bind = λ port w. (ltb 30_000 port, w);
  to_lowercase = λ t. if t == "Video" then "video" else t;
  hash = λ t. 3;
  column = λ r n. none;
}

abbrev producer_of : String → String → ProducerInMemory platform
producer_of id participant_id = record {
  producer = id;
  meeting_id = "m";
  participant_id = participant_id;
  kind = "video";
  instance_id = "i";
}

abbrev consumer_of : String → String → String → ConsumerInMemory platform
consumer_of id participant_id producer_id = record {
  consumer = id;
  meeting_id = "m";
  participant_id = participant_id;
  target_participant_id = "p";
  kind = "video";
  instance_id = "i";
  producer_id = producer_id;
}

-- A meeting of "p", "q" and "z": the first two produce a video each and consume that of the other, and
-- "z" consumes that of "q".
abbrev pub server : Server platform
server = record {
  config = record {
    max_incoming_bitrate = 0;
    min_outgoing_bitrate = 0;
    max_outgoing_bitrate = 0;
    consumer_shard_count = 2;
    plain_transport_video_port_range_start = 30_000;
    plain_transport_video_port_range_end = 30_005;
    plain_transport_audio_port_range_start = 40_000;
    plain_transport_audio_port_range_end = 40_000;
  };
  workers_map = ("w", "w") ∷ [];
  routers_map = [];
  transport_map = [];
  producer_map = ("vp", producer_of "vp" "p") ∷ ("vq", producer_of "vq" "q") ∷ [];
  consumer_map_shards =
      []
      ∷ (("cp", consumer_of "cp" "p" "vq")
          ∷ ("cq", consumer_of "cq" "q" "vp")
          ∷ ("cz", consumer_of "cz" "z" "vq")
          ∷ [])
      ∷ [];
  plain_transport_map = [];
  plain_transport_consumer_map = [];
  pipeline_map = [];
  lock_map = [];
  events = [];
  pool = [];
  world = 0;
}
