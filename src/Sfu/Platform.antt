-- ===== src/Sfu/Platform.antt =====
-- What the SFU of src/mediasoupv1/mod.rs calls outside of the repository: the mediasoup workers,
-- GStreamer, the sockets, the clock, and the database driver. Each call takes the world and returns
-- the world after it; an error is the text that its `Display` gives.
use doordarshan_media_server.Base.{ℕ, String, Bool, Option, List, Outcome}
use doordarshan_media_server.Db.Driver.{MySqlDriver}

pub data State : Type 0 where
  null paused playing : State

pub data MediaKind : Type 0 where
  audio video : MediaKind

-- The value of a property of a GStreamer element; `caps` is a name with its fields.
pub data Field : Type 0 where
  text : String → Field
  number : ℕ → Field

pub data Property (Element : Type 0) : Type 0 where
  text : String → Property Element
  number : ℕ → Property Element
  flag : Bool → Property Element
  caps : String → List (String × Field) → Property Element
  element : Element → Property Element

pub record Platform : Type 1 where
  pub driver : MySqlDriver
  pub World : Type 0
  -- mediasoup's handles and parameters
  pub Worker : Type 0
  pub Router : Type 0
  pub WebRtcTransport : Type 0
  pub Producer : Type 0
  pub Consumer : Type 0
  pub PlainTransport : Type 0
  pub DtlsParameters : Type 0
  pub IceCandidates : Type 0
  pub IceParameters : Type 0
  pub RtpCapabilities : Type 0
  pub RtpCapabilitiesFinalized : Type 0
  pub router_id : Router → String
  pub transport_id : WebRtcTransport → String
  pub producer_id : Producer → String
  pub consumer_id : Consumer → String
  pub dtls_parameters : WebRtcTransport → DtlsParameters
  pub ice_candidates : WebRtcTransport → IceCandidates
  pub ice_parameters : WebRtcTransport → IceParameters
  pub worker_id : Worker → String
  pub create_worker : World → Outcome String Worker × World
  pub rtp_capabilities : Router → RtpCapabilitiesFinalized
  pub create_router : Worker → World → Outcome String Router × World
  pub create_webrtc_transport : Router → World → Outcome String WebRtcTransport × World
  -- the three `set_*_bitrate`, whose errors are only logged
  pub set_max_incoming_bitrate : WebRtcTransport → ℕ → World → World
  pub set_min_outgoing_bitrate : WebRtcTransport → ℕ → World → World
  pub set_max_outgoing_bitrate : WebRtcTransport → ℕ → World → World
  pub connect : WebRtcTransport → DtlsParameters → World → Outcome String (Unit {0}) × World
  -- the error is a worker's response whose reason has the text "connect() already called"
  pub is_already_called : String → Bool
  pub restart_ice : WebRtcTransport → World → Outcome String IceParameters × World
  -- `ProducerId::from_str`
  pub ProducerId : Type 0
  pub parse_producer_id : String → Outcome String ProducerId
  pub consume :
      WebRtcTransport → ProducerId → RtpCapabilities → World → Outcome String Consumer × World
  pub RtpParameters : Type 0
  pub consumer_producer_id : Consumer → String
  pub consumer_rtp_parameters : Consumer → RtpParameters
  pub produce :
      WebRtcTransport → MediaKind → RtpParameters → World → Outcome String Producer × World
  pub pipe_producer_to_router :
      Router → Producer → Router → World → Outcome String (Unit {0}) × World
  pub plain_transport_id : PlainTransport → String
  pub create_plain_transport : Router → World → Outcome String PlainTransport × World
  -- to a port of 127.0.0.1, and one for its control
  pub connect_plain_transport : PlainTransport → ℕ → ℕ → World → Outcome String (Unit {0}) × World
  -- a consumer that is paused, with the codecs of the server
  pub consume_plain_transport : PlainTransport → Producer → World → Outcome String Consumer × World
  pub resume_consumer : Consumer → World → Outcome String (Unit {0}) × World
  pub pause_consumer : Consumer → World → Outcome String (Unit {0}) × World
  pub resume_producer : Producer → World → Outcome String (Unit {0}) × World
  pub pause_producer : Producer → World → Outcome String (Unit {0}) × World
  -- GStreamer's handles; a call returns the text of its error, if it failed
  pub Pipeline : Type 0
  pub Element : Type 0
  pub Pad : Type 0
  pub SignalHandlerId : Type 0
  -- a new pipeline with a name, on the clock of the server
  pub new_pipeline : String → World → Pipeline × World
  -- `ElementFactory::make` of a factory, with a name and properties
  pub make :
      String → String → List (String × Property Element) → World → Outcome String Element × World
  pub set_property : Element → String → Property Element → World → World
  pub add : Pipeline → Element → World → Option String × World
  pub add_many : Pipeline → List Element → World → Option String × World
  pub remove : Pipeline → Element → World → Option String × World
  pub abort_state : Pipeline → World → World
  pub static_pad : Element → String → World → Option Pad
  pub request_pad_simple : Element → String → World → Option Pad × World
  pub link_pads : Pad → Pad → World → Option String × World
  pub link : Element → Element → World → Option String × World
  -- the number after "recv_rtp_sink_" in the name of a pad, if it is one
  pub pad_session : Pad → Option ℕ
  -- a handler that names the next file from the time in nanoseconds
  pub connect_format_location : Element → (ℕ → String) → World → World
  -- a handler for new pads, `rtp_bin_element_handling`
  pub connect_pad_added : Element → World → SignalHandlerId × World
  -- `SystemTime::now` in seconds
  pub seconds : World → ℕ
  -- `gstreamer::init`
  pub init_gstreamer : World → Option String × World
  pub set_state : Element → State → World → Option String × World
  pub set_pipeline_state : Pipeline → State → World → Option String × World
  pub remove_many : Pipeline → List Element → World → Option String × World
  pub release_request_pad : Element → Pad → World → World
  pub clear_ssrc : Element → ℕ → ℕ → World → World
  -- the level of the log includes `info!`, which evaluates its arguments only then
  pub is_info_logged : Bool
  -- `SystemTime::now` in nanoseconds, `Utc::now`, `Uuid::new_v4`
  pub nanos : World → ℕ
  pub now : World → ℕ
  pub new_uuid : World → String × World
  pub path_exists : String → World → Bool
  pub create_dir_all : String → World → Outcome String (Unit {0}) × World
  -- `UdpSocket::bind` on a port of 127.0.0.1 succeeds; the socket is dropped at once
  pub udp_bind : ℕ → World → Bool × World
  -- the profiler of the crate pprof: its guard, its report and the flamegraph, or that it failed
  pub ProfilerGuard : Type 0
  pub Report : Type 0
  pub build_profiler : World → Option ProfilerGuard × World
  pub build_report : ProfilerGuard → World → Option Report × World
  pub write_flamegraph : Report → World → Option (Unit {0}) × World
  -- `File::create`, and a sleep of a number of seconds
  pub create_file : String → World → Option (Unit {0}) × World
  pub sleep : ℕ → World → World
  -- `str::to_lowercase`
  pub to_lowercase : String → String
  -- `DefaultHasher` on a text
  pub hash : String → ℕ
  -- the first three columns of a row, as texts
  pub column : MySqlDriver.Row driver → ℕ → Option String
