-- ===== src/Sfu/Producing.antt =====
-- `create_producer` of src/mediasoupv1/mod.rs, with `create_folder`. Its child Started has
-- `start_recording`.
pub mod Started
pub mod Media
pub mod Doubles
pub mod Again
use doordarshan_media_server.Base.{
  ℕ, ◌+◌, String, Bool, true, false, ◌&&◌, Option, none, some, is_some, is_none, ◌⊎◌, inl, inr,
  List, [], ◌∷◌, if◌then◌else◌, ◌==◌,
}
use doordarshan_media_server.Base.Texts.{format, pos}
use doordarshan_media_server.Base.Dict.{Dict, lookup, insert}
use doordarshan_media_server.Base.Action.{
  ◌>>=◌, ◌>>◌, pure, fail, panics, gets, modify, unwrap, map_err,
}
use doordarshan_media_server.Dao.{Dao, MutationType}
use doordarshan_media_server.Db.{DbError}
use doordarshan_media_server.Db.Driver.{default_tx_opts}
use doordarshan_media_server.Sfu.Platform
use doordarshan_media_server.Sfu.Platform.{Platform, MediaKind}
use doordarshan_media_server.Sfu.Kind.{Kind, audio, video, screen_share, kind_from_str}
use doordarshan_media_server.Sfu.Recording.{Gstreamer}
use doordarshan_media_server.Sfu.Server.{
  TransportInMemory, ProducerInMemory, RouterInMemory, Server, Handler, on_world, mutate_db,
  display_error,
}
use doordarshan_media_server.Sfu.Closing.{ProducerDetail}
use doordarshan_media_server.Sfu.Recreation.{ensure_lock}
use doordarshan_media_server.Sfu.Producing.Started.{start_recording}

-- The arguments of `create_producer`.
pub record Production : Type 0 where
  pub participant_id : String
  pub kind : String
  pub meeting_id : String
  pub producer_router_id : String
  pub consumer_router_ids : Option (List String)
  pub producer_transport_id : String
  pub start_recording : Bool
  pub instance_id : String

abbrev pub told : String → String → String
told what e = format (what ∷ e ∷ [])

abbrev pub media_kind : Kind → MediaKind
media_kind video = MediaKind.video
media_kind audio = MediaKind.audio
media_kind screen_share = MediaKind.video

module _ (x : Platform) where
  open x use {Router, WebRtcTransport, Producer, Consumer, PlainTransport, producer_id}

  unfoldable pub create_folder_if : String → Bool → Handler x String
  create_folder_if path true = pure path
  create_folder_if path false = do
    map_err (λ e. format ("Failed to create folder: " ∷ path ∷ " : " ∷ e ∷ " " ∷ []))
        (on_world x (x.create_dir_all path))
    pure path

  unfoldable pub create_folder : String → Handler x String
  create_folder meeting_id s =
      let path = format ("/opt/recordings/" ∷ meeting_id ∷ []) in
      create_folder_if path (x.path_exists path s.world) s

  -- The test for an existing producer.
  abbrev pub is_produced : Production → ProducerInMemory x → Bool
  is_produced p v =
      v.meeting_id == p.meeting_id && (v.participant_id == p.participant_id && v.kind == p.kind)

  -- `map.iter().find(..)`: the key of the first.
  unfoldable pub find_producer : Production → Dict (ProducerInMemory x) → Option String
  find_producer p [] = none
  find_producer p (entry ∷ entries) =
      if is_produced p entry.1 then some entry.0 else find_producer p entries

  abbrev pub detail_of : Production → String → ProducerDetail
  detail_of p id = record { participant_id = p.participant_id; producer_id = id; kind = p.kind }

  -- What a recording leaves for the end.
  pub record Recorded : Type 0 where
    pub plain_transport : Option PlainTransport
    pub plain_transport_consumer : Option Consumer
    pub gstreamer_pipeline : Option (Gstreamer x)

  abbrev unrecorded : Recorded
  unrecorded = record {
    plain_transport = none;
    plain_transport_consumer = none;
    gstreamer_pipeline = none;
  }

  -- The recording of a producer over a plain transport of its router.
  unfoldable pub record_producer : Production → Kind → Producer → Router → Handler x Recorded
  record_producer p kind producer router = do
    plain_transport ←
        map_err (told "Failed to create plain transport ")
          (on_world x (x.create_plain_transport router))
    map_err (told "Failed to create folder: ") (create_folder p.meeting_id)
    started ←
        map_err (told "Failed to start recording ")
          (start_recording x p.meeting_id p.participant_id kind)
    map_err (told "Failed to connect plain transport ")
        (on_world x (x.connect_plain_transport plain_transport started.1 (started.1 + 1)))
    consumer ←
        map_err (told "Failed to create consumer: ")
          (on_world x (x.consume_plain_transport plain_transport producer))
    map_err (told "Failed to resume consumer: ") (on_world x (x.resume_consumer consumer))
    pure (record {
      plain_transport = some plain_transport;
      plain_transport_consumer = some consumer;
      gstreamer_pipeline = some started.0;
    })

  -- An unknown router panics.
  unfoldable pub router_of : Option (RouterInMemory x) → Handler x Router
  router_of none = panics
  router_of (some router) = pure router.router

  unfoldable pub record_if : Production → Kind → Producer → Bool → Handler x Recorded
  record_if p kind producer false = pure unrecorded
  record_if p kind producer true = do
    routers_map ← gets (λ s. s.routers_map)
    router ← router_of (lookup p.producer_router_id routers_map)
    record_producer p kind producer router

  unfoldable pub pipe_to :
      Dict (RouterInMemory x) → Producer → Router → List String → Handler x (Unit {0})
  pipe_to routers_map producer producer_router [] = pure tt
  pipe_to routers_map producer producer_router (id ∷ ids) = do
    consumer_router ← router_of (lookup id routers_map)
    map_err (told "Failed to pipe producer to router: ")
        (on_world x (x.pipe_producer_to_router producer_router producer consumer_router))
    pipe_to routers_map producer producer_router ids

  abbrev ids_of : Option (List String) → List String
  ids_of none = []
  ids_of (some ids) = ids

  unfoldable pub pipe_producer : Production → Producer → Handler x (Unit {0})
  pipe_producer p producer = do
    routers_map ← gets (λ s. s.routers_map)
    producer_router ← router_of (lookup p.producer_router_id routers_map)
    pipe_to routers_map producer producer_router (ids_of p.consumer_router_ids)

  abbrev pub producer_entity : Production → Producer → Dao
  producer_entity p producer = Dao.participant_producers (record {
    mutation_type = MutationType.insert;
    participant_id = some p.participant_id;
    producers = some (pos 1);
    kind = some p.kind;
    producer_id = some (producer_id producer);
    meeting_id = some p.meeting_id;
    transport_id = some p.producer_transport_id;
  })

  -- The plain transport and its consumer are kept under the id of the producer.
  unfoldable pub keep_recorded : Production → Producer → Recorded → Handler x (Unit {0})
  keep_recorded p producer r = do
    plain_transport ← unwrap r.plain_transport
    modify λ s. record s {
      plain_transport_map = insert (producer_id producer) plain_transport s.plain_transport_map;
    }
    consumer ← unwrap r.plain_transport_consumer
    modify λ s. record s {
      plain_transport_consumer_map =
          insert (producer_id producer) consumer s.plain_transport_consumer_map;
    }
    modify λ s. record s { pipeline_map = insert p.meeting_id r.gstreamer_pipeline s.pipeline_map }

  abbrev pub producer_in_memory : Production → Producer → ProducerInMemory x
  producer_in_memory p producer = record {
    producer = producer;
    meeting_id = p.meeting_id;
    participant_id = p.participant_id;
    kind = p.kind;
    instance_id = p.instance_id;
  }

  unfoldable pub keep_producer : Production → Producer → Handler x (Unit {0})
  keep_producer p producer = modify λ s. record s {
    producer_map = insert (producer_id producer) (producer_in_memory p producer) s.producer_map;
  }

  -- The end, from the answer of the database: a recording is kept even where it refuses.
  unfoldable pub finish_producing :
      Production → Producer → Recorded → (String × Bool) ⊎ DbError → Handler x ProducerDetail
  finish_producing p producer r (inl _) = do
    keep_producer p producer
    if p.start_recording && is_some r.plain_transport then keep_recorded p producer r else pure tt
    pure (detail_of p (producer_id producer))
  finish_producing p producer r (inr e) = do
    if is_some r.gstreamer_pipeline
        then modify (λ s. record s {
          pipeline_map = insert p.meeting_id r.gstreamer_pipeline s.pipeline_map;
        })
        else pure tt
    fail (told "Error in writing to DB " (display_error e))

  unfoldable pub write_producer : Production → Producer → Recorded → Handler x ProducerDetail
  write_producer p producer r =
      if p.start_recording && is_none r.plain_transport
      then fail "Plain transport is none"
      else if p.start_recording && is_none r.plain_transport_consumer
      then fail "Plain transport consumer is none"
      else do
        written ← mutate_db x true default_tx_opts (producer_entity p producer ∷ [])
        finish_producing p producer r written

  unfoldable pub parse_kind : String → Handler x Kind
  parse_kind kind s = (kind_from_str x kind, s)

  -- `create_producer` where there is no producer yet.
  unfoldable pub produce_new : Production → x.RtpParameters → Handler x ProducerDetail
  produce_new p rtp_parameters = do
    transport_map ← gets (λ s. s.transport_map)
    transport ← unwrap (lookup p.producer_transport_id transport_map)
    kind ← map_err (told "Failed to parse kind: ") (parse_kind p.kind)
    producer ←
        map_err (told "Failed to create producer: ")
          (on_world x (x.produce transport.transport (media_kind kind) rtp_parameters))
    recorded ← record_if p kind producer p.start_recording
    pipe_producer p producer
    write_producer p producer recorded

  unfoldable pub produce_from :
      Production → x.RtpParameters → Option String → Handler x ProducerDetail
  produce_from p rtp_parameters none = produce_new p rtp_parameters
  produce_from p rtp_parameters (some id) = pure (detail_of p id)

  -- The mutex of the meeting is made on first use; a producer that exists is returned.
  unfoldable pub create_producer : Production → x.RtpParameters → Handler x ProducerDetail
  create_producer p rtp_parameters = do
    modify (ensure_lock x p.meeting_id)
    existing ← gets (λ s. find_producer p s.producer_map)
    produce_from p rtp_parameters existing
