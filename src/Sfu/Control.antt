-- ===== src/Sfu/Control.antt =====
-- Connecting transports, restarting ICE, and resuming and pausing media: src/mediasoupv1/mod.rs.
pub mod Controlled
use doordarshan_media_server.Base.{
  String, Bool, Option, none, some, List, [], ◌∷◌, if◌then◌else◌, Outcome, ok, err, panic,
}
use doordarshan_media_server.Base.Texts.{format}
use doordarshan_media_server.Base.Dict.{Dict, lookup, insert}
use doordarshan_media_server.Base.Action.{◌>>=◌, ◌>>◌, pure, fail, panics, map_err, gets}
use doordarshan_media_server.Sfu.Platform.{Platform}
use doordarshan_media_server.Sfu.Server.{
  TransportInMemory, ProducerInMemory, ConsumerInMemory, Server, Handler, on_world, get_shard,
}
use doordarshan_media_server.Sfu.Closing.{ProducerDetail}

module _ (x : Platform) where
  open x use {World, WebRtcTransport, Producer, Consumer}

  -- What `connect_transport` returns, from what the transport answered: a transport that is connected
  -- already is no error.
  unfoldable pub connected : Outcome String (Unit {0}) → Outcome String String
  connected (ok tt) = ok "Successfully connected producer transport"
  connected (err e) =
      if x.is_already_called e
      then ok "Transport already connected, ignoring"
      else err (format ("Failure in connecting producer transport " ∷ e ∷ []))
  connected panic = panic

  unfoldable pub connect_found : x.DtlsParameters → Option (TransportInMemory x) → Handler x String
  connect_found dtls_parameters none s = fail "Transport not found in memory" s
  connect_found dtls_parameters (some t) s =
      let (o, w) = x.connect t.transport dtls_parameters s.world in
      (connected o, record s { world = w })

  unfoldable pub connect_transport : String → x.DtlsParameters → Handler x String
  connect_transport transport_id dtls_parameters s =
      connect_found dtls_parameters (lookup transport_id s.transport_map) s

  -- The result of `restart_ice` with one transport more: a failure is only logged.
  unfoldable pub add_parameters :
      String
      → Outcome String x.IceParameters
      → Dict x.IceParameters
      → Handler x (Dict x.IceParameters)
  add_parameters id (ok parameters) result = pure (insert id parameters result)
  add_parameters id (err e) result = pure result
  add_parameters id panic result = panics

  unfoldable pub restart_found :
      String
      → Option (TransportInMemory x)
      → Dict x.IceParameters
      → Handler x (Dict x.IceParameters)
  restart_found id none result s = pure result s
  restart_found id (some t) result s =
      let (o, w) = x.restart_ice t.transport s.world in
      add_parameters id o result (record s { world = w })

  unfoldable pub restart_each :
      Dict (TransportInMemory x)
      → List String
      → Dict x.IceParameters
      → Handler x (Dict x.IceParameters)
  restart_each transport_map [] result = pure result
  restart_each transport_map (id ∷ ids) result = do
    more ← restart_found id (lookup id transport_map) result
    restart_each transport_map ids more

  unfoldable pub restart_ice : List String → Handler x (Dict x.IceParameters)
  restart_ice transport_ids = do
    transport_map ← gets (λ s. s.transport_map)
    restart_each transport_map transport_ids []

  -- A call on one consumer, with the text of its failure; an unknown one panics.
  unfoldable pub call_consumer :
      (Consumer → World → Outcome String (Unit {0}) × World)
      → (String → String)
      → Option (ConsumerInMemory x)
      → Handler x (Unit {0})
  call_consumer call failure none = panics
  call_consumer call failure (some v) = map_err failure (on_world x (call v.consumer))

  unfoldable pub call_consumers :
      (Consumer → World → Outcome String (Unit {0}) × World)
      → (String → String)
      → Dict (ConsumerInMemory x)
      → List String
      → Handler x (List String)
  call_consumers call failure consumer_map [] = pure []
  call_consumers call failure consumer_map (id ∷ ids) = do
    call_consumer call failure (lookup id consumer_map)
    result ← call_consumers call failure consumer_map ids
    pure (id ∷ result)

  abbrev pub resume_failure : String → String → String
  resume_failure place e = format (place ∷ e ∷ [])

  unfoldable pub resume_consumer : List String → String → Handler x (List String)
  resume_consumer consumer_ids meeting_id = do
    consumer_map ← get_shard x meeting_id
    call_consumers x.resume_consumer
        (resume_failure "[mod.rs.resume_consumer] Failed to resume err ") consumer_map consumer_ids

  unfoldable pub pause_consumer : List String → String → Handler x (List String)
  pause_consumer consumer_ids meeting_id = do
    consumer_map ← get_shard x meeting_id
    call_consumers x.pause_consumer (resume_failure "[mod.rs.resume_consumer] Failed to pause err ")
        consumer_map consumer_ids

  unfoldable pub call_producer :
      (Producer → World → Outcome String (Unit {0}) × World)
      → Option (ProducerInMemory x)
      → Handler x (Unit {0})
  call_producer call none = panics
  call_producer call (some v) =
      map_err (resume_failure "[mod.rs.resume_producer] Failed to resume err ")
        (on_world x (call v.producer))

  unfoldable pub call_producers :
      (Producer → World → Outcome String (Unit {0}) × World)
      → Dict (ProducerInMemory x)
      → String
      → Dict String
      → Handler x (List ProducerDetail)
  call_producers call producer_map participant_id [] = pure []
  call_producers call producer_map participant_id ((id, kind) ∷ entries) = do
    call_producer call (lookup id producer_map)
    result ← call_producers call producer_map participant_id entries
    pure (record { participant_id = participant_id; producer_id = id; kind = kind } ∷ result)

  unfoldable pub resume_producer : String → Dict String → Handler x (List ProducerDetail)
  resume_producer participant_id producer_ids = do
    producer_map ← gets (λ s. s.producer_map)
    call_producers x.resume_producer producer_map participant_id producer_ids

  -- Its failure has the text of `resume_producer`.
  unfoldable pub pause_producer : String → Dict String → Handler x (List ProducerDetail)
  pause_producer participant_id producer_ids = do
    producer_map ← gets (λ s. s.producer_map)
    call_producers x.pause_producer producer_map participant_id producer_ids
