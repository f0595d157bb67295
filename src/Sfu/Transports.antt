-- ===== src/Sfu/Transports.antt =====
-- The WebRTC transports of src/mediasoupv1/mod.rs: creating them, connecting them and restarting ICE.
pub mod Stored
pub mod Media
use doordarshan_media_server.Base.{
  String, Bool, true, ◌&&◌, Option, none, some, ◌⊎◌, inl, inr, List, [], ◌∷◌, if◌then◌else◌, eqb,
  ◌==◌, Outcome, ok, err, panic,
}
use doordarshan_media_server.Base.Lists.{given}
use doordarshan_media_server.Base.Texts.{format}
use doordarshan_media_server.Base.Dict.{Dict, lookup, insert, remove_all}
use doordarshan_media_server.Base.Action.{◌>>=◌, ◌>>◌, pure, fail, modify, panics, map_err}
use doordarshan_media_server.Dao.{Dao, MutationType}
use doordarshan_media_server.Db.{
  DbError, my_sql_error, generic_error, rollback_error, duplicate_entry,
}
use doordarshan_media_server.Db.Driver.{default_tx_opts}
use doordarshan_media_server.Sfu.Platform.{Platform}
use doordarshan_media_server.Sfu.Server.{
  TransportInMemory, RouterInMemory, Server, Handler, on_world, mutate_db, display_error,
}

abbrev pub transport_failure : String → String
transport_failure e = format ("Failed to create producer transport: " ∷ e ∷ [])

module _ (x : Platform) where
  open x use {WebRtcTransport, transport_id}

  -- `TransportOptions` of src/service/payload.rs
  pub record TransportOptions : Type 0 where
    pub id : String
    pub dtls_parameters : x.DtlsParameters
    pub ice_candidates : x.IceCandidates
    pub ice_parameters : x.IceParameters

  abbrev pub options_of : WebRtcTransport → TransportOptions
  options_of t = record {
    id = transport_id t;
    dtls_parameters = x.dtls_parameters t;
    ice_candidates = x.ice_candidates t;
    ice_parameters = x.ice_parameters t;
  }

  -- `create_transport` from the router in memory: an unknown one panics.
  unfoldable pub create_on : Option (RouterInMemory x) → Handler x WebRtcTransport
  create_on none = panics
  create_on (some router) =
      map_err transport_failure (on_world x (x.create_webrtc_transport router.router))

  unfoldable pub create_transport : String → Handler x WebRtcTransport
  create_transport router_id s = create_on (lookup router_id s.routers_map) s

  -- The start of both handlers below: a transport with the configured bitrates.
  unfoldable pub set_bitrates : WebRtcTransport → Server x → Server x
  set_bitrates t s = record s {
    world = x.set_max_outgoing_bitrate t s.config.max_outgoing_bitrate (
        x.set_min_outgoing_bitrate t s.config.min_outgoing_bitrate
          (x.set_max_incoming_bitrate t s.config.max_incoming_bitrate s.world));
  }

  unfoldable pub new_transport : String → Handler x WebRtcTransport
  new_transport router_id = do
    transport ← map_err transport_failure (create_transport router_id)
    modify (set_bitrates transport)
    pure transport

  -- The transport of a participant in memory, as the handlers look for it after a duplicate key.
  unfoldable pub find_transport :
      String → String → String → Dict (TransportInMemory x) → Option WebRtcTransport
  find_transport participant_id meeting_id kind [] = none
  find_transport participant_id meeting_id kind (entry ∷ entries) =
      let rest = find_transport participant_id meeting_id kind entries in
      if entry.1.participant_id == participant_id
        && (entry.1.meeting_id == meeting_id && entry.1.kind == kind)
      then some entry.1.transport
      else rest

  abbrev pub transport_or_error :
      String → String → Option WebRtcTransport → Outcome String TransportOptions
  transport_or_error participant_id meeting_id none = err (
      format
        ("No transport found for participant " ∷ participant_id ∷ " in meeting " ∷ meeting_id ∷ []))
  transport_or_error participant_id meeting_id (some t) = ok (options_of t)

  unfoldable pub reuse_transport : String → String → String → Handler x TransportOptions
  reuse_transport participant_id meeting_id kind s = (
    transport_or_error participant_id meeting_id
        (find_transport participant_id meeting_id kind s.transport_map),
    s,
  )

  abbrev pub write_failure : DbError → String
  write_failure e = format ("Error in writing to DB " ∷ display_error e ∷ [])

  -- The end of both handlers, from the answer of the database: the old transports leave the map in
  -- the order of the list, and the new one is put in.
  unfoldable pub finish_transport :
      List String → TransportInMemory x → (String × Bool) ⊎ DbError → Handler x TransportOptions
  finish_transport old_ids t (inl _) = do
    modify λ s. record s {
      transport_map = insert (transport_id t.transport) t (remove_all old_ids s.transport_map);
    }
    pure (options_of t.transport)
  finish_transport old_ids t (inr (my_sql_error code message)) =
      if eqb code duplicate_entry
      then reuse_transport t.participant_id t.meeting_id t.kind
      else fail (write_failure (my_sql_error code message))
  finish_transport old_ids t (inr (generic_error message)) =
      fail (write_failure (generic_error message))
  finish_transport old_ids t (inr (rollback_error message)) =
      fail (write_failure (rollback_error message))

  abbrev pub producer_transport_of : String → String → Dao
  producer_transport_of participant_id id = Dao.participant_producer_transport (record {
    mutation_type = MutationType.insert;
    participant_id = participant_id;
    transport_id = some id;
  })

  abbrev pub consumer_transport_of : String → String → Dao
  consumer_transport_of participant_id id = Dao.participant_consumer_transport (record {
    mutation_type = MutationType.insert;
    participant_id = participant_id;
    transport_id = some id;
  })

  abbrev pub in_memory : WebRtcTransport → String → String → String → TransportInMemory x
  in_memory t meeting_id participant_id kind = record {
    transport = t;
    meeting_id = meeting_id;
    participant_id = participant_id;
    kind = kind;
  }

  unfoldable pub create_producer_transport :
      String → String → String → Option String → Option String → Handler x TransportOptions
  create_producer_transport router_id participant_id meeting_id old_producer_transport_id
        old_consumer_transport_id =
      do
        t ← new_transport router_id
        written ←
            mutate_db x true default_tx_opts
              (producer_transport_of participant_id (transport_id t) ∷ [])
        finish_transport (given old_producer_transport_id (given old_consumer_transport_id []))
            (in_memory t meeting_id participant_id "producer") written

  unfoldable pub create_consumer_transport :
      String → String → String → Option String → Option String → Handler x TransportOptions
  create_consumer_transport router_id participant_id meeting_id old_producer_transport_id
        old_consumer_transport_id =
      do
        t ← new_transport router_id
        written ←
            mutate_db x true default_tx_opts
              (consumer_transport_of participant_id (transport_id t) ∷ [])
        finish_transport (given old_consumer_transport_id (given old_producer_transport_id []))
            (in_memory t meeting_id participant_id "consumer") written
