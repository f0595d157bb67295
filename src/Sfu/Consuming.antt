-- ===== src/Sfu/Consuming.antt =====
-- `create_consumer` of src/mediasoupv1/mod.rs: the consumers of a participant for the producers of
-- others.
pub mod Counts
pub mod Rounds
pub mod Twins
pub mod Reuse
pub mod Producers
use doordarshan_media_server.Base.{
  String, Bool, true, ◌&&◌, Option, none, some, ◌⊎◌, inl, inr, List, [], ◌∷◌, ◌++◌, if◌then◌else◌,
  ◌==◌, Outcome, ok, err, panic,
}
use doordarshan_media_server.Base.Texts.{format, pos}
use doordarshan_media_server.Base.Dict.{Dict, lookup, insert, extend}
use doordarshan_media_server.Base.Action.{◌>>=◌, ◌>>◌, pure, fail, gets, unwrap, map_err}
use doordarshan_media_server.Dao.{Dao, MutationType}
use doordarshan_media_server.Db.{DbError}
use doordarshan_media_server.Db.Driver.{default_tx_opts}
use doordarshan_media_server.Sfu.Platform.{Platform}
use doordarshan_media_server.Sfu.Server.{
  TransportInMemory, ConsumerInMemory, Handler, on_world, mutate_db, get_shard, write_shard,
  display_error,
}

-- `map.values().filter(test)`
unfoldable pub values_where {ℓ} : {V : Type ℓ} → (V → Bool) → Dict V → List V
values_where test [] = []
values_where test (entry ∷ entries) =
    let rest = values_where test entries in if test entry.1 then entry.1 ∷ rest else rest

-- Who consumes: the fixed arguments of `create_consumer`.
pub record Consumption : Type 0 where
  pub participant_id : String
  pub consumer_transport_id : String
  pub meeting_id : String
  pub instance_id : String

abbrev pub more_than_one : Consumption → String → String → String
more_than_one c target_participant_id kind = format (
    "More than one existing consumer found for participant " ∷ c.participant_id
    ∷ ", target participant " ∷ target_participant_id ∷ ", kind " ∷ kind ∷ ", meeting_id "
    ∷ c.meeting_id ∷ ", instance_id " ∷ c.instance_id ∷ [])

abbrev pub parse_failure : String → String
parse_failure e = format ("Failed to parse producer id: " ∷ e ∷ [])

abbrev pub consume_failure : String → String
consume_failure e = format ("Error in creating consumer " ∷ e ∷ [])

abbrev or_new {ℓ} : {V : Type ℓ} → Option (Dict V) → Dict V
or_new none = []
or_new (some m) = m

-- `result.entry(target).or_insert_with(HashMap::new).insert(kind, consumer)`
unfoldable pub insert_in {ℓ} : {V : Type ℓ} → String → String → V → Dict (Dict V) → Dict (Dict V)
insert_in target kind v result =
    insert target (insert kind v (or_new (lookup target result))) result

module _ (x : Platform) where
  open x use {WebRtcTransport, Consumer, RtpCapabilities, consumer_id}

  -- What the loop over the targets fills.
  pub record Consumed : Type 0 where
    pub temp_consumer_map : Dict (ConsumerInMemory x)
    pub mysql_entities : List Dao
    pub result : Dict (Dict Consumer)

  -- The test for an existing consumer.
  abbrev pub is_existing : Consumption → String → String → ConsumerInMemory x → Bool
  is_existing c target_participant_id kind v =
      v.participant_id == c.participant_id
      && (v.target_participant_id == target_participant_id
          && (v.kind == kind && (v.meeting_id == c.meeting_id && v.instance_id == c.instance_id)))

  abbrev pub consumer_entity : Consumption → String → String → Consumer → Dao
  consumer_entity c target_participant_id kind consumer = Dao.participant_consumers (record {
    mutation_type = MutationType.insert;
    participant_id = some c.participant_id;
    consumers = some (pos 1);
    target_participant_id = some target_participant_id;
    kind = some kind;
    consumer_id = some (consumer_id consumer);
    meeting_id = some c.meeting_id;
    transport_id = some c.consumer_transport_id;
  })

  abbrev pub consumer_in_memory :
      Consumption → String → String → String → Consumer → ConsumerInMemory x
  consumer_in_memory c target_participant_id kind producer_id consumer = record {
    consumer = consumer;
    participant_id = c.participant_id;
    target_participant_id = target_participant_id;
    kind = kind;
    meeting_id = c.meeting_id;
    instance_id = c.instance_id;
    producer_id = producer_id;
  }

  -- A new consumer is kept for the memory, the database and the answer.
  unfoldable pub add_consumer :
      Consumption → String → String → String → Consumer → Consumed → Consumed
  add_consumer c target_participant_id kind producer_id consumer a = record {
    temp_consumer_map =
        insert (consumer_id consumer)
          (consumer_in_memory c target_participant_id kind producer_id consumer)
          a.temp_consumer_map;
    mysql_entities = a.mysql_entities ++ consumer_entity c target_participant_id kind consumer ∷ [];
    result = insert_in target_participant_id kind consumer a.result;
  }

  unfoldable pub parse_producer_id : String → Handler x x.ProducerId
  parse_producer_id producer_id s = (x.parse_producer_id producer_id, s)

  -- One round of the inner loop, from the existing consumers of the target and the kind.
  unfoldable pub consume_found :
      Consumption
      → WebRtcTransport
      → RtpCapabilities
      → String
      → String
      → String
      → List (ConsumerInMemory x)
      → Consumed
      → Handler x Consumed
  consume_found c transport rtp_capabilities target_participant_id kind producer_id_string [] a = do
    producer_id ← map_err parse_failure (parse_producer_id producer_id_string)
    consumer ←
        map_err consume_failure (on_world x (x.consume transport producer_id rtp_capabilities))
    pure (add_consumer c target_participant_id kind producer_id_string consumer a)
  consume_found c transport rtp_capabilities target_participant_id kind producer_id_string
        (existing ∷ []) a =
      pure (record a { result = insert_in target_participant_id kind existing.consumer a.result })
  consume_found c transport rtp_capabilities target_participant_id kind producer_id_string
        (existing ∷ other ∷ _) a =
      fail (more_than_one c target_participant_id kind)

  -- The kinds of one target: `kind_map` has a producer id for each.
  unfoldable pub consume_kinds :
      Consumption
      → WebRtcTransport
      → RtpCapabilities
      → Dict (ConsumerInMemory x)
      → String
      → Dict String
      → Consumed
      → Handler x Consumed
  consume_kinds c transport rtp_capabilities existing target_participant_id [] a = pure a
  consume_kinds c transport rtp_capabilities existing target_participant_id (entry ∷ kind_map) a =
      do
        b ←
            consume_found c transport rtp_capabilities target_participant_id entry.0 entry.1
              (values_where (is_existing c target_participant_id entry.0) existing) a
        consume_kinds c transport rtp_capabilities existing target_participant_id kind_map b

  unfoldable pub consume_targets :
      Consumption
      → WebRtcTransport
      → RtpCapabilities
      → Dict (ConsumerInMemory x)
      → Dict (Dict String)
      → Consumed
      → Handler x Consumed
  consume_targets c transport rtp_capabilities existing [] a = pure a
  consume_targets c transport rtp_capabilities existing (entry ∷ target_participants) a = do
    b ← consume_kinds c transport rtp_capabilities existing entry.0 entry.1 a
    consume_targets c transport rtp_capabilities existing target_participants b

  -- The end, from the answer of the database.
  unfoldable pub finish_consuming :
      String → Consumed → (String × Bool) ⊎ DbError → Handler x (Dict (Dict Consumer))
  finish_consuming meeting_id a (inl _) = do
    write_shard x meeting_id (λ shard. extend shard a.temp_consumer_map)
    pure a.result
  finish_consuming meeting_id a (inr e) =
      fail (format ("Error in writing to DB " ∷ display_error e ∷ []))

  unfoldable pub write_consumers : String → Consumed → Handler x (Dict (Dict Consumer))
  write_consumers meeting_id a = do
    written ← mutate_db x true default_tx_opts a.mysql_entities
    finish_consuming meeting_id a written

  -- `create_consumer` from the transport and a copy of the meeting's consumers.
  unfoldable pub consume_all :
      Consumption
      → Dict (Dict String)
      → RtpCapabilities
      → TransportInMemory x
      → Dict (ConsumerInMemory x)
      → Handler x (Dict (Dict Consumer))
  consume_all c target_participants rtp_capabilities consumer_transport existing_consumer_map = do
    a ←
        consume_targets c consumer_transport.transport rtp_capabilities existing_consumer_map
          target_participants (record { temp_consumer_map = []; mysql_entities = []; result = [] })
    write_consumers c.meeting_id a

  -- An unknown transport panics.
  unfoldable pub create_consumer :
      Consumption → Dict (Dict String) → RtpCapabilities → Handler x (Dict (Dict Consumer))
  create_consumer c target_participants rtp_capabilities = do
    transport_map ← gets (λ s. s.transport_map)
    consumer_transport ← unwrap (lookup c.consumer_transport_id transport_map)
    existing_consumer_map ← get_shard x c.meeting_id
    consume_all c target_participants rtp_capabilities consumer_transport existing_consumer_map
