-- ===== src/Sfu/Closing.antt =====
-- Closing producers and consumers, src/mediasoupv1/mod.rs: what leaves the maps in memory, and the
-- two handlers that also delete from the database.
pub mod Maps
use doordarshan_media_server.Base.{
  ℕ, ◌⊎◌, String, Bool, true, false, Option, none, some, inl, inr, List, [], ◌∷◌, map,
  if◌then◌else◌, ◌==◌, ok, panic,
}
use doordarshan_media_server.Base.Lists.{given}
use doordarshan_media_server.Base.Texts.{format}
use doordarshan_media_server.Base.Dict.{Dict, lookup, insert, remove, remove_all}
use doordarshan_media_server.Base.Action.{◌>>=◌, ◌>>◌, pure, fail, map_err}
use doordarshan_media_server.Dao.{Dao, MutationType}
use doordarshan_media_server.Db.{DbError}
use doordarshan_media_server.Db.Driver.{default_tx_opts}
use doordarshan_media_server.Sfu.Platform.{Platform}
use doordarshan_media_server.Sfu.Recording.{Gstreamer}
use doordarshan_media_server.Sfu.Recording.Detach.{detach}
use doordarshan_media_server.Sfu.Server.{
  ProducerInMemory, Server, Handler, write_shard, mutate_db, delete_db, display_error,
}

-- `ProducerDetail` of src/service/payload.rs
pub record ProducerDetail : Type 0 where
  pub participant_id : String
  pub producer_id : String
  pub kind : String

abbrev pub close_failure : String → String
close_failure e = format ("Failed to close all producers in memory " ∷ e ∷ [])

module _ (x : Platform) where
  -- The maps without a producer, its plain transport and the consumer of that.
  abbrev pub without_producer : String → Server x → Server x
  without_producer id s = record s {
    producer_map = remove id s.producer_map;
    plain_transport_map = remove id s.plain_transport_map;
    plain_transport_consumer_map = remove id s.plain_transport_consumer_map;
  }

  -- One round of the loop over `producer_ids`, from what is in the map under the id;
  -- `participant_ids[0]` panics on an empty list.
  unfoldable pub close_found :
      List String → String → Option (ProducerInMemory x) → Handler x (Option ProducerDetail)
  close_found participant_ids id none s = (ok none, s)
  close_found [] id (some v) s = (panic, record s { producer_map = remove id s.producer_map })
  close_found (first ∷ _) id (some v) s = (
    ok (some (record { participant_id = first; producer_id = id; kind = v.kind })),
    without_producer id s,
  )

  unfoldable pub close_one : List String → String → Handler x (Option ProducerDetail)
  unfolding close_found
  close_one participant_ids id s = close_found participant_ids id (lookup id s.producer_map) s

  unfoldable pub close_each : List String → List String → Handler x (List ProducerDetail)
  unfolding close_one
  close_each participant_ids [] = pure []
  close_each participant_ids (id ∷ ids) = do
    detail ← close_one participant_ids id
    rest ← close_each participant_ids ids
    pure (given detail rest)

  -- `detach` on the recording of a meeting, if it has one. The recording is shared, so the map shows
  -- what is left of it.
  unfoldable pub detach_found :
      List String → String → Option (Option (Gstreamer x)) → Handler x (Unit {0})
  detach_found participant_ids meeting_id none s = (ok tt, s)
  detach_found participant_ids meeting_id (some none) s = (panic, s)
  detach_found participant_ids meeting_id (some (some g)) s =
      let after = detach x participant_ids (g, s.world) in
      (
        after.0,
        record s {
          pipeline_map = insert meeting_id (some after.1.0) s.pipeline_map;
          world = after.1.1;
        },
      )

  unfoldable pub detach_from_pipeline : List String → String → Handler x (Unit {0})
  unfolding detach_found
  detach_from_pipeline participant_ids meeting_id s =
      detach_found participant_ids meeting_id (lookup meeting_id s.pipeline_map) s

  unfoldable pub close_all_producers_in_memory :
      List String → List String → String → Bool → Handler x (List ProducerDetail)
  unfolding close_each detach_from_pipeline
  close_all_producers_in_memory participant_ids producer_ids meeting_id remove_from_pipeline = do
    producer_details ← close_each participant_ids producer_ids
    if remove_from_pipeline then detach_from_pipeline participant_ids meeting_id else pure tt
    pure producer_details

  unfoldable pub close_all_consumers_in_memory : List String → String → Handler x (Unit {0})
  unfolding write_shard
  close_all_consumers_in_memory consumer_ids meeting_id =
      write_shard x meeting_id (remove_all consumer_ids)

  -- Where a handler closes the producers that it found, if it found any.
  unfoldable pub close_producers_if_any :
      List String → List String → String → Bool → Handler x (List ProducerDetail)
  unfolding close_all_producers_in_memory
  close_producers_if_any participant_ids [] meeting_id remove_from_pipeline = pure []
  close_producers_if_any participant_ids (id ∷ ids) meeting_id remove_from_pipeline =
      map_err close_failure
        (close_all_producers_in_memory participant_ids (id ∷ ids) meeting_id remove_from_pipeline)

  -- And the consumers.
  unfoldable pub close_consumers_if_any : List String → String → Handler x (Unit {0})
  unfolding close_all_consumers_in_memory
  close_consumers_if_any [] meeting_id = pure tt
  close_consumers_if_any (id ∷ ids) meeting_id = close_all_consumers_in_memory (id ∷ ids) meeting_id

  -- The entity that deletes one producer of a participant.
  abbrev pub delete_of_producer : String → String → String → Dao
  delete_of_producer participant_id meeting_id producer_id = Dao.participant_producers (record {
    mutation_type = MutationType.delete;
    participant_id = some participant_id;
    producers = none;
    kind = none;
    producer_id = some producer_id;
    meeting_id = some meeting_id;
    transport_id = none;
  })

  -- `closed_kinds.len() == 1 && closed_kinds[0] == "screenshare"`
  abbrev pub is_only_screenshare : List String → Bool
  is_only_screenshare (kind ∷ []) = kind == "screenshare"
  is_only_screenshare _ = false

  -- `close_producer` from the answer of the database; a lone screen share keeps the pipeline.
  unfoldable pub producers_deleted :
      String → String → Dict String → ℕ ⊎ DbError → Handler x (List ProducerDetail)
  producers_deleted participant_id meeting_id producer_kind_map (inr e) =
      fail (format ("Error in cleaning up in DB " ∷ display_error e ∷ []))
  producers_deleted participant_id meeting_id producer_kind_map (inl _) =
      if is_only_screenshare (map (λ e. e.1) producer_kind_map)
      then map_err (λ e. format ("Failed to close all screenshare producers in memory " ∷ e ∷ []))
          (close_all_producers_in_memory (participant_id ∷ []) (map (λ e. e.0) producer_kind_map)
            meeting_id false)
      else map_err close_failure (
          close_all_producers_in_memory (participant_id ∷ []) (map (λ e. e.0) producer_kind_map)
            meeting_id true)

  -- The producers leave the database, then the memory.
  unfoldable pub close_producer : String → String → Dict String → Handler x (List ProducerDetail)
  close_producer participant_id meeting_id producer_kind_map = do
    deleted ←
        delete_db x true default_tx_opts
          (map (λ e. delete_of_producer participant_id meeting_id e.0) producer_kind_map)
    producers_deleted participant_id meeting_id producer_kind_map deleted

  -- The entity that deletes one consumer.
  abbrev pub delete_of_consumer : String → String → Dao
  delete_of_consumer meeting_id consumer_id = Dao.participant_consumers (record {
    mutation_type = MutationType.delete;
    participant_id = none;
    consumers = none;
    target_participant_id = none;
    kind = none;
    consumer_id = some consumer_id;
    meeting_id = some meeting_id;
    transport_id = none;
  })

  unfoldable pub consumers_deleted :
      List String → String → (String × Bool) ⊎ DbError → Handler x (Unit {0})
  consumers_deleted consumer_ids meeting_id (inr e) =
      fail (format ("Error in cleaning up in DB " ∷ display_error e ∷ []))
  consumers_deleted consumer_ids meeting_id (inl _) =
      write_shard x meeting_id (remove_all consumer_ids)

  unfoldable pub close_consumer : List String → String → Handler x (Unit {0})
  close_consumer consumer_ids meeting_id = do
    deleted ← mutate_db x true default_tx_opts (map (delete_of_consumer meeting_id) consumer_ids)
    consumers_deleted consumer_ids meeting_id deleted
