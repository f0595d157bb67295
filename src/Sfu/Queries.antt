-- ===== src/Sfu/Queries.antt =====
-- The queries of src/mediasoupv1/mod.rs over the producers and the consumers in memory.
pub mod Lookup
use doordarshan_media_server.Base.{String, Bool, ◌&&◌, not, List, [], ◌∷◌, if◌then◌else◌, ◌==◌}
use doordarshan_media_server.Base.Lists.{contains}
use doordarshan_media_server.Base.Dict.{Dict}
use doordarshan_media_server.Base.Action.{◌>>=◌, pure, gets}
use doordarshan_media_server.Sfu.Platform.{Platform}
use doordarshan_media_server.Sfu.Server.{
  ProducerInMemory, ConsumerInMemory, Server, Handler, get_shard,
}

-- `map.into_iter().filter(test).map(id).collect()`
unfoldable pub ids_where {ℓ} : {V : Type ℓ} → (V → String) → (V → Bool) → Dict V → List String
ids_where id test [] = []
ids_where id test ((k, v) ∷ m) =
    let rest = ids_where id test m in if test v then id v ∷ rest else rest

module _ (x : Platform) where
  open x use {producer_id, consumer_id}

  -- The ids of the producers, or of the consumers, that satisfy a test.
  abbrev pub producers_where : (ProducerInMemory x → Bool) → Dict (ProducerInMemory x) → List String
  producers_where = ids_where (λ v. producer_id v.producer)

  abbrev pub consumers_where : (ConsumerInMemory x → Bool) → Dict (ConsumerInMemory x) → List String
  consumers_where = ids_where (λ v. consumer_id v.consumer)

  unfoldable pub get_participant_producers : String → Handler x (List String)
  get_participant_producers participant_id =
      gets λ s. producers_where (λ v. v.participant_id == participant_id) s.producer_map

  unfoldable pub get_participant_consumers : String → String → Handler x (List String)
  get_participant_consumers participant_id meeting_id = do
    consumer_map ← get_shard x meeting_id
    pure (consumers_where (λ v. v.participant_id == participant_id) consumer_map)

  -- A producer or a consumer of a participant in a meeting, on one instance.
  abbrev pub producer_of_instance : String → String → String → ProducerInMemory x → Bool
  producer_of_instance participant_id meeting_id instance_id v =
      v.participant_id == participant_id
      && (v.meeting_id == meeting_id && v.instance_id == instance_id)

  abbrev pub consumer_of_instance : String → String → String → ConsumerInMemory x → Bool
  consumer_of_instance participant_id meeting_id instance_id v =
      v.participant_id == participant_id
      && (v.meeting_id == meeting_id && v.instance_id == instance_id)

  -- The same, on any other instance.
  abbrev pub producer_excluding_instance : String → String → String → ProducerInMemory x → Bool
  producer_excluding_instance participant_id meeting_id instance_id v =
      v.participant_id == participant_id
      && (v.meeting_id == meeting_id && not (v.instance_id == instance_id))

  abbrev pub consumer_excluding_instance : String → String → String → ConsumerInMemory x → Bool
  consumer_excluding_instance participant_id meeting_id instance_id v =
      v.participant_id == participant_id
      && (v.meeting_id == meeting_id && not (v.instance_id == instance_id))

  unfoldable pub get_participant_producers_for_instance_in_meeting :
      String → String → String → Handler x (List String)
  get_participant_producers_for_instance_in_meeting participant_id meeting_id instance_id =
      gets λ s.
        producers_where (producer_of_instance participant_id meeting_id instance_id) s.producer_map

  unfoldable pub get_participant_consumers_for_instance_in_meeting :
      String → String → String → Handler x (List String)
  get_participant_consumers_for_instance_in_meeting participant_id meeting_id instance_id = do
    consumer_map ← get_shard x meeting_id
    pure (consumers_where (consumer_of_instance participant_id meeting_id instance_id) consumer_map)

  unfoldable pub get_participant_producers_excluding_instance :
      String → String → String → Handler x (List String)
  get_participant_producers_excluding_instance participant_id meeting_id instance_id = gets λ s.
      producers_where (producer_excluding_instance participant_id meeting_id instance_id)
        s.producer_map

  unfoldable pub get_consumers_for_producer_ids : List String → String → Handler x (List String)
  get_consumers_for_producer_ids producer_ids meeting_id = do
    consumer_map ← get_shard x meeting_id
    pure (consumers_where (λ v. contains producer_ids v.producer_id) consumer_map)

  unfoldable pub get_participant_consumers_excluding_instance :
      String → String → String → Handler x (List String)
  get_participant_consumers_excluding_instance participant_id meeting_id instance_id = do
    consumer_map ← get_shard x meeting_id
    pure (
        consumers_where (consumer_excluding_instance participant_id meeting_id instance_id)
          consumer_map)

  unfoldable pub get_all_producers_for_meeting : String → Handler x (List String)
  get_all_producers_for_meeting meeting_id =
      gets λ s. producers_where (λ v. v.meeting_id == meeting_id) s.producer_map

  unfoldable pub get_all_consumers_for_meeting : String → Handler x (List String)
  get_all_consumers_for_meeting meeting_id = do
    consumer_map ← get_shard x meeting_id
    pure (consumers_where (λ v. v.meeting_id == meeting_id) consumer_map)
