-- ===== src/Sfu/Consuming/Producers.antt =====
-- `create_consumer` of src/mediasoupv1/mod.rs leaves the producers in memory alone.
use doordarshan_media_server.Base.{
  ◌≡◌, refl, ◌∙◌, String, Bool, Option, none, some, ◌⊎◌, inl, inr, Outcome, ok, err, panic,
}
use doordarshan_media_server.Base.Dict.{Dict, lookup}
use doordarshan_media_server.Base.Action.{◌>>=◌, resume, unwrap}
use doordarshan_media_server.Db.{DbError}
use doordarshan_media_server.Sfu.Platform.{Platform}
use doordarshan_media_server.Sfu.Server.{
  TransportInMemory, ConsumerInMemory, Server, Handler, on_pool, mutate_db, get_shard, write_shard,
}
use doordarshan_media_server.Sfu.Consuming.{
  Consumption, Consumed, finish_consuming, write_consumers, consume_all, create_consumer,
}
use doordarshan_media_server.Sfu.Consuming.Twins.{consume_targets-Keeps}

module _ (x : Platform) where
  abbrev KeepsProducers : {A : Type 0} → Handler x A → Type 0
  KeepsProducers f = (s : Server x) → (f s).1.producer_map ≡ s.producer_map

  resume-same :
      {A B : Type 0} (f : A → Handler x B) (o : Outcome String A) (s t : Server x)
      → ((a : A) → KeepsProducers (f a))
      → t.producer_map ≡ s.producer_map
      → (resume f (o, t)).1.producer_map ≡ s.producer_map
  resume-same f (ok a) s t h e = h a t ∙ e
  resume-same f (err e') s t h e = e
  resume-same f panic s t h e = e

  KeepsProducers-bind :
      {A B : Type 0} (m : Handler x A) (f : A → Handler x B)
      → KeepsProducers m
      → ((a : A) → KeepsProducers (f a))
      → KeepsProducers (m >>= f)
  unfolding ◌>>=◌
  KeepsProducers-bind m f hm hf s = resume-same f (m s).0 s (m s).1 hf (hm s)

  unwrap-KeepsProducers : {A : Type 0} (o : Option A) → KeepsProducers (unwrap o)
  unwrap-KeepsProducers none s = refl
  unwrap-KeepsProducers (some a) s = refl

  get_shard-KeepsProducers : (m : String) → KeepsProducers (get_shard x m)
  unfolding get_shard
  get_shard-KeepsProducers m s = refl

  finish_consuming-KeepsProducers :
      (m : String) (a : Consumed x) (o : (String × Bool) ⊎ DbError)
      → KeepsProducers (finish_consuming x m a o)
  unfolding finish_consuming write_shard
  finish_consuming-KeepsProducers m a (inl r) =
      KeepsProducers-bind _ _
        (KeepsProducers-bind _ _ (get_shard-KeepsProducers m) (λ shard s. refl)) (λ _ s. refl)
  finish_consuming-KeepsProducers m a (inr e) = λ s. refl

  consume_all-KeepsProducers :
      (c : Consumption) (targets : Dict (Dict String)) (caps : x.RtpCapabilities)
      (t : TransportInMemory x) (existing : Dict (ConsumerInMemory x))
      → KeepsProducers (consume_all x c targets caps t existing)
  unfolding consume_all write_consumers mutate_db on_pool
  consume_all-KeepsProducers c targets caps t existing =
      KeepsProducers-bind _ _
        (λ s. (consume_targets-Keeps x c t.transport caps existing targets _ s).0)
        (λ a. KeepsProducers-bind _ _ (λ s. refl) (finish_consuming-KeepsProducers c.meeting_id a))

  pub create_consumer-producer_map :
      (c : Consumption) (targets : Dict (Dict String)) (caps : x.RtpCapabilities)
      → KeepsProducers (create_consumer x c targets caps)
  unfolding create_consumer
  create_consumer-producer_map c targets caps =
      KeepsProducers-bind _ _ (λ s. refl)
        λ map.
          KeepsProducers-bind _ _ (unwrap-KeepsProducers (lookup c.consumer_transport_id map)) λ t.
            KeepsProducers-bind _ _ (get_shard-KeepsProducers c.meeting_id)
              (consume_all-KeepsProducers c targets caps t)
