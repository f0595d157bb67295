-- ===== src/Sfu/Removing/Controls.antt =====
-- The handlers of src/mediasoupv1/mod.rs that connect transports, pause and resume media change no
-- producer and no consumer in memory.
use doordarshan_media_server.Base.{
  refl, String, Option, none, some, List, [], ◌∷◌, Outcome, ok, err, panic,
}
use doordarshan_media_server.Base.Dict.{Dict, lookup}
use doordarshan_media_server.Base.Action.{map_err}
use doordarshan_media_server.Sfu.Platform.{Platform}
use doordarshan_media_server.Sfu.Server.{
  TransportInMemory, ProducerInMemory, ConsumerInMemory, Server, on_world,
}
use doordarshan_media_server.Sfu.Control.{
  connect_found, connect_transport, add_parameters, restart_found, restart_each, restart_ice,
  call_consumer, call_consumers, resume_consumer, pause_consumer, call_producer, call_producers,
  resume_producer, pause_producer,
}
use doordarshan_media_server.Sfu.Removing.{Shrinks, Removes, Removes-bind, get_shard-Removes}
use doordarshan_media_server.Sfu.Removing.Closers.{nothing}

module _ (x : Platform) where
  open x use {World, Producer, Consumer}

  connect_found-Removes :
      (d : x.DtlsParameters) (o : Option (TransportInMemory x)) → Removes x (connect_found x d o)
  unfolding connect_found
  connect_found-Removes d none s = nothing x s
  connect_found-Removes d (some t) s = Shrinks.kept s _ (refl, refl)

  pub connect_transport-Removes :
      (t : String) (d : x.DtlsParameters) → Removes x (connect_transport x t d)
  unfolding connect_transport
  connect_transport-Removes t d s = connect_found-Removes d (lookup t s.transport_map) s

  add_parameters-Removes :
      (id : String) (o : Outcome String x.IceParameters) (r : Dict x.IceParameters)
      → Removes x (add_parameters x id o r)
  unfolding add_parameters
  add_parameters-Removes id (ok p) r s = nothing x s
  add_parameters-Removes id (err e) r s = nothing x s
  add_parameters-Removes id panic r s = nothing x s

  restart_found-Removes :
      (id : String) (o : Option (TransportInMemory x)) (r : Dict x.IceParameters)
      → Removes x (restart_found x id o r)
  unfolding restart_found
  restart_found-Removes id none r s = nothing x s
  restart_found-Removes id (some t) r s =
      let (o, w) = x.restart_ice t.transport s.world in
      let s' : Server x = record s { world = w } in
      Shrinks.after s s' _ (Shrinks.kept s s' (refl, refl)) (add_parameters-Removes id o r s')

  restart_each-Removes :
      (m : Dict (TransportInMemory x)) (ids : List String) (r : Dict x.IceParameters)
      → Removes x (restart_each x m ids r)
  unfolding restart_each
  restart_each-Removes m [] r = nothing x
  restart_each-Removes m (id ∷ ids) r =
      Removes-bind x _ _ (restart_found-Removes id (lookup id m) r) (restart_each-Removes m ids)

  pub restart_ice-Removes : (ids : List String) → Removes x (restart_ice x ids)
  unfolding restart_ice
  restart_ice-Removes ids = Removes-bind x _ _ (nothing x) (λ m. restart_each-Removes m ids [])

  call_consumer-Removes :
      (call : Consumer → World → Outcome String (Unit {0}) × World) (failure : String → String)
      (o : Option (ConsumerInMemory x))
      → Removes x (call_consumer x call failure o)
  unfolding call_consumer map_err on_world
  call_consumer-Removes call failure none s = nothing x s
  call_consumer-Removes call failure (some v) s = Shrinks.kept s _ (refl, refl)

  call_consumers-Removes :
      (call : Consumer → World → Outcome String (Unit {0}) × World) (failure : String → String)
      (m : Dict (ConsumerInMemory x)) (ids : List String)
      → Removes x (call_consumers x call failure m ids)
  unfolding call_consumers
  call_consumers-Removes call failure m [] = nothing x
  call_consumers-Removes call failure m (id ∷ ids) =
      Removes-bind x _ _ (call_consumer-Removes call failure (lookup id m))
        λ _. Removes-bind x _ _ (call_consumers-Removes call failure m ids) (λ r. nothing x)

  pub resume_consumer-Removes :
      (ids : List String) (m : String) → Removes x (resume_consumer x ids m)
  unfolding resume_consumer
  resume_consumer-Removes ids m =
      Removes-bind x _ _ (get_shard-Removes x m)
        (λ shard. call_consumers-Removes x.resume_consumer _ shard ids)

  pub pause_consumer-Removes : (ids : List String) (m : String) → Removes x (pause_consumer x ids m)
  unfolding pause_consumer
  pause_consumer-Removes ids m =
      Removes-bind x _ _ (get_shard-Removes x m)
        (λ shard. call_consumers-Removes x.pause_consumer _ shard ids)

  call_producer-Removes :
      (call : Producer → World → Outcome String (Unit {0}) × World)
      (o : Option (ProducerInMemory x))
      → Removes x (call_producer x call o)
  unfolding call_producer map_err on_world
  call_producer-Removes call none s = nothing x s
  call_producer-Removes call (some v) s = Shrinks.kept s _ (refl, refl)

  call_producers-Removes :
      (call : Producer → World → Outcome String (Unit {0}) × World) (m : Dict (ProducerInMemory x))
      (p : String) (ids : Dict String)
      → Removes x (call_producers x call m p ids)
  unfolding call_producers
  call_producers-Removes call m p [] = nothing x
  call_producers-Removes call m p ((id, kind) ∷ ids) =
      Removes-bind x _ _ (call_producer-Removes call (lookup id m))
        λ _. Removes-bind x _ _ (call_producers-Removes call m p ids) (λ r. nothing x)

  pub resume_producer-Removes :
      (p : String) (ids : Dict String) → Removes x (resume_producer x p ids)
  unfolding resume_producer
  resume_producer-Removes p ids =
      Removes-bind x _ _ (nothing x) (λ m. call_producers-Removes x.resume_producer m p ids)

  pub pause_producer-Removes : (p : String) (ids : Dict String) → Removes x (pause_producer x p ids)
  unfolding pause_producer
  pause_producer-Removes p ids =
      Removes-bind x _ _ (nothing x) (λ m. call_producers-Removes x.pause_producer m p ids)
