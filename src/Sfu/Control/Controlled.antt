-- ===== src/Sfu/Control/Controlled.antt =====
-- What resuming consumers does, src/mediasoupv1/mod.rs.
use doordarshan_media_server.Base.{
  ◌≡◌, refl, ap, ◌∙◌, String, true, Option, none, some, List, [], ◌∷◌, Outcome, ok, is_some,
}
use doordarshan_media_server.Base.Outcomes
use doordarshan_media_server.Base.Lists.{All}
use doordarshan_media_server.Base.Dict.{Dict, lookup}
use doordarshan_media_server.Base.Action.{bind-ok, map_err}
use doordarshan_media_server.Sfu.Platform.{Platform}
use doordarshan_media_server.Sfu.Server.{ConsumerInMemory, Server, on_world}
use doordarshan_media_server.Sfu.Shards.{HasShards, shard_of, get_shard-shard_of}
use doordarshan_media_server.Sfu.Control.{call_consumer, call_consumers, resume_consumer}

module _ (x : Platform) where
  open x use {World, Consumer}

  call_consumer-ok :
      (call : Consumer → World → Outcome String (Unit {0}) × World) (failure : String → String)
      (o : Option (ConsumerInMemory x)) (s : Server x)
      → ((c : Consumer) (w : World) → (call c w).0 ≡ ok tt)
      → is_some o ≡ true
      → (w : World) × (call_consumer x call failure o s ≡ (ok tt, record s { world = w }))
  unfolding call_consumer map_err on_world
  call_consumer-ok call failure none s fine h = absurd cc
  call_consumer-ok call failure (some v) s fine h = (
    (call v.consumer s.world).1,
    ap (λ o. (Outcomes.map_err failure o, record s { world = (call v.consumer s.world).1 }))
        (fine v.consumer s.world),
  )

  call_consumers-ok :
      (call : Consumer → World → Outcome String (Unit {0}) × World) (failure : String → String)
      (m : Dict (ConsumerInMemory x)) (ids : List String) (s : Server x)
      → ((c : Consumer) (w : World) → (call c w).0 ≡ ok tt)
      → All (λ id. is_some (lookup id m) ≡ true) ids
      → (w : World) × (call_consumers x call failure m ids s ≡ (ok ids, record s { world = w }))
  unfolding call_consumers
  call_consumers-ok call failure m [] s fine h = (s.world, refl)
  call_consumers-ok call failure m (id ∷ ids) s fine (here, h) =
      let (w, first) = call_consumer-ok call failure (lookup id m) s fine here in
      let (w', rest) = call_consumers-ok call failure m ids (record s { world = w }) fine h in
      (w', bind-ok _ _ first ∙ bind-ok _ _ rest)

  pub resume_consumer-ok :
      (ids : List String) (m : String) (s : Server x)
      → HasShards x s
      → ((c : Consumer) (w : World) → (x.resume_consumer c w).0 ≡ ok tt)
      → All (λ id. is_some (lookup id (shard_of x m s)) ≡ true) ids
      → (w : World) × (resume_consumer x ids m s ≡ (ok ids, record s { world = w }))
  unfolding resume_consumer
  resume_consumer-ok ids m s h fine found =
      let (w, all) = call_consumers-ok x.resume_consumer _ (shard_of x m s) ids s fine found in
      (w, bind-ok _ _ (get_shard-shard_of x m s h) ∙ all)
