-- ===== src/Sfu/Removing/Closers.antt =====
-- The handlers of src/mediasoupv1/mod.rs that close what a participant or a meeting has only remove
-- producers and consumers from the memory.
use doordarshan_media_server.Base.{
  ℕ, refl, String, Bool, true, false, Option, none, some, ◌⊎◌, inl, inr, List, [], ◌∷◌, map,
}
use doordarshan_media_server.Base.Dict.{Dict, lookup}
use doordarshan_media_server.Base.Action.{pure}
use doordarshan_media_server.Dao.{Dao}
use doordarshan_media_server.Db.{DbError}
use doordarshan_media_server.Db.Driver.{TxOpts}
use doordarshan_media_server.Sfu.Platform.{Platform}
use doordarshan_media_server.Sfu.Recording.{Gstreamer}
use doordarshan_media_server.Sfu.Server.{ProducerInMemory, Server, on_pool, mutate_db, delete_db}
use doordarshan_media_server.Sfu.Closing.{
  close_found, close_one, close_each, detach_found, detach_from_pipeline,
  close_all_producers_in_memory, close_all_consumers_in_memory, close_producers_if_any,
  close_consumers_if_any, close_producer, close_consumer, is_only_screenshare, producers_deleted,
  consumers_deleted,
}
use doordarshan_media_server.Sfu.Removing.{
  Shrinks, Removes, Removes-bind, Removes-map_err, Removes-if, write_shard-Removes,
}

module _ (x : Platform) where
  -- A handler that leaves both maps as they are.
  pub nothing : (s : Server x) → Shrinks x s s
  nothing s = Shrinks.kept s s (refl, refl)

  close_found-Removes :
      (ps : List String) (id : String) (o : Option (ProducerInMemory x)) (s : Server x)
      → Shrinks x s (close_found x ps id o s).1
  unfolding close_found
  close_found-Removes ps id none s = nothing s
  close_found-Removes [] id (some v) s = Shrinks.producer_removed id s _ refl refl
  close_found-Removes (p ∷ ps) id (some v) s = Shrinks.producer_removed id s _ refl refl

  close_each-Removes : (ps ids : List String) → Removes x (close_each x ps ids)
  unfolding close_each close_one
  close_each-Removes ps [] = nothing
  close_each-Removes ps (id ∷ ids) =
      Removes-bind x _ _ (λ s. close_found-Removes ps id (lookup id s.producer_map) s)
        (λ detail. Removes-bind x _ _ (close_each-Removes ps ids) (λ rest. nothing))

  detach_found-Removes :
      (ps : List String) (m : String) (o : Option (Option (Gstreamer x)))
      → Removes x (detach_found x ps m o)
  unfolding detach_found
  detach_found-Removes ps m none s = nothing s
  detach_found-Removes ps m (some none) s = nothing s
  detach_found-Removes ps m (some (some g)) s = Shrinks.kept s _ (refl, refl)

  close_all_producers_in_memory-Removes :
      (ps ids : List String) (m : String) (b : Bool)
      → Removes x (close_all_producers_in_memory x ps ids m b)
  unfolding close_all_producers_in_memory detach_from_pipeline
  close_all_producers_in_memory-Removes ps ids m b =
      Removes-bind x _ _ (close_each-Removes ps ids) (λ details.
        Removes-bind x _ _
          (Removes-if x b (detach_from_pipeline x ps m) (pure tt)
            (λ s. detach_found-Removes ps m (lookup m s.pipeline_map) s) nothing)
          (λ _. nothing))

  pub close_all_consumers_in_memory-Removes :
      (ids : List String) (m : String) → Removes x (close_all_consumers_in_memory x ids m)
  unfolding close_all_consumers_in_memory
  close_all_consumers_in_memory-Removes ids m = write_shard-Removes x m ids

  pub close_producers_if_any-Removes :
      (ps ids : List String) (m : String) (b : Bool)
      → Removes x (close_producers_if_any x ps ids m b)
  unfolding close_producers_if_any
  close_producers_if_any-Removes ps [] m b = nothing
  close_producers_if_any-Removes ps (id ∷ ids) m b =
      Removes-map_err x _ _ (close_all_producers_in_memory-Removes ps (id ∷ ids) m b)

  pub close_consumers_if_any-Removes :
      (ids : List String) (m : String) → Removes x (close_consumers_if_any x ids m)
  unfolding close_consumers_if_any
  close_consumers_if_any-Removes [] m = nothing
  close_consumers_if_any-Removes (id ∷ ids) m = close_all_consumers_in_memory-Removes (id ∷ ids) m

  -- What the database answers leaves the memory alone.
  pub mutate_db-Removes : (b : Bool) (o : TxOpts) (es : List Dao) → Removes x (mutate_db x b o es)
  unfolding mutate_db on_pool
  mutate_db-Removes b o es s = Shrinks.kept s _ (refl, refl)

  pub delete_db-Removes : (b : Bool) (o : TxOpts) (es : List Dao) → Removes x (delete_db x b o es)
  unfolding delete_db on_pool
  delete_db-Removes b o es s = Shrinks.kept s _ (refl, refl)

  producers_deleted-Removes :
      (p m : String) (kinds : Dict String) (o : ℕ ⊎ DbError)
      → Removes x (producers_deleted x p m kinds o)
  unfolding producers_deleted
  producers_deleted-Removes p m kinds (inr e) = nothing
  producers_deleted-Removes p m kinds (inl n) =
      Removes-if x (is_only_screenshare x (map (λ e. e.1) kinds)) _ _
        (Removes-map_err x _ _ (close_all_producers_in_memory-Removes (p ∷ []) _ m false))
        (Removes-map_err x _ _ (close_all_producers_in_memory-Removes (p ∷ []) _ m true))

  pub close_producer-Removes :
      (p m : String) (kinds : Dict String) → Removes x (close_producer x p m kinds)
  unfolding close_producer
  close_producer-Removes p m kinds =
      Removes-bind x _ _ (delete_db-Removes _ _ _) (producers_deleted-Removes p m kinds)

  consumers_deleted-Removes :
      (ids : List String) (m : String) (o : (String × Bool) ⊎ DbError)
      → Removes x (consumers_deleted x ids m o)
  unfolding consumers_deleted
  consumers_deleted-Removes ids m (inr e) = nothing
  consumers_deleted-Removes ids m (inl r) = write_shard-Removes x m ids

  pub close_consumer-Removes : (ids : List String) (m : String) → Removes x (close_consumer x ids m)
  unfolding close_consumer
  close_consumer-Removes ids m =
      Removes-bind x _ _ (mutate_db-Removes _ _ _) (consumers_deleted-Removes ids m)
