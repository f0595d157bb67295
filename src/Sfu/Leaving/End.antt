-- ===== src/Sfu/Leaving/End.antt =====
-- `end_meeting` of src/mediasoupv1/mod.rs: what it clears, and what it keeps.
use mathlib.Core.Path.{subst}
use doordarshan_media_server.Base.{
  ◌≡◌, refl, sym, ap, ◌∙◌, ◌==◌, String, Bool, true, false, Option, none, some, List, [], ◌∷◌, ok,
  panic,
}
use doordarshan_media_server.Base.Dict.{lookup, remove_all}
use doordarshan_media_server.Base.Action.{resume, bind-ok, bind-state, bind-resume}
use doordarshan_media_server.Db.{mutate}
use doordarshan_media_server.Db.Driver.{default_tx_opts}
use doordarshan_media_server.Sfu.Platform.{Platform}
use doordarshan_media_server.Sfu.Recording.{Gstreamer}
use doordarshan_media_server.Sfu.Server.{
  ProducerInMemory, ConsumerInMemory, Server, context, answer, on_pool, mutate_db,
}
use doordarshan_media_server.Sfu.Shards.{
  HasShards, shard_in, shard_of, with_shard, get_shard-shard_of, write_shard-with_shard,
  shard_of-with_shard,
}
use doordarshan_media_server.Sfu.Queries.{
  producers_where, consumers_where, get_all_producers_for_meeting, get_all_consumers_for_meeting,
}
use doordarshan_media_server.Sfu.Queries.Lookup.{ids_where-remove_all}
use doordarshan_media_server.Sfu.Closing.{close_all_consumers_in_memory, close_producers_if_any}
use doordarshan_media_server.Sfu.Closing.Maps.{
  close_producers_if_any-Closed, close_producers_if_any-ok, close_producers_if_any-pipeline_map,
  close_producers_if_any-panic,
}
use doordarshan_media_server.Sfu.Leaving.{
  set_null, stop_found, stop_pipeline, finish_ending, end_in_memory, ending, end_deleted,
  end_meeting,
}
use doordarshan_media_server.Sfu.Leaving.Leave.{HasKeys}

module _ (x : Platform) where
  abbrev producer_of_meeting : String → ProducerInMemory x → Bool
  producer_of_meeting m v = v.meeting_id == m

  abbrev consumer_of_meeting : String → ConsumerInMemory x → Bool
  consumer_of_meeting m v = v.meeting_id == m

  -- The meeting's entries in memory.
  abbrev pub meeting_producers : String → Server x → List String
  meeting_producers m s = producers_where x (producer_of_meeting m) s.producer_map

  abbrev pub meeting_consumers : String → Server x → List String
  meeting_consumers m s = consumers_where x (consumer_of_meeting m) (shard_of x m s)

  set_null-maps :
      (o : Option x.Pipeline) (s : Server x)
      → let s' = (set_null x o s).1 in
        (s'.producer_map ≡ s.producer_map)
        × (s'.consumer_map_shards ≡ s.consumer_map_shards)
        × (s'.pipeline_map ≡ s.pipeline_map)
  unfolding set_null
  set_null-maps none s = (refl, refl, refl)
  set_null-maps (some p) s = (refl, refl, refl)

  stop_found-maps :
      (o : Option (Option (Gstreamer x))) (s : Server x)
      → let s' = (stop_found x o s).1 in
        (s'.producer_map ≡ s.producer_map)
        × (s'.consumer_map_shards ≡ s.consumer_map_shards)
        × (s'.pipeline_map ≡ s.pipeline_map)
  unfolding stop_found
  stop_found-maps none s = (refl, refl, refl)
  stop_found-maps (some none) s = (refl, refl, refl)
  stop_found-maps (some (some g)) s = set_null-maps g.pipeline s

  -- The server when ending closes the producers.
  abbrev before_producers : String → List String → List String → Server x → Server x
  before_producers m rs ts s = with_shard x m (remove_all (meeting_consumers m s)) (record s {
    routers_map = remove_all rs s.routers_map;
    transport_map = remove_all ts s.transport_map;
  })

  end_in_memory-before :
      (m : String) (rs ts ps : List String) (s : Server x)
      → HasShards x s
      → end_in_memory x m rs ts ps s
        ≡ resume
            (λ _. finish_ending x m)
            (close_producers_if_any x ps
              (meeting_producers m s)
              m
              false
              (before_producers m rs ts s))
  unfolding end_in_memory get_all_consumers_for_meeting get_all_producers_for_meeting
      close_all_consumers_in_memory
  end_in_memory-before m rs ts ps s h =
      let s₁ : Server x = record s {
        routers_map = remove_all rs s.routers_map;
        transport_map = remove_all ts s.transport_map;
      } in
      bind-ok _ _ refl
      ∙ bind-ok _ _ refl
      ∙ bind-ok _ _ (bind-ok _ _ (get_shard-shard_of x m s₁ h))
      ∙ bind-ok _ _ (write_shard-with_shard x m (remove_all (meeting_consumers m s)) s₁ h)
      ∙ bind-ok _ _ refl
      ∙ bind-resume _ _ (before_producers m rs ts s)

  -- What an ended meeting leaves behind: none of its producers and consumers, but every recording.
  abbrev pub Ended : String → Server x → Server x → Type 0
  Ended m s s' =
      (meeting_producers m s' ≡ [])
      × (meeting_consumers m s' ≡ [])
      × (s'.pipeline_map ≡ s.pipeline_map)

  finish_ending-maps :
      (m : String) (s : Server x)
      → let s' = (finish_ending x m s).1 in
        (s'.producer_map ≡ s.producer_map)
        × (s'.consumer_map_shards ≡ s.consumer_map_shards)
        × (s'.pipeline_map ≡ s.pipeline_map)
  unfolding finish_ending stop_pipeline
  finish_ending-maps m s =
      let state = bind-state (stop_pipeline x m) "Success ended the meeting" s in
      let maps = stop_found-maps (lookup m s.pipeline_map) s in
      (
        ap (λ r. r.producer_map) state ∙ maps.0,
        ap (λ r. r.consumer_map_shards) state ∙ maps.1,
        ap (λ r. r.pipeline_map) state ∙ maps.2,
      )

  end_in_memory-Ended :
      (m p : String) (rs ts ps : List String) (s : Server x)
      → HasShards x s
      → HasKeys x m s
      → Ended m s (end_in_memory x m rs ts (p ∷ ps) s).1
  end_in_memory-Ended m p rs ts ps s h (kp, kc) =
      let ids = meeting_producers m s in
      let s₂ = before_producers m rs ts s in
      let s₃ = (close_producers_if_any x (p ∷ ps) ids m false s₂).1 in
      let closed = close_producers_if_any-Closed x p ps ids m false s₂ in
      let maps = finish_ending-maps m s₃ in
      let path : end_in_memory x m rs ts (p ∷ ps) s ≡ finish_ending x m s₃ =
        end_in_memory-before m rs ts (p ∷ ps) s h
        ∙ ap (λ o. resume (λ _. finish_ending x m) (o, s₃))
            (close_producers_if_any-ok x p ps ids m s₂) in
      subst (λ r. Ended m s r.1) (sym path)
        (
          ap (producers_where x _) (maps.0 ∙ closed.0) ∙ ids_where-remove_all _ _ s.producer_map kp,
          ap (λ l. consumers_where x (consumer_of_meeting m) (shard_in x m l)) (maps.1 ∙ closed.1)
              ∙ ap (consumers_where x _)
                  (shard_of-with_shard x m (remove_all (meeting_consumers m s)) s h)
              ∙ ids_where-remove_all _ _ (shard_of x m s) kc,
          maps.2 ∙ close_producers_if_any-pipeline_map x p ps ids m s₂,
        )

  -- Once the database has deleted the status of a meeting, and with at least one participant id, at
  -- least one shard, and every entry under its id: none of the meeting's producers and consumers is
  -- in memory after `end_meeting`, whatever it returns; but the map of the recordings is what it was,
  -- so that of the meeting, if there is one, is still there.
  pub end_meeting-Ended :
      (m p : String) (rs ts ps : List String) (a : String × Bool) (s : Server x)
      → HasShards x s
      → HasKeys x m s
      → (mutate x.driver (ending x m ∷ []) (context x true default_tx_opts s.pool)).0 ≡ ok a
      → Ended m s (end_meeting x m rs ts (p ∷ ps) s).1
  unfolding end_meeting end_deleted mutate_db on_pool
  end_meeting-Ended m p rs ts ps a s h keys e =
      let f = mutate x.driver (ending x m ∷ []) in
      let s₁ : Server x = record s { pool = (f (context x true default_tx_opts s.pool)).1 } in
      subst (λ r. Ended m s r.1) (sym (bind-ok _ _ (ap (λ o. (answer x o, s₁)) e)))
        (end_in_memory-Ended m p rs ts ps s₁ h keys)

  end_in_memory-panic :
      (m id : String) (rs ts ids : List String) (v : ProducerInMemory x) (s : Server x)
      → HasShards x s
      → meeting_producers m s ≡ id ∷ ids
      → lookup id s.producer_map ≡ some v
      → (end_in_memory x m rs ts [] s).0 ≡ panic
  end_in_memory-panic m id rs ts ids v s h found e =
      let s₂ = before_producers m rs ts s in
      ap (λ r. r.0)
        (end_in_memory-before m rs ts [] s h
          ∙ ap (λ l. resume (λ _. finish_ending x m) (close_producers_if_any x [] l m false s₂))
              found
          ∙ ap (resume (λ _. finish_ending x m))
              (close_producers_if_any-panic x id ids m false v s₂ e))

  -- With no participant id, at least one shard, and in memory the first producer that is found for
  -- the meeting, `end_meeting` panics once the database has deleted the status of the meeting.
  pub end_meeting-panic :
      (m id : String) (rs ts ids : List String) (a : String × Bool) (v : ProducerInMemory x)
      (s : Server x)
      → HasShards x s
      → meeting_producers m s ≡ id ∷ ids
      → lookup id s.producer_map ≡ some v
      → (mutate x.driver (ending x m ∷ []) (context x true default_tx_opts s.pool)).0 ≡ ok a
      → (end_meeting x m rs ts [] s).0 ≡ panic
  unfolding end_meeting end_deleted mutate_db on_pool
  end_meeting-panic m id rs ts ids a v s h found live e =
      let f = mutate x.driver (ending x m ∷ []) in
      let s₁ : Server x = record s { pool = (f (context x true default_tx_opts s.pool)).1 } in
      ap (λ r. r.0) (bind-ok _ _ (ap (λ o. (answer x o, s₁)) e))
      ∙ end_in_memory-panic m id rs ts ids v s₁ h found live
