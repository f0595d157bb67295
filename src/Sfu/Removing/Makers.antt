-- ===== src/Sfu/Removing/Makers.antt =====
-- The handlers of src/mediasoupv1/mod.rs that make routers, and its heartbeat, change no producer and no consumer in
-- memory.
use doordarshan_media_server.Base.{
  refl, String, Bool, Option, none, some, ◌⊎◌, inl, inr, List, [], ◌∷◌, Outcome, ok, err, panic,
  eqb,
}
use doordarshan_media_server.Base.Dict.{Dict, lookup}
use doordarshan_media_server.Base.Action.{map_err, pure, fail}
use doordarshan_media_server.Dao.{Statement}
use doordarshan_media_server.Db.{
  DbError, my_sql_error, generic_error, rollback_error, duplicate_entry,
}
use doordarshan_media_server.Sfu.Platform.{Platform}
use doordarshan_media_server.Sfu.Server.{RouterInMemory, on_world, on_pool}
use doordarshan_media_server.Sfu.Creation.{
  ProducerConsumerCapacity, Allotted, allot, allot_routers, allot_worker, allot_workers,
  meeting_failure, finish_creating, write_meeting, create_meeting_and_routers_on_workers,
}
use doordarshan_media_server.Sfu.Batch.{
  MeetingPayload, Batch, printed, logged, batch_worker, batch_workers, batch_meetings, finish_batch,
  write_batch, batch_create_router_on_worker,
}
use doordarshan_media_server.Sfu.Start.{heartbeat}
use doordarshan_media_server.Sfu.Removing.{Shrinks, Removes, Removes-bind, Removes-if}
use doordarshan_media_server.Sfu.Removing.Closers.{nothing, mutate_db-Removes}

module _ (x : Platform) where
  -- A router is made outside of the memory.
  create_router-Removes :
      (f : String → String) (worker : x.Worker)
      → Removes x (map_err f (on_world x (x.create_router worker)))
  unfolding map_err on_world
  create_router-Removes f worker s = Shrinks.kept s _ (refl, refl)

  allot_routers-Removes :
      (m c w : String) (worker : x.Worker) (entities : List ProducerConsumerCapacity)
      (a : Allotted x)
      → Removes x (allot_routers x m c w worker entities a)
  unfolding allot_routers
  allot_routers-Removes m c w worker [] a = nothing x
  allot_routers-Removes m c w worker (entity ∷ entities) a =
      Removes-bind x _ _ (create_router-Removes _ worker)
        (λ router. allot_routers-Removes m c w worker entities (allot x m c w entity router a))

  allot_worker-Removes :
      (m c w : String) (o : Option x.Worker) (entities : List ProducerConsumerCapacity)
      (a : Allotted x)
      → Removes x (allot_worker x m c w o entities a)
  unfolding allot_worker
  allot_worker-Removes m c w none entities a = nothing x
  allot_worker-Removes m c w (some worker) entities a =
      allot_routers-Removes m c w worker entities a

  allot_workers-Removes :
      (m c : String) (workers : Dict x.Worker) (entries : Dict (List ProducerConsumerCapacity))
      (a : Allotted x)
      → Removes x (allot_workers x m c workers entries a)
  unfolding allot_workers
  allot_workers-Removes m c workers [] a = nothing x
  allot_workers-Removes m c workers (entry ∷ entries) a =
      Removes-bind x _ _ (allot_worker-Removes m c entry.0 (lookup entry.0 workers) entry.1 a)
        (allot_workers-Removes m c workers entries)

  finish_creating-Removes :
      (routers : Dict (RouterInMemory x)) (o : (String × Bool) ⊎ DbError)
      → Removes x (finish_creating x routers o)
  unfolding finish_creating
  finish_creating-Removes routers (inl a) =
      Removes-bind x _ _ (λ s. Shrinks.kept s _ (refl, refl)) (λ _. nothing x)
  finish_creating-Removes routers (inr (my_sql_error c m)) =
      Removes-if x (eqb c duplicate_entry) (pure "Meeting already exists")
        (fail (meeting_failure x m)) (nothing x) (nothing x)
  finish_creating-Removes routers (inr (generic_error m)) = nothing x
  finish_creating-Removes routers (inr (rollback_error m)) = nothing x

  write_meeting-Removes : (m : String) (a : Allotted x) → Removes x (write_meeting x m a)
  unfolding write_meeting
  write_meeting-Removes m a =
      Removes-bind x _ _ (mutate_db-Removes x _ _ _) (finish_creating-Removes a.routers)

  pub create_meeting_and_routers_on_workers-Removes :
      (entries : Dict (List ProducerConsumerCapacity)) (m c : String)
      → Removes x (create_meeting_and_routers_on_workers x entries m c)
  unfolding create_meeting_and_routers_on_workers
  create_meeting_and_routers_on_workers-Removes entries m c s =
      Removes-bind x _ _ (allot_workers-Removes m c s.workers_map entries _)
        (write_meeting-Removes m) s

  printed-Removes : (o : Outcome String Statement) → Removes x (printed x o)
  unfolding printed
  printed-Removes (ok statement) = nothing x
  printed-Removes (err e) = nothing x
  printed-Removes panic = nothing x

  logged-Removes : (o : Outcome String Statement) → Removes x (logged x o)
  unfolding logged
  logged-Removes o =
      Removes-if x x.is_info_logged (printed x o) (pure tt) (printed-Removes o) (nothing x)

  batch_worker-Removes :
      (m c w : String) (entity : ProducerConsumerCapacity) (o : Option x.Worker) (b : Batch x)
      → Removes x (batch_worker x m c w entity o b)
  unfolding batch_worker
  batch_worker-Removes m c w entity none b = nothing x
  batch_worker-Removes m c w entity (some worker) b =
      Removes-bind x _ _ (create_router-Removes _ worker) λ router.
        Removes-bind x _ _ (logged-Removes _)
          λ _. Removes-bind x _ _ (logged-Removes _) λ _. nothing x

  batch_workers-Removes :
      (m c : String) (workers : Dict x.Worker) (entries : Dict ProducerConsumerCapacity)
      (b : Batch x)
      → Removes x (batch_workers x m c workers entries b)
  unfolding batch_workers
  batch_workers-Removes m c workers [] b = nothing x
  batch_workers-Removes m c workers (entry ∷ entries) b =
      Removes-bind x _ _ (batch_worker-Removes m c entry.0 entry.1 (lookup entry.0 workers) b)
        (batch_workers-Removes m c workers entries)

  batch_meetings-Removes :
      (workers : Dict x.Worker) (entries : Dict MeetingPayload) (b : Batch x)
      → Removes x (batch_meetings x workers entries b)
  unfolding batch_meetings
  batch_meetings-Removes workers [] b = nothing x
  batch_meetings-Removes workers (entry ∷ entries) b = Removes-bind x _ _ (logged-Removes _) λ _.
      Removes-bind x _ _ (batch_workers-Removes entry.0 _ workers _ _)
        (batch_meetings-Removes workers entries)

  finish_batch-Removes :
      (routers : Dict (RouterInMemory x)) (o : (String × Bool) ⊎ DbError)
      → Removes x (finish_batch x routers o)
  unfolding finish_batch
  finish_batch-Removes routers (inl a) =
      Removes-bind x _ _ (λ s. Shrinks.kept s _ (refl, refl)) (λ _. nothing x)
  finish_batch-Removes routers (inr e) = nothing x

  pub batch_create_router_on_worker-Removes :
      (entries : Dict MeetingPayload) → Removes x (batch_create_router_on_worker x entries)
  unfolding batch_create_router_on_worker write_batch
  batch_create_router_on_worker-Removes entries s =
      Removes-bind x _ _ (batch_meetings-Removes s.workers_map entries _)
        (λ b.
          Removes-bind x _ _ (mutate_db-Removes x _ _ _) (finish_batch-Removes b.allotted.routers))
        s

  pub heartbeat-Removes : (i : String) → Removes x (heartbeat x i)
  unfolding heartbeat on_pool
  heartbeat-Removes i s =
      Removes-bind x _ _ (λ s'. Shrinks.kept s' _ (refl, refl)) (λ _. nothing x) s
