-- ===== src/Sfu/Creation.antt =====
-- Creating a meeting with its routers, src/mediasoupv1/mod.rs.
pub mod Created
use doordarshan_media_server.Base.{
  String, Bool, true, Option, none, some, ◌⊎◌, inl, inr, List, [], ◌∷◌, ◌++◌, if◌then◌else◌, eqb,
}
use doordarshan_media_server.Base.Texts.{format, ℤ}
use doordarshan_media_server.Base.Dict.{Dict, lookup, insert, extend}
use doordarshan_media_server.Base.Action.{◌>>=◌, ◌>>◌, pure, fail, panics, modify, map_err}
use doordarshan_media_server.Dao.{Dao, MutationType}
use doordarshan_media_server.Db.{
  DbError, my_sql_error, generic_error, rollback_error, duplicate_entry,
}
use doordarshan_media_server.Db.Driver.{default_tx_opts}
use doordarshan_media_server.Sfu.Platform.{Platform}
use doordarshan_media_server.Sfu.Server.{
  RouterInMemory, Server, Handler, on_world, mutate_db, display_error,
}

pub record ProducerConsumerCapacity : Type 0 where
  pub producer_capacity : Option ℤ
  pub consumer_capacity : Option ℤ
  pub capacity : Option ℤ

-- The capacity that a router is kept with: the first of the three that is given.
abbrev pub or_else : Option ℤ → Option ℤ → Option ℤ
or_else none o = o
or_else (some n) o = some n

abbrev pub kept_capacity : ProducerConsumerCapacity → Option ℤ
kept_capacity e = or_else e.capacity (or_else e.producer_capacity e.consumer_capacity)

abbrev pub router_failure : String → String
router_failure e = format ("Failed to create router " ∷ e ∷ [])

module _ (x : Platform) where
  open x use {Worker, Router, router_id}

  -- What the loop over the workers fills.
  pub record Allotted : Type 0 where
    pub router_workers : List Dao
    pub router_meetings : List Dao
    pub routers : Dict (RouterInMemory x)

  abbrev pub with_capacity : Router → Option ℤ → Dict (RouterInMemory x) → Dict (RouterInMemory x)
  with_capacity router none routers = routers
  with_capacity router (some n) routers =
      insert (router_id router) (record { router = router; capacity = n }) routers

  abbrev pub router_worker_of : String → Router → Dao
  router_worker_of worker_id router = Dao.router_worker (record {
    mutation_type = MutationType.insert;
    worker_id = some worker_id;
    router_id = router_id router;
  })

  abbrev pub router_meeting_of : String → String → ProducerConsumerCapacity → Router → Dao
  router_meeting_of meeting_id container_id entity router = Dao.router_meeting (record {
    mutation_type = MutationType.insert;
    router_id = some (router_id router);
    meeting_id = meeting_id;
    producer_capacity = entity.producer_capacity;
    consumer_capacity = entity.consumer_capacity;
    capacity = entity.capacity;
    container_id = some container_id;
  })

  unfoldable pub allot :
      String → String → String → ProducerConsumerCapacity → Router → Allotted → Allotted
  allot meeting_id container_id worker_id entity router a = record {
    router_workers = a.router_workers ++ router_worker_of worker_id router ∷ [];
    router_meetings =
        a.router_meetings ++ router_meeting_of meeting_id container_id entity router ∷ [];
    routers = with_capacity router (kept_capacity entity) a.routers;
  }

  -- The routers of one worker.
  unfoldable pub allot_routers :
      String
      → String
      → String
      → Worker
      → List ProducerConsumerCapacity
      → Allotted
      → Handler x Allotted
  allot_routers meeting_id container_id worker_id worker [] a = pure a
  allot_routers meeting_id container_id worker_id worker (entity ∷ entities) a = do
    router ← map_err router_failure (on_world x (x.create_router worker))
    allot_routers meeting_id container_id worker_id worker entities
        (allot meeting_id container_id worker_id entity router a)

  -- An unknown worker panics.
  unfoldable pub allot_worker :
      String
      → String
      → String
      → Option Worker
      → List ProducerConsumerCapacity
      → Allotted
      → Handler x Allotted
  allot_worker meeting_id container_id worker_id none entities a = panics
  allot_worker meeting_id container_id worker_id (some worker) entities a =
      allot_routers meeting_id container_id worker_id worker entities a

  unfoldable pub allot_workers :
      String
      → String
      → Dict Worker
      → Dict (List ProducerConsumerCapacity)
      → Allotted
      → Handler x Allotted
  allot_workers meeting_id container_id worker_map [] a = pure a
  allot_workers meeting_id container_id worker_map (entry ∷ entries) a = do
    b ← allot_worker meeting_id container_id entry.0 (lookup entry.0 worker_map) entry.1 a
    allot_workers meeting_id container_id worker_map entries b

  abbrev pub meeting_failure : String → String
  meeting_failure e = format ("Error in writing to DB " ∷ e ∷ [])

  -- The end, from the answer of the database: a duplicate is a meeting that exists already.
  unfoldable pub finish_creating :
      Dict (RouterInMemory x) → (String × Bool) ⊎ DbError → Handler x String
  finish_creating routers (inl _) = do
    modify (λ s. record s { routers_map = extend s.routers_map routers })
    pure "created the required routers"
  finish_creating routers (inr (my_sql_error code message)) =
      if eqb code duplicate_entry
      then pure "Meeting already exists"
      else fail (meeting_failure message)
  finish_creating routers (inr (generic_error message)) =
      fail (meeting_failure (display_error (generic_error message)))
  finish_creating routers (inr (rollback_error message)) =
      fail (meeting_failure (display_error (rollback_error message)))

  -- The status of a new meeting as an entity to insert.
  abbrev pub opening : String → Dao
  opening meeting_id =
      Dao.meeting_status (record {
        mutation_type = MutationType.insert;
        meeting_id = meeting_id;
        enabled = some true;
      })

  -- `create_meeting_and_routers_on_workers` from the routers that it has made.
  unfoldable pub write_meeting : String → Allotted → Handler x String
  write_meeting meeting_id a = do
    written ←
        mutate_db x true default_tx_opts
          (opening meeting_id ∷ a.router_workers ++ a.router_meetings)
    finish_creating a.routers written

  unfoldable pub create_meeting_and_routers_on_workers :
      Dict (List ProducerConsumerCapacity) → String → String → Handler x String
  create_meeting_and_routers_on_workers worker_router_capacity meeting_id container_id s =
      (allot_workers meeting_id container_id s.workers_map worker_router_capacity
            (record { router_workers = []; router_meetings = []; routers = [] })
          >>= write_meeting meeting_id)
        s
