-- ===== src/Sfu/Start.antt =====
-- The start of the SFU, `create_inner` of src/mediasoupv1/mod.rs, and the heartbeat of its thread.
use doordarshan_media_server.Base.{
  ℕ, zero, suc, String, Bool, true, none, some, ◌⊎◌, inl, inr, List, [], ◌∷◌, map, ok, err, panic,
}
use doordarshan_media_server.Base.Texts.{format, display}
use doordarshan_media_server.Base.Dict.{Dict, insert}
use doordarshan_media_server.Base.Action.{Action, ◌>>=◌, ◌>>◌, pure, fail}
use doordarshan_media_server.Dao.{Dao, MutationType}
use doordarshan_media_server.Db.{DbError, mutate}
use doordarshan_media_server.Db.Driver.{MySqlDriver, default_tx_opts}
use doordarshan_media_server.Db.Single.{update}
use doordarshan_media_server.Sfu.Platform.{Platform}
use doordarshan_media_server.Sfu.Server.{
  SfuConfig, ConsumerInMemory, Server, Handler, context, answer, on_pool, display_error,
}

-- `machine_uid + "-" + boot_timestamp`
abbrev pub container_of : String → ℕ → String
container_of machine_uid boot_timestamp = format (machine_uid ∷ "-" ∷ display boot_timestamp ∷ [])

-- The heartbeats as entities.
abbrev pub first_heartbeat : String → ℕ → String → Dao
first_heartbeat internal_ip boot_timestamp tenant = Dao.container_heartbeat (record {
  mutation_type = MutationType.insert;
  container_id = container_of internal_ip boot_timestamp;
  heartbeat = some boot_timestamp;
  host = some internal_ip;
  tenant = some tenant;
})

abbrev pub later_heartbeat : String → ℕ → Dao
later_heartbeat container_id current_timestamp = Dao.container_heartbeat (record {
  mutation_type = MutationType.update;
  container_id = container_id;
  heartbeat = some current_timestamp;
  host = none;
  tenant = none;
})

abbrev pub worker_of_container : String → String → Dao
worker_of_container container_id worker_id = Dao.worker_container (record {
  mutation_type = MutationType.insert;
  container_id = container_id;
  worker_id = worker_id;
})

module _ (x : Platform) where
  open x use {driver, World, Worker}

  -- Before there is a server: the world and the database.
  pub record Outside : Type 0 where
    pub world : World
    pub pool : MySqlDriver.Pool driver

  -- A worker that cannot be made panics.
  unfoldable pub create_worker : Action Outside Worker
  create_worker o = elim (x.create_worker o.world).0 [
    | ok worker ↦ (ok worker, record o { world = (x.create_worker o.world).1 })
    | err e ↦ (panic, record o { world = (x.create_worker o.world).1 })
    | panic ↦ (panic, record o { world = (x.create_worker o.world).1 })
  ]

  unfoldable pub create_workers : ℕ → Dict Worker → Action Outside (Dict Worker)
  create_workers zero workers_map = pure workers_map
  create_workers (suc n) workers_map = do
    worker ← create_worker
    create_workers n (insert (x.worker_id worker) worker workers_map)

  unfoldable pub write_start : List Dao → Action Outside ((String × Bool) ⊎ DbError)
  write_start entities o =
      let r = mutate driver entities (context x true default_tx_opts o.pool) in
      (answer x r.0, record o { pool = r.1 })

  unfoldable pub init_gstreamer : Action Outside (Unit {0})
  init_gstreamer o = elim (x.init_gstreamer o.world).0 [
    | none ↦ (ok tt, record o { world = (x.init_gstreamer o.world).1 })
    | some e ↦ (panic, record o { world = (x.init_gstreamer o.world).1 })
  ]

  -- `for _ in 0..consumer_shard_count { shards.push(..) }`
  unfoldable pub new_shards : ℕ → List (Dict (ConsumerInMemory x))
  new_shards zero = []
  new_shards (suc n) = [] ∷ new_shards n

  unfoldable pub new_server : SfuConfig → Dict Worker → Outside → Server x
  new_server config workers_map o = record {
    config = config;
    workers_map = workers_map;
    routers_map = [];
    transport_map = [];
    producer_map = [];
    consumer_map_shards = new_shards config.consumer_shard_count;
    plain_transport_map = [];
    plain_transport_consumer_map = [];
    pipeline_map = [];
    lock_map = [];
    events = [];
    pool = o.pool;
    world = o.world;
  }

  -- The end, from the answer of the database. The runtimes and the clock are not kept.
  unfoldable pub finish_starting :
      SfuConfig → Dict Worker → (String × Bool) ⊎ DbError → Action Outside (Server x)
  finish_starting config workers_map (inr e) =
      fail (format ("Error in writing to DB " ∷ display_error e ∷ []))
  finish_starting config workers_map (inl _) = do
    init_gstreamer
    (λ o. (ok (new_server config workers_map o), o))

  -- Two workers are made, and written to the database with the container.
  unfoldable pub create_inner : SfuConfig → ℕ → String → String → Action Outside (Server x)
  create_inner config boot_timestamp internal_ip tenant = do
    workers_map ← create_workers 2 []
    written ← write_start (
        first_heartbeat internal_ip boot_timestamp tenant
        ∷ map (λ worker. worker_of_container (container_of internal_ip boot_timestamp) worker.0)
            workers_map)
    finish_starting config workers_map written

  -- One round of the thread that `create_inner` starts; an error is only logged.
  unfoldable pub heartbeat : String → Handler x (Unit {0})
  heartbeat container_id s =
      (on_pool x (λ pool.
            update driver (later_heartbeat container_id (x.nanos s.world) ∷ [])
              (context x true default_tx_opts pool))
          >> pure tt)
        s
