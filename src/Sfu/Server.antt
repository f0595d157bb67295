-- ===== src/Sfu/Server.antt =====
-- The state of the SFU of src/mediasoupv1/mod.rs (`SFU`, `Inner` and what they hold), and the calls
-- that its operations share: on the world, on the database, and on the shards of the consumers.
use doordarshan_media_server.Base.{
  ℕ, ◌%◌, String, Bool, Option, ◌⊎◌, inl, inr, List, [], ◌∷◌, Outcome, ok, err, panic, unwrap,
}
use doordarshan_media_server.Base.Lists.{length, get_elem?, set}
use doordarshan_media_server.Base.Texts.{format, ℤ}
use doordarshan_media_server.Base.Dict.{Dict}
use doordarshan_media_server.Base.Action.{Action, ◌>>=◌, modify}
use doordarshan_media_server.Dao.{Dao}
use doordarshan_media_server.Db.{
  DbError, my_sql_error, generic_error, rollback_error, mutate, MySqlContext,
}
use doordarshan_media_server.Db.Driver.{MySqlDriver, TxOpts}
use doordarshan_media_server.Db.Single.{delete, query}
use doordarshan_media_server.Sfu.Platform.{Platform}
use doordarshan_media_server.Sfu.Recording.{Gstreamer}

-- What an `SFUConfig` gives to the operations modelled here.
pub record SfuConfig : Type 0 where
  pub max_incoming_bitrate : ℕ
  pub min_outgoing_bitrate : ℕ
  pub max_outgoing_bitrate : ℕ
  pub consumer_shard_count : ℕ
  pub plain_transport_video_port_range_start : ℕ
  pub plain_transport_video_port_range_end : ℕ
  pub plain_transport_audio_port_range_start : ℕ
  pub plain_transport_audio_port_range_end : ℕ

pub record UserEvent : Type 0 where
  pub event_id : String
  pub user_id : String
  pub event_type : String
  pub event_time : ℕ
  pub instance_id : String
  pub meeting_id : String

module _ (x : Platform) where
  open x use {
    driver, World, Worker, Router, WebRtcTransport, Producer, Consumer, PlainTransport, hash,
  }

  pub record TransportInMemory : Type 0 where
    pub transport : WebRtcTransport
    pub meeting_id : String
    pub participant_id : String
    pub kind : String

  pub record ProducerInMemory : Type 0 where
    pub producer : Producer
    pub meeting_id : String
    pub participant_id : String
    pub kind : String
    pub instance_id : String

  pub record ConsumerInMemory : Type 0 where
    pub consumer : Consumer
    pub meeting_id : String
    pub participant_id : String
    pub target_participant_id : String
    pub kind : String
    pub instance_id : String
    pub producer_id : String

  pub record RouterInMemory : Type 0 where
    pub router : Router
    pub capacity : ℤ

  -- `Inner` with the configuration, the database and the world. `lock_map` holds the keys that have
  -- a mutex, and `events` what was sent on the user channel, the last first.
  pub record Server : Type 0 where
    pub config : SfuConfig
    pub workers_map : Dict Worker
    pub routers_map : Dict RouterInMemory
    pub transport_map : Dict TransportInMemory
    pub producer_map : Dict ProducerInMemory
    pub consumer_map_shards : List (Dict ConsumerInMemory)
    pub plain_transport_map : Dict PlainTransport
    pub plain_transport_consumer_map : Dict Consumer
    pub pipeline_map : Dict (Option (Gstreamer x))
    pub lock_map : Dict (Unit {0})
    pub events : List UserEvent
    pub pool : MySqlDriver.Pool driver
    pub world : World

  abbrev pub Handler : Type 0 → Type 0
  Handler A = Action Server A

  -- A call on the world.
  unfoldable pub on_world : {A : Type 0} → (World → Outcome String A × World) → Handler A
  on_world f s = ((f s.world).0, record s { world = (f s.world).1 })

  abbrev pub answer : {A : Type 0} → Outcome DbError A → Outcome String (A ⊎ DbError)
  answer (ok a) = ok (inl a)
  answer (err e) = ok (inr e)
  answer panic = panic

  -- A call on the database; its error is a value, which the handlers match on.
  unfoldable pub on_pool :
      {A : Type 0}
      → (MySqlDriver.Pool driver → Outcome DbError A × MySqlDriver.Pool driver)
      → Handler (A ⊎ DbError)
  on_pool f s = (answer (f s.pool).0, record s { pool = (f s.pool).1 })

  abbrev pub context : Bool → TxOpts → MySqlDriver.Pool driver → MySqlContext driver
  context rollback_on_duplicate tx_opts pool = record {
    pool = pool;
    rollback_on_duplicate = rollback_on_duplicate;
    tx_opts = tx_opts;
  }

  -- `mysql.mutate(entities, mysql_context)`
  unfoldable pub mutate_db : Bool → TxOpts → List Dao → Handler ((String × Bool) ⊎ DbError)
  unfolding on_pool
  mutate_db rollback_on_duplicate tx_opts entities =
      on_pool λ pool. mutate driver entities (context rollback_on_duplicate tx_opts pool)

  -- `mysql.delete(entities, mysql_context)`
  unfoldable pub delete_db : Bool → TxOpts → List Dao → Handler (ℕ ⊎ DbError)
  unfolding on_pool
  delete_db rollback_on_duplicate tx_opts entities =
      on_pool λ pool. delete driver entities (context rollback_on_duplicate tx_opts pool)

  -- `mysql.query(entity, mysql_context)`; a query writes nothing.
  unfoldable pub query_db : Bool → TxOpts → Dao → Handler (List (MySqlDriver.Row driver) ⊎ DbError)
  query_db rollback_on_duplicate tx_opts entity s =
      (answer (query driver entity (context rollback_on_duplicate tx_opts s.pool)), s)

  -- The index of a meeting's shard.
  unfoldable pub shard_index : String → List (Dict ConsumerInMemory) → ℕ
  shard_index meeting_id shards = hash meeting_id % length shards

  -- `get_shard`: with no shards the remainder is by zero, and panics.
  unfoldable pub find_shard :
      String → List (Dict ConsumerInMemory) → Outcome String (Dict ConsumerInMemory)
  unfolding shard_index
  find_shard meeting_id [] = panic
  find_shard meeting_id (shard ∷ shards) =
      unwrap (get_elem? (shard ∷ shards) (shard_index meeting_id (shard ∷ shards)))

  unfoldable pub get_shard : String → Handler (Dict ConsumerInMemory)
  unfolding find_shard
  get_shard meeting_id s = (find_shard meeting_id s.consumer_map_shards, s)

  -- A write through the lock of a meeting's shard.
  unfoldable pub write_shard :
      String → (Dict ConsumerInMemory → Dict ConsumerInMemory) → Handler (Unit {0})
  write_shard meeting_id f = do
    shard ← get_shard meeting_id
    modify λ s. record s {
      consumer_map_shards =
          set s.consumer_map_shards (shard_index meeting_id s.consumer_map_shards) (f shard);
    }

-- `Display` of a `DBError`.
unfoldable pub display_error : DbError → String
display_error (my_sql_error code message) = format ("MySql Error : " ∷ message ∷ [])
display_error (generic_error message) = format ("Generic Error : " ∷ message ∷ [])
display_error (rollback_error message) = format ("Rollback Error : " ∷ message ∷ [])
