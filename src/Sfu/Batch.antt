-- ===== src/Sfu/Batch.antt =====
-- `batch_create_router_on_worker` of src/mediasoupv1/mod.rs: new routers for meetings that move.
use doordarshan_media_server.Base.{
  String, Bool, if◌then◌else◌, true, false, Option, none, some, ◌⊎◌, inl, inr, List, [], ◌∷◌, ◌++◌,
  Outcome, ok, err, panic,
}
use doordarshan_media_server.Base.Texts.{format}
use doordarshan_media_server.Base.Dict.{Dict, lookup, extend}
use doordarshan_media_server.Base.Action.{◌>>=◌, ◌>>◌, pure, fail, panics, modify, map_err}
use doordarshan_media_server.Dao.{
  Dao, MutationType, Statement, get_insert_string, get_delete_string,
}
use doordarshan_media_server.Db.{DbError}
use doordarshan_media_server.Db.Driver.{TxOpts, serializable, read_write}
use doordarshan_media_server.Sfu.Platform.{Platform}
use doordarshan_media_server.Sfu.Server.{
  RouterInMemory, Handler, on_world, mutate_db, display_error,
}
use doordarshan_media_server.Sfu.Creation.{
  ProducerConsumerCapacity, Allotted, allot, router_failure, router_worker_of, router_meeting_of,
  opening,
}

pub record MeetingPayload : Type 0 where
  pub worker_payload : Dict ProducerConsumerCapacity
  pub old_container_id : String
  pub new_container_id : String

abbrev pub batch_tx_opts : TxOpts
batch_tx_opts = record {
  isolation_level = some serializable;
  with_consistent_snapshot = false;
  access_mode = some read_write;
}

module _ (x : Platform) where
  open x use {Worker, Router}

  -- What the loops fill.
  pub record Batch : Type 0 where
    pub meeting_statuses : List Dao
    pub allotted : Allotted x

  unfoldable pub printed : Outcome String Statement → Handler x (Unit {0})
  printed (ok statement) = pure tt
  printed (err e) = panics
  printed panic = panics

  -- `info!` of an `entity.get_insert_string().unwrap()`.
  unfoldable pub logged : Outcome String Statement → Handler x (Unit {0})
  logged statement = if x.is_info_logged then printed statement else pure tt

  abbrev pub clearing : String → Dao
  clearing meeting_id =
      Dao.meeting_status
        (record { mutation_type = MutationType.delete; meeting_id = meeting_id; enabled = none })

  -- A router of a worker for a meeting: an unknown worker panics, and so does an entity that cannot
  -- be printed.
  unfoldable pub batch_worker :
      String → String → String → ProducerConsumerCapacity → Option Worker → Batch → Handler x Batch
  batch_worker meeting_id container_id worker_id entity none b = panics
  batch_worker meeting_id container_id worker_id entity (some worker) b = do
    router ← map_err router_failure (on_world x (x.create_router worker))
    logged (get_insert_string (router_worker_of x worker_id router))
    logged (get_insert_string (router_meeting_of x meeting_id container_id entity router))
    pure
        (record b { allotted = allot x meeting_id container_id worker_id entity router b.allotted })

  unfoldable pub batch_workers :
      String → String → Dict Worker → Dict ProducerConsumerCapacity → Batch → Handler x Batch
  batch_workers meeting_id container_id worker_map [] b = pure b
  batch_workers meeting_id container_id worker_map (entry ∷ entries) b = do
    c ← batch_worker meeting_id container_id entry.0 entry.1 (lookup entry.0 worker_map) b
    batch_workers meeting_id container_id worker_map entries c

  unfoldable pub batch_meetings : Dict Worker → Dict MeetingPayload → Batch → Handler x Batch
  batch_meetings worker_map [] b = pure b
  batch_meetings worker_map (entry ∷ entries) b = do
    logged (get_delete_string (clearing entry.0))
    c ← batch_workers entry.0 entry.1.new_container_id worker_map entry.1.worker_payload (record b {
      meeting_statuses = b.meeting_statuses ++ clearing entry.0 ∷ opening x entry.0 ∷ [];
    })
    batch_meetings worker_map entries c

  -- The end, from the answer of the database.
  unfoldable pub finish_batch :
      Dict (RouterInMemory x) → (String × Bool) ⊎ DbError → Handler x String
  finish_batch routers (inl _) = do
    modify (λ s. record s { routers_map = extend s.routers_map routers })
    pure "created the required routers"
  finish_batch routers (inr e) = fail (format ("Error in writing to DB " ∷ display_error e ∷ []))

  unfoldable pub write_batch : Batch → Handler x String
  write_batch b = do
    written ←
        mutate_db x true batch_tx_opts
          (b.meeting_statuses ++ b.allotted.router_workers ++ b.allotted.router_meetings)
    finish_batch b.allotted.routers written

  unfoldable pub batch_create_router_on_worker : Dict MeetingPayload → Handler x String
  batch_create_router_on_worker meeting_map s =
      (batch_meetings s.workers_map meeting_map (record {
        meeting_statuses = [];
        allotted = record { router_workers = []; router_meetings = []; routers = [] };
      })
          >>= write_batch)
        s
