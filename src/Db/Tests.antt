-- ===== src/Db/Tests.antt =====
-- Runs of src/db/mod.rs on a small driver.
use doordarshan_media_server.Base.{
  ◌≡◌, refl, String, Bool, true, false, none, some, List, [], ◌∷◌, err, panic,
}
use doordarshan_media_server.Base.Texts.{format}
use doordarshan_media_server.Dao.{
  Dao, MutationType, Statement, update_set_where, delete_from_where, get_mutation_type,
  get_insert_string, insert_router_worker, get_update_string, get_delete_string,
  update_participant_meeting, delete_meeting_status,
}
use doordarshan_media_server.Db.{
  my_sql_error, duplicate_entry, MySqlContext, mutate, build_all, push_query, build, build_by,
  with_queries, in_transaction, run_queries, after_query, undo, finish,
}
use doordarshan_media_server.Db.Driver.{default_tx_opts}
use doordarshan_media_server.Db.Example.{OpenTx, driver, driver-IsTransactional}
use doordarshan_media_server.Db.Single.{put, update, delete}
use doordarshan_media_server.Db.Atomicity.{AllOrNothing, mutate-AllOrNothing}
use doordarshan_media_server.Db.Puts.{put-eq-mutate, without_flag}
use doordarshan_media_server.Db.Failures.{fails, update-panic, delete-panic}

abbrev router_worker : String → Dao
router_worker worker_id =
    Dao.router_worker
      (record { mutation_type = MutationType.insert; worker_id = some worker_id; router_id = "r" })

abbrev moved : Dao
moved = Dao.participant_meeting (record {
  mutation_type = MutationType.update;
  meeting_id = "m";
  participant_id = some "p";
  instance_id = some "i";
})

abbrev meeting : Dao
meeting =
    Dao.meeting_status
      (record { mutation_type = MutationType.delete; meeting_id = "m"; enabled = none })

-- The context of an empty database.
abbrev context : Bool → MySqlContext driver
context rollback_on_duplicate = record {
  pool = [];
  rollback_on_duplicate = rollback_on_duplicate;
  tx_opts = default_tx_opts;
}

abbrev inserts : List Dao
inserts = router_worker "w" ∷ router_worker "v" ∷ router_worker "w" ∷ []

-- The third insert is a duplicate of the first: both are kept out, or it alone.
mutate-inserts_rolled_back :
    mutate driver inserts (context true)
    ≡ (err (my_sql_error duplicate_entry "Duplicate entry"), [])
unfolding mutate build_all push_query build build_by get_mutation_type get_insert_string
    insert_router_worker format with_queries in_transaction run_queries after_query undo finish
mutate-inserts_rolled_back = refl

mutate-AllOrNothing_example :
    AllOrNothing driver driver-IsTransactional
      (λ t. refl)
      inserts
      (context false)
      (mutate driver inserts (context false))
mutate-AllOrNothing_example =
    mutate-AllOrNothing driver driver-IsTransactional (λ t. refl) (λ t. refl) inserts
      (context false)

put-eq-mutate_example :
    put driver inserts (context true)
    ≡ without_flag driver
        (mutate driver inserts (record (context true) { rollback_on_duplicate = false }))
unfolding get_mutation_type
put-eq-mutate_example = put-eq-mutate driver inserts (context true) (refl, (refl, (refl, tt)))

abbrev moved_row : Statement
moved_row =
    update_set_where "participant_meeting" "instance_id = 'i'"
      "participant_id = 'p' and meeting_id = 'm'"

abbrev meeting_row : Statement
meeting_row = delete_from_where "meeting_status" "meeting_id = 'm'"

-- A transaction on the empty database.
abbrev opened : OpenTx
opened = record { before = []; after = []; count = 0 }

-- A second update of a participant meets the first as a duplicate.
update-panic_example : update driver (moved ∷ moved ∷ []) (context false) ≡ (panic, [])
unfolding build_all push_query get_update_string update_participant_meeting format fails
update-panic_example =
    update-panic driver driver-IsTransactional (moved ∷ moved ∷ []) (context false)
      (moved_row ∷ moved_row ∷ []) opened refl refl refl refl

delete-panic_example : delete driver (meeting ∷ meeting ∷ []) (context false) ≡ (panic, [])
unfolding build_all push_query get_delete_string delete_meeting_status format fails
delete-panic_example =
    delete-panic driver driver-IsTransactional (meeting ∷ meeting ∷ []) (context false)
      (meeting_row ∷ meeting_row ∷ []) opened refl refl refl refl
