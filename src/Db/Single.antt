-- ===== src/Db/Single.antt =====
-- The single-purpose methods of src/db/mod.rs: `put`, `update`, `delete` and `query`.
use doordarshan_media_server.Base.{
  ℕ, String, Option, none, some, false, List, [], ◌∷◌, if◌then◌else◌, eqb, Outcome, ok, err, panic,
}
use doordarshan_media_server.Dao.{
  Dao, Statement, get_insert_string, get_update_string, get_delete_string, get_query_string,
}
use doordarshan_media_server.Db.{
  DbError, my_sql_error, generic_error, rollback_error, duplicate_entry, to_string, of_sql,
  build_all, MySqlContext, Progress, going, stopped, undo, commit_with, in_transaction,
  with_queries,
}
use doordarshan_media_server.Db.Driver.{MySqlDriver, SqlError, default_tx_opts}

module _ (d : MySqlDriver) where
  open d use {
    Pool, Tx, Row, get_conn, start_transaction, query_drop, commit, abandon, affected_rows,
    query as query_conn,
  }

  -- The body of the loop in `put`: a duplicate is passed over. `put` keeps no flag, so that of
  -- `Progress` stays `false`.
  unfoldable pub after_put : Tx → Option SqlError → Progress d
  after_put tx none = going tx false
  after_put tx (some (SqlError.my_sql_error code message)) =
      if eqb code duplicate_entry
      then going tx false
      else undo d tx (my_sql_error code message) rollback_error
  after_put tx (some (SqlError.other_error message)) =
      undo d tx (generic_error message) generic_error

  unfoldable pub run_puts : List Statement → Tx → Progress d
  run_puts [] tx = going tx false
  run_puts (q ∷ qs) tx = elim (after_put (query_drop tx q).0 (query_drop tx q).1) [
    | going tx' flag ↦ run_puts qs tx'
    | stopped e p ↦ stopped e p
  ]

  unfoldable pub finish_put : Progress d → Outcome DbError String × Pool
  unfolding commit_with
  finish_put (going tx flag) = commit_with d "Success" tx
  finish_put (stopped e p) = (err e, p)

  unfoldable pub put : List Dao → MySqlContext d → Outcome DbError String × Pool
  unfolding with_queries in_transaction finish_put
  put put_entities context =
      with_queries d context.pool (build_all get_insert_string put_entities) λ queries.
        in_transaction d context.pool default_tx_opts λ tx. finish_put (run_puts queries tx)

  -- `transaction.query_drop(query).unwrap()` for each query: a failure panics, and the transaction is
  -- dropped.
  unfoldable pub run_unwrapped :
      {A : Type 0}
      → List Statement
      → (Tx → Outcome DbError A × Pool)
      → Tx
      → Outcome DbError A × Pool
  run_unwrapped [] body tx = body tx
  run_unwrapped (q ∷ qs) body tx = elim (query_drop tx q).1 [
    | none ↦ run_unwrapped qs body (query_drop tx q).0
    | some e ↦ (panic, abandon (query_drop tx q).0)
  ]

  -- `update` tests what `mutate` unwraps: the connection and the start of the transaction.
  unfoldable pub in_checked_transaction :
      {A : Type 0} → Pool → (Tx → Outcome DbError A × Pool) → Outcome DbError A × Pool
  in_checked_transaction pool body = elim (get_conn pool) [
    | some e ↦ (err (generic_error (to_string e)), pool)
    | none ↦ elim (start_transaction pool default_tx_opts) [
      | ok tx ↦ body tx
      | err e ↦ (err (generic_error (to_string e)), pool)
      | panic ↦ (panic, pool)
    ]
  ]

  unfoldable pub update : List Dao → MySqlContext d → Outcome DbError String × Pool
  unfolding with_queries in_checked_transaction commit_with
  update update_entities context =
      with_queries d context.pool (build_all get_update_string update_entities) λ queries.
        in_checked_transaction context.pool (run_unwrapped queries (commit_with d "Success"))

  -- The count is read before the commit.
  unfoldable pub commit_delete : Tx → Outcome DbError ℕ × Pool
  unfolding commit_with
  commit_delete tx = commit_with d (affected_rows tx) tx

  unfoldable pub delete : List Dao → MySqlContext d → Outcome DbError ℕ × Pool
  unfolding with_queries in_transaction commit_delete
  delete delete_entities context =
      with_queries d context.pool (build_all get_delete_string delete_entities) λ queries.
        in_transaction d context.pool default_tx_opts (run_unwrapped queries commit_delete)

  -- The rows that the connection answers, or its error as one of this module.
  unfoldable pub rows_or_error : Outcome SqlError (List Row) → Outcome DbError (List Row)
  rows_or_error (ok rows) = ok rows
  rows_or_error (err e) = err (of_sql e)
  rows_or_error panic = panic

  unfoldable pub run_query : Pool → Statement → Outcome DbError (List Row)
  unfolding rows_or_error
  run_query pool statement = elim (get_conn pool) [
    | some e ↦ panic
    | none ↦ rows_or_error (query_conn pool statement)
  ]

  -- Whatever the mutation type, the statement is that of `get_query_string`.
  unfoldable pub query : Dao → MySqlContext d → Outcome DbError (List Row)
  unfolding run_query
  query query_entity context = elim (get_query_string query_entity) [
    | ok statement ↦ run_query context.pool statement
    | err e ↦ err (generic_error e)
    | panic ↦ panic
  ]
