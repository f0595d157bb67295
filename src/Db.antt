-- ===== src/Db.antt =====
-- src/db/mod.rs: running the statements of DAOs in a transaction.
pub mod Driver
pub mod Single
pub mod Atomicity
pub mod Puts
pub mod Failures
pub mod Example
mod Tests
use doordarshan_media_server.Base.{
  ℕ, String, Bool, true, false, Option, none, some, List, [], ◌∷◌, if◌then◌else◌, eqb, Outcome, ok,
  err, panic, map_err,
}
use doordarshan_media_server.Dao.{
  Dao, MutationType, Statement, get_mutation_type, get_insert_string, get_update_string,
  get_delete_string, get_custom_query1_string, get_custom_query2_string,
}
use Driver.{MySqlDriver, SqlError, TxOpts, default_tx_opts}

pub data DbError : Type 0 where
  my_sql_error : ℕ → String → DbError
  generic_error : String → DbError
  rollback_error : String → DbError

-- The code of MySQL for a duplicate key.
abbrev pub duplicate_entry : ℕ
duplicate_entry = 1062

-- `e.to_string()`
abbrev pub to_string : SqlError → String
to_string (SqlError.my_sql_error code message) = message
to_string (SqlError.other_error message) = message

-- A driver's error as an error of this module.
abbrev pub of_sql : SqlError → DbError
of_sql (SqlError.my_sql_error code message) = my_sql_error code message
of_sql (SqlError.other_error message) = generic_error message

-- The statement that `mutate` builds for an entity, by its mutation type.
unfoldable pub build_by : MutationType → Dao → Outcome String Statement
build_by MutationType.insert t = get_insert_string t
build_by MutationType.update t = get_update_string t
build_by MutationType.delete t = get_delete_string t
build_by MutationType.custom_query1 t = get_custom_query1_string t
build_by MutationType.custom_query2 t = get_custom_query2_string t
build_by MutationType.query t = err "Unhandled case"

unfoldable pub build : Dao → Outcome String Statement
unfolding build_by
build t = build_by (get_mutation_type t) t

-- The loop that fills `queries`: the first entity that builds no statement ends it.
unfoldable pub push_query :
    Outcome String Statement → Outcome DbError (List Statement) → Outcome DbError (List Statement)
push_query (ok s) (ok rest) = ok (s ∷ rest)
push_query (ok s) (err e) = err e
push_query (ok s) panic = panic
push_query (err e) rest = err (generic_error e)
push_query panic rest = panic

unfoldable pub build_all :
    (Dao → Outcome String Statement) → List Dao → Outcome DbError (List Statement)
unfolding push_query
build_all f [] = ok []
build_all f (t ∷ ts) = push_query (f t) (build_all f ts)

module _ (d : MySqlDriver) where
  open d use {
    Pool, Tx, get_conn, start_transaction, query_drop, rollback, commit, abandon, affected_rows,
    query as query_conn,
  }

  pub record MySqlContext : Type 0 where
    pub pool : Pool
    pub rollback_on_duplicate : Bool
    pub tx_opts : TxOpts

  -- The state of the loop over the statements after one of them: it goes on, or it has returned.
  pub data Progress : Type 0 where
    going : Tx → Bool → Progress
    stopped : DbError → Pool → Progress

  -- `transaction.rollback()`, and the error that is returned after it.
  unfoldable pub undo : Tx → DbError → (String → DbError) → Progress
  undo tx e on_failure = elim (rollback tx).1 [
    | none ↦ stopped e (rollback tx).0
    | some failure ↦ stopped (on_failure (to_string failure)) (rollback tx).0
  ]

  -- The body of the loop in `mutate`, from what the statement answered.
  unfoldable pub after_query : Bool → Bool → Tx → Option SqlError → Progress
  after_query rollback_on_duplicate duplicate tx none = going tx duplicate
  after_query rollback_on_duplicate duplicate tx (some (SqlError.my_sql_error code message)) =
      if eqb code duplicate_entry
      then if rollback_on_duplicate
        then undo tx (my_sql_error code message) rollback_error
        else going tx true
      else undo tx (my_sql_error code message) rollback_error
  after_query rollback_on_duplicate duplicate tx (some (SqlError.other_error message)) =
      undo tx (generic_error message) generic_error

  unfoldable pub run_queries : Bool → List Statement → Tx → Bool → Progress
  run_queries rollback_on_duplicate [] tx duplicate = going tx duplicate
  run_queries rollback_on_duplicate (q ∷ qs) tx duplicate =
      elim (after_query rollback_on_duplicate duplicate (query_drop tx q).0 (query_drop tx q).1) [
        | going tx' duplicate' ↦ run_queries rollback_on_duplicate qs tx' duplicate'
        | stopped e p ↦ stopped e p
      ]

  -- `transaction.commit()`, and what is returned after it.
  unfoldable pub commit_with : {A : Type 0} → A → Tx → Outcome DbError A × Pool
  commit_with a tx = elim (commit tx).1 [
    | none ↦ (ok a, (commit tx).0)
    | some failure ↦ (err (of_sql failure), (commit tx).0)
  ]

  unfoldable pub finish : Progress → Outcome DbError (String × Bool) × Pool
  unfolding commit_with
  finish (going tx duplicate) = commit_with ("Success", duplicate) tx
  finish (stopped e p) = (err e, p)

  -- `get_conn` and `start_transaction`, both unwrapped, and then the transaction.
  unfoldable pub in_transaction :
      {A : Type 0} → Pool → TxOpts → (Tx → Outcome DbError A × Pool) → Outcome DbError A × Pool
  in_transaction pool tx_opts body = elim (get_conn pool) [
    | some e ↦ (panic, pool)
    | none ↦ elim (start_transaction pool tx_opts) [
      | ok tx ↦ body tx
      | err e ↦ (panic, pool)
      | panic ↦ (panic, pool)
    ]
  ]

  -- What runs once every statement is built.
  unfoldable pub with_queries :
      {A : Type 0}
      → Pool
      → Outcome DbError (List Statement)
      → (List Statement → Outcome DbError A × Pool)
      → Outcome DbError A × Pool
  with_queries pool (ok queries) body = body queries
  with_queries pool (err e) body = (err e, pool)
  with_queries pool panic body = (panic, pool)

  unfoldable pub mutate : List Dao → MySqlContext → Outcome DbError (String × Bool) × Pool
  unfolding with_queries in_transaction finish
  mutate mutate_entities context =
      with_queries context.pool (build_all build mutate_entities) λ queries.
        in_transaction context.pool context.tx_opts
          λ tx. finish (run_queries context.rollback_on_duplicate queries tx false)
