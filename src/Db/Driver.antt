-- ===== src/Db/Driver.antt =====
-- The `mysql` crate and the server behind it, which the repository does not contain: a record of the
-- calls that src/db/mod.rs makes. A `Pool` stands for the state of the database that a connection
-- sees, a `Tx` for an open transaction. What other connections write meanwhile is not modelled.
use doordarshan_media_server.Base.{ℕ, ◌≡◌, String, Bool, false, Option, none, List, Outcome, ok}
use doordarshan_media_server.Dao.{Statement}

-- `mysql::Error`: an error that the server reports, with its code, or any other. The text is what
-- its `Display` gives; that of the server's error and that of the error around it are not told apart.
pub data SqlError : Type 0 where
  my_sql_error : ℕ → String → SqlError
  other_error : String → SqlError

pub data IsolationLevel : Type 0 where
  serializable : IsolationLevel

pub data AccessMode : Type 0 where
  read_write : AccessMode

-- `mysql::TxOpts`
pub record TxOpts : Type 0 where
  pub isolation_level : Option IsolationLevel
  pub with_consistent_snapshot : Bool
  pub access_mode : Option AccessMode

abbrev pub default_tx_opts : TxOpts
default_tx_opts = record {
  isolation_level = none;
  with_consistent_snapshot = false;
  access_mode = none;
}

pub record MySqlDriver : Type 1 where
  pub Pool : Type 0
  pub Tx : Type 0
  pub Row : Type 0
  pub get_conn : Pool → Option SqlError
  pub start_transaction : Pool → TxOpts → Outcome SqlError Tx
  -- the transaction after the statement, and the error if it failed
  pub query_drop : Tx → Statement → Tx × Option SqlError
  pub rollback : Tx → Pool × Option SqlError
  pub commit : Tx → Pool × Option SqlError
  -- `Drop` of a transaction that is neither committed nor rolled back
  pub abandon : Tx → Pool
  -- of the statement that ran last
  pub affected_rows : Tx → ℕ
  pub query : Pool → Statement → Outcome SqlError (List Row)

-- What the crate documents of transactions: each remembers the state that it started from, and a
-- transaction that is rolled back or dropped leaves that state.
pub record IsTransactional (d : MySqlDriver) : Type 0 where
  pub origin : d.Tx → d.Pool
  pub origin_start :
      (p : d.Pool) (o : TxOpts) (t : d.Tx) → d.start_transaction p o ≡ ok t → origin t ≡ p
  pub origin_query : (t : d.Tx) (s : Statement) → origin (d.query_drop t s).0 ≡ origin t
  pub rollback_restores : (t : d.Tx) → (d.rollback t).1 ≡ none → (d.rollback t).0 ≡ origin t
  pub abandon_restores : (t : d.Tx) → d.abandon t ≡ origin t
