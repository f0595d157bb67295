-- ===== src/Db/Example.antt =====
-- A small driver for the tests: its table is the list of the statements that were committed, a
-- statement that stands in the table already is a duplicate key.
use doordarshan_media_server.Base.{
  ℕ, ◌≡◌, refl, String, Bool, false, ◌&&◌, ◌||◌, Option, none, some, List, [], ◌∷◌, Outcome, ok,
  arith, if◌then◌else◌, ◌==◌,
}
use doordarshan_media_server.Dao.{
  Statement, insert_into, update_set_where, delete_from_where, select_from_where,
}
use doordarshan_media_server.Db.{duplicate_entry}
use doordarshan_media_server.Db.Driver.{MySqlDriver, IsTransactional, SqlError}

-- The table that a statement is on, and its values or its condition.
abbrev text_of : Statement → String × String
text_of (insert_into t v) = (t, v)
text_of (update_set_where t v w) = (t, w)
text_of (delete_from_where t w) = (t, w)
text_of (select_from_where c t w) = (t, w)

abbrev stands_in : Statement → List Statement → Bool
stands_in q [] = false
stands_in q (r ∷ rs) =
    (text_of q).0 == (text_of r).0 && (text_of q).1 == (text_of r).1 || stands_in q rs

pub record OpenTx : Type 0 where
  pub before : List Statement
  pub after : List Statement
  pub count : ℕ

-- A table with this row is locked: no statement runs on it.
abbrev pub lock : Statement
lock = insert_into "locked" ""

abbrev run : OpenTx → Statement → OpenTx × Option SqlError
run t q =
    if stands_in lock t.after
    then (t, some (SqlError.other_error "locked"))
    else if stands_in q t.after
    then (t, some (SqlError.my_sql_error duplicate_entry "Duplicate entry"))
    else (record t { after = q ∷ t.after; count = 1 }, none)

abbrev pub driver : MySqlDriver
driver = record {
  Pool = List Statement;
  Tx = OpenTx;
  Row = Statement;
  get_conn = λ p. none;
  start_transaction = λ p o. ok (record { before = p; after = p; count = 0 });
  query_drop = run;
  rollback = λ t. (t.before, none);
  commit = λ t. (t.after, none);
  abandon = λ t. t.before;
  affected_rows = λ t. t.count;
  query = λ p q. ok p;
}

run-before : (t : OpenTx) (q : Statement) → (run t q).0.before ≡ t.before
run-before t q = ground arith

before_start :
    (t t' : OpenTx) → let o : Outcome SqlError OpenTx = ok t in o ≡ ok t' → t'.before ≡ t.before
before_start t t' e = ground (arith, e)

-- It keeps what the driver's documentation says of transactions.
pub driver-IsTransactional : IsTransactional driver
driver-IsTransactional = record {
  origin = λ t. t.before;
  origin_start = λ p o t e. before_start _ t e;
  origin_query = run-before;
  rollback_restores = λ t e. refl;
  abandon_restores = λ t. refl;
}
