-- ===== src/Db/Puts.antt =====
-- `put` of src/db/mod.rs against `mutate`.
use doordarshan_media_server.Base.{
  ◌≡◌, refl, sym, ap, ◌∙◌, String, Bool, false, Option, none, some, List, [], ◌∷◌, arith, Outcome,
  ok, err, panic,
}
use doordarshan_media_server.Base.Lists.{All}
use doordarshan_media_server.Dao.{
  Dao, MutationType, Statement, get_mutation_type, get_insert_string,
}
use doordarshan_media_server.Db.{
  DbError, build, build_by, build_all, MySqlContext, Progress, going, stopped, undo, after_query,
  run_queries, commit_with, finish, in_transaction, with_queries, mutate,
}
use doordarshan_media_server.Db.Driver.{MySqlDriver, SqlError, default_tx_opts}
use doordarshan_media_server.Db.Single.{after_put, run_puts, finish_put, put}

build_all-insert :
    (es : List Dao)
    → All (λ e. get_mutation_type e ≡ MutationType.insert) es
    → build_all build es ≡ build_all get_insert_string es
unfolding build_all build build_by
build_all-insert [] h = refl
build_all-insert (e ∷ es) h = rw (h.0, build_all-insert es h.1)

module _ (d : MySqlDriver) where
  open d use {Pool, Tx, query_drop}

  -- The answer of `mutate` without its flag.
  abbrev pub without_flag : Outcome DbError (String × Bool) × Pool → Outcome DbError String × Pool
  without_flag (ok (message, dup), p) = (ok message, p)
  without_flag (err e, p) = (err e, p)
  without_flag (panic, p) = (panic, p)

  -- The round of `mutate` with its flag put out.
  abbrev unflag : Progress d → Progress d
  unflag (going tx dup) = going tx false
  unflag (stopped e p) = stopped e p

  after_put-eq-after_query :
      (dup : Bool) (tx : Tx) (o : Option SqlError)
      → after_put d tx o ≡ unflag (after_query d false dup tx o)
  unfolding after_put after_query undo
  after_put-eq-after_query dup tx none = refl
  after_put-eq-after_query dup tx (some (SqlError.my_sql_error c m)) = ground arith
  after_put-eq-after_query dup tx (some (SqlError.other_error m)) = ground arith

  commit-without_flag :
      (tx : Tx) (dup : Bool)
      → without_flag (commit_with d ("Success", dup) tx) ≡ commit_with d "Success" tx
  unfolding commit_with
  commit-without_flag tx dup = ground arith

  finish-without_flag : (r : Progress d) → without_flag (finish d r) ≡ finish_put d (unflag r)
  unfolding finish finish_put
  finish-without_flag (going tx dup) = commit-without_flag tx dup
  finish-without_flag (stopped e p) = refl

  -- One step of both loops, from a round of `mutate`.
  rest-unflag :
      (qs : List Statement) (r : Progress d)
      → ((tx : Tx) (dup : Bool) → run_puts d qs tx ≡ unflag (run_queries d false qs tx dup))
      → ◌≡◌ {A = Progress d}
          (elim (unflag r) [ going tx' flag ↦ run_puts d qs tx' | stopped e p ↦ stopped e p ])
          (unflag (elim r [
            | going tx' dup' ↦ run_queries d false qs tx' dup'
            | stopped e p ↦ stopped e p
          ]))
  rest-unflag qs (going tx dup) ih = ih tx dup
  rest-unflag qs (stopped e p) ih = refl

  run_puts-eq-run_queries :
      (qs : List Statement) (tx : Tx) (dup : Bool)
      → run_puts d qs tx ≡ unflag (run_queries d false qs tx dup)
  unfolding run_puts run_queries
  run_puts-eq-run_queries [] tx dup = refl
  run_puts-eq-run_queries (q ∷ qs) tx dup =
      ap (λ (r : Progress d). again r)
        (after_put-eq-after_query dup (query_drop tx q).0 (query_drop tx q).1)
      ∙ rest-unflag qs (after_query d false dup (query_drop tx q).0 (query_drop tx q).1)
          (run_puts-eq-run_queries qs)
    where
      again : Progress d → Progress d
      again r = elim r [ going tx' flag ↦ run_puts d qs tx' | stopped e p ↦ stopped e p ]

  transaction-without_flag :
      (qs : List Statement) (tx : Tx)
      → finish_put d (run_puts d qs tx) ≡ without_flag (finish d (run_queries d false qs tx false))
  transaction-without_flag qs tx =
      ap (finish_put d) (run_puts-eq-run_queries qs tx false)
      ∙ sym (finish-without_flag (run_queries d false qs tx false))

  started-without_flag :
      (qs : List Statement) (p : Pool) (c : Option SqlError) (t : Outcome SqlError Tx)
      → ◌≡◌ {A = Outcome DbError String × Pool}
          (elim c [
            | some e ↦ (panic, p)
            | none ↦ elim t [
              | ok tx ↦ finish_put d (run_puts d qs tx)
              | err e ↦ (panic, p)
              | panic ↦ (panic, p)
            ]
          ])
          (without_flag (elim c [
            | some e ↦ (panic, p)
            | none ↦ elim t [
              | ok tx ↦ finish d (run_queries d false qs tx false)
              | err e ↦ (panic, p)
              | panic ↦ (panic, p)
            ]
          ]))
  started-without_flag qs p (some e) t = refl
  started-without_flag qs p none (ok tx) = transaction-without_flag qs tx
  started-without_flag qs p none (err e) = refl
  started-without_flag qs p none panic = refl

  built-without_flag :
      (p : Pool) (o : Outcome DbError (List Statement))
      → with_queries d p o
          (λ qs. in_transaction d p default_tx_opts λ tx. finish_put d (run_puts d qs tx))
        ≡ without_flag (
            with_queries d p o (λ qs.
              in_transaction d p default_tx_opts λ tx. finish d (run_queries d false qs tx false)))
  unfolding with_queries in_transaction
  built-without_flag p (ok qs) =
      started-without_flag qs p (d.get_conn p) (d.start_transaction p default_tx_opts)
  built-without_flag p (err e) = refl
  built-without_flag p panic = refl

  -- For entities that are all inserts, `put` does what `mutate` does in a context with the default
  -- options that does not roll back on duplicates, and returns its answer without the flag: the same
  -- message, error or panic, and the same database.
  pub put-eq-mutate :
      (es : List Dao) (ctx : MySqlContext d)
      → All (λ e. get_mutation_type e ≡ MutationType.insert) es
      → put d es ctx
        ≡ without_flag
            (mutate d es (record ctx { rollback_on_duplicate = false; tx_opts = default_tx_opts }))
  unfolding put mutate
  put-eq-mutate es ctx h = rw (build_all-insert es h) (built-without_flag ctx.pool _)
