-- ===== src/Db/Failures.antt =====
-- Statements that fail in `update` and `delete` of src/db/mod.rs.
use doordarshan_media_server.Base.{
  ◌≡◌, ap, ◌∙◌, Bool, true, false, ◌||◌, none, List, [], ◌∷◌, arith, Outcome, ok, panic, is_some,
}
use doordarshan_media_server.Dao.{Dao, Statement, get_update_string, get_delete_string}
use doordarshan_media_server.Db.{
  DbError, build_all, MySqlContext, commit_with, in_transaction, with_queries,
}
use doordarshan_media_server.Db.Driver.{MySqlDriver, IsTransactional, default_tx_opts}
use doordarshan_media_server.Db.Single.{
  run_unwrapped, in_checked_transaction, update, commit_delete, delete,
}

module _ (d : MySqlDriver) where
  open d use {Pool, Tx, query_drop}

  -- Some statement of the list fails.
  unfoldable pub fails : List Statement → Tx → Bool
  fails [] tx = false
  fails (q ∷ qs) tx = is_some (query_drop tx q).1 || fails qs (query_drop tx q).0

  module _ (laws : IsTransactional d) where
    open laws use {origin, origin_query, origin_start, abandon_restores}

    run_unwrapped-panic :
        {A : Type 0} (body : Tx → Outcome DbError A × Pool) (qs : List Statement) (tx : Tx)
        → fails qs tx ≡ true
        → run_unwrapped d qs body tx ≡ (panic, origin tx)
    unfolding run_unwrapped fails
    run_unwrapped-panic body [] tx h = cc
    run_unwrapped-panic body (q ∷ qs) tx h = ground (
      arith,
      run_unwrapped-panic body qs (query_drop tx q).0,
      origin_query tx q,
      abandon_restores (query_drop tx q).0,
    )

    -- On a driver that keeps the laws of transactions: if the statements of an update are built and
    -- its transaction starts, and one of them fails, then `update` panics, and the database is as it
    -- was before.
    pub update-panic :
        (es : List Dao) (ctx : MySqlContext d) (qs : List Statement) (tx : Tx)
        → build_all get_update_string es ≡ ok qs
        → d.get_conn ctx.pool ≡ none
        → d.start_transaction ctx.pool default_tx_opts ≡ ok tx
        → fails qs tx ≡ true
        → update d es ctx ≡ (panic, ctx.pool)
    unfolding update
    update-panic es ctx qs tx b c s h =
        rw (b, c, s, with_queries, in_checked_transaction)
          (run_unwrapped-panic (commit_with d "Success") qs tx h
            ∙ ap (λ p. (panic, p)) (origin_start ctx.pool default_tx_opts tx s))

    -- On a driver that keeps the laws of transactions: if the statements of a deletion are built and
    -- its transaction starts, and one of them fails, then `delete` panics, and the database is as it
    -- was before.
    pub delete-panic :
        (es : List Dao) (ctx : MySqlContext d) (qs : List Statement) (tx : Tx)
        → build_all get_delete_string es ≡ ok qs
        → d.get_conn ctx.pool ≡ none
        → d.start_transaction ctx.pool default_tx_opts ≡ ok tx
        → fails qs tx ≡ true
        → delete d es ctx ≡ (panic, ctx.pool)
    unfolding delete
    delete-panic es ctx qs tx b c s h =
        rw (b, c, s, with_queries, in_transaction)
          (run_unwrapped-panic (commit_delete d) qs tx h
            ∙ ap (λ p. (panic, p)) (origin_start ctx.pool default_tx_opts tx s))
