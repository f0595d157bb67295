-- ===== src/Db/Atomicity.antt =====
-- What src/db/mod.rs promises of a transaction: all of its statements or none.
use mathlib.Core.Path.{subst}
use doordarshan_media_server.Base.{
  ◌∙◌, sym, ap, ◌≡◌, refl, String, Bool, false, not, ◌&&◌, ◌||◌, Option, none, some, List, [], ◌∷◌,
  arith, Outcome, ok, err, panic, eqb,
}
use doordarshan_media_server.Dao.{Dao, Statement}
use doordarshan_media_server.Db.{
  DbError, commit_with, duplicate_entry, build, build_all, MySqlContext, Progress, going, stopped,
  undo, after_query, run_queries, finish, in_transaction, with_queries, mutate,
}
use doordarshan_media_server.Db.Driver.{MySqlDriver, IsTransactional, SqlError}

-- The error is the server's duplicate key.
abbrev pub is_duplicate : Option SqlError → Bool
is_duplicate (some (SqlError.my_sql_error code message)) = eqb code duplicate_entry
is_duplicate _ = false

-- The statement failed, and not with a duplicate key.
abbrev pub is_failure : Option SqlError → Bool
is_failure none = false
is_failure (some e) = not (is_duplicate (some e))

module _ (d : MySqlDriver) where
  open d use {Pool, Tx, query_drop, rollback, commit}

  -- The transaction after all of the statements, in order.
  unfoldable pub after_all : List Statement → Tx → Tx
  after_all [] tx = tx
  after_all (q ∷ qs) tx = after_all qs (query_drop tx q).0

  -- Some statement of the list met a duplicate key.
  unfoldable pub meets_duplicate : List Statement → Tx → Bool
  meets_duplicate [] tx = false
  meets_duplicate (q ∷ qs) tx =
      is_duplicate (query_drop tx q).1 || meets_duplicate qs (query_drop tx q).0

  -- Some statement of the list failed otherwise.
  unfoldable pub meets_failure : List Statement → Tx → Bool
  meets_failure [] tx = false
  meets_failure (q ∷ qs) tx = is_failure (query_drop tx q).1 || meets_failure qs (query_drop tx q).0

  module _ (laws : IsTransactional d) (undoes : (t : Tx) → (rollback t).1 ≡ none) where
    open laws use {origin, origin_query, rollback_restores, origin_start}

    -- How the loop over the statements may end, from a transaction and the flag so far.
    abbrev Ran : Bool → List Statement → Tx → Bool → Progress d → Type 0
    Ran rb qs tx dup (going tx' dup') =
        (tx' ≡ after_all qs tx)
        × (dup' ≡ (dup || meets_duplicate qs tx))
        × ((rb && meets_duplicate qs tx) ≡ false)
        × (meets_failure qs tx ≡ false)
    Ran rb qs tx dup (stopped e p) = p ≡ origin tx

    -- How one round of it may end, from what the statement answered.
    abbrev Stepped : Bool → Bool → Tx → Option SqlError → Progress d → Type 0
    Stepped rb dup tx o (going tx' dup') =
        (tx' ≡ tx)
        × (dup' ≡ (dup || is_duplicate o))
        × ((rb && is_duplicate o) ≡ false)
        × (is_failure o ≡ false)
    Stepped rb dup tx o (stopped e p) = p ≡ origin tx

    after_query-Ran :
        (rb dup : Bool) (tx : Tx) (o : Option SqlError)
        → Stepped rb dup tx o (after_query d rb dup tx o)
    unfolding after_query undo
    after_query-Ran rb dup tx none = ground arith
    after_query-Ran rb dup tx (some (SqlError.my_sql_error c m)) =
        ground (arith, undoes tx, rollback_restores tx)
    after_query-Ran rb dup tx (some (SqlError.other_error m)) =
        ground (arith, undoes tx, rollback_restores tx)

    Ran-step :
        (rb dup : Bool) (q : Statement) (qs : List Statement) (tx tx' : Tx) (dup' : Bool)
        (r : Progress d)
        → tx' ≡ (query_drop tx q).0
        → dup' ≡ (dup || is_duplicate (query_drop tx q).1)
        → (rb && is_duplicate (query_drop tx q).1) ≡ false
        → is_failure (query_drop tx q).1 ≡ false
        → Ran rb qs tx' dup' r
        → Ran rb (q ∷ qs) tx dup r
    unfolding after_all meets_duplicate meets_failure
    Ran-step rb dup q qs tx tx' dup' (going tx'' dup'') here flag free fine h = ground arith
    Ran-step rb dup q qs tx tx' dup' (stopped e p) here flag free fine h =
        ground (arith, origin_query tx q)

    -- The rest of the loop after one round.
    rest-Ran :
        (rb dup : Bool) (q : Statement) (qs : List Statement) (tx : Tx) (r : Progress d)
        → ((tx' : Tx) (dup' : Bool) → Ran rb qs tx' dup' (run_queries d rb qs tx' dup'))
        → Stepped rb dup (query_drop tx q).0 (query_drop tx q).1 r
        → Ran rb (q ∷ qs) tx dup (elim r [
          | going tx' duplicate' ↦ run_queries d rb qs tx' duplicate'
          | stopped e p ↦ stopped e p
        ])
    unfolding after_all meets_duplicate meets_failure
    rest-Ran rb dup q qs tx (going tx' dup') ih (here, flag, free, fine) =
        Ran-step rb dup q qs tx tx' dup' (run_queries d rb qs tx' dup') here flag free fine
          (ih tx' dup')
    rest-Ran rb dup q qs tx (stopped e p) ih h = h ∙ origin_query tx q

    run_queries-Ran :
        (rb : Bool) (qs : List Statement) (tx : Tx) (dup : Bool)
        → Ran rb qs tx dup (run_queries d rb qs tx dup)
    unfolding run_queries after_all meets_duplicate meets_failure
    run_queries-Ran rb [] tx dup = ground arith
    run_queries-Ran rb (q ∷ qs) tx dup =
        rest-Ran rb dup q qs tx _ (run_queries-Ran rb qs)
          (after_query-Ran rb dup (query_drop tx q).0 (query_drop tx q).1)

    -- What the call may return, with the state it leaves.
    abbrev pub AllOrNothing :
        List Dao → MySqlContext d → Outcome DbError (String × Bool) × Pool → Type 0
    AllOrNothing es ctx (ok (message, dup), p) =
        (qs : List Statement) × (tx : Tx) × (build_all build es ≡ ok qs)
        × (d.start_transaction ctx.pool ctx.tx_opts ≡ ok tx)
        × (p ≡ (commit (after_all qs tx)).0)
        × (dup ≡ meets_duplicate qs tx)
        × ((ctx.rollback_on_duplicate && dup) ≡ false)
        × (meets_failure qs tx ≡ false)
    AllOrNothing es ctx (err e, p) = p ≡ ctx.pool
    AllOrNothing es ctx (panic, p) = p ≡ ctx.pool

    module _ (commits : (t : Tx) → (commit t).1 ≡ none) where
      commit_with-eq-ok :
          {A : Type 0} (a : A) (tx : Tx) → commit_with d a tx ≡ (ok a, (commit tx).0)
      unfolding commit_with
      commit_with-eq-ok a tx = ground (arith, commits tx)

      finish-AllOrNothing :
          (es : List Dao) (ctx : MySqlContext d) (qs : List Statement) (tx : Tx) (r : Progress d)
          → build_all build es ≡ ok qs
          → d.start_transaction ctx.pool ctx.tx_opts ≡ ok tx
          → Ran ctx.rollback_on_duplicate qs tx false r
          → AllOrNothing es ctx (finish d r)
      unfolding finish
      finish-AllOrNothing es ctx qs tx (going tx' dup) b s (here, flag, free, fine) =
          subst (AllOrNothing es ctx) (sym (commit_with-eq-ok ("Success", dup) tx'))
            (qs, tx, b, s, ap (λ t. (commit t).0) here, flag, ground arith, fine)
      finish-AllOrNothing es ctx qs tx (stopped e p) b s h =
          h ∙ origin_start ctx.pool ctx.tx_opts tx s

      transaction-AllOrNothing :
          (es : List Dao) (ctx : MySqlContext d) (qs : List Statement)
          → build_all build es ≡ ok qs
          → (c : Option SqlError) → (t : Outcome SqlError Tx)
          → d.start_transaction ctx.pool ctx.tx_opts ≡ t
          → AllOrNothing es ctx (elim c [
            | some e ↦ (panic, ctx.pool)
            | none ↦ elim t [
              | ok tx ↦ finish d (run_queries d ctx.rollback_on_duplicate qs tx false)
              | err e ↦ (panic, ctx.pool)
              | panic ↦ (panic, ctx.pool)
            ]
          ])
      transaction-AllOrNothing es ctx qs b (some e) t s = refl
      transaction-AllOrNothing es ctx qs b none (ok tx) s =
          finish-AllOrNothing es ctx qs tx _ b s
            (run_queries-Ran ctx.rollback_on_duplicate qs tx false)
      transaction-AllOrNothing es ctx qs b none (err e) s = refl
      transaction-AllOrNothing es ctx qs b none panic s = refl

      built-AllOrNothing :
          (es : List Dao) (ctx : MySqlContext d) (o : Outcome DbError (List Statement))
          → build_all build es ≡ o
          → AllOrNothing es ctx (
              with_queries d ctx.pool o λ queries.
                in_transaction d ctx.pool ctx.tx_opts
                  λ tx. finish d (run_queries d ctx.rollback_on_duplicate queries tx false))
      unfolding with_queries in_transaction
      built-AllOrNothing es ctx (ok qs) b =
          transaction-AllOrNothing es ctx qs b (d.get_conn ctx.pool) _ refl
      built-AllOrNothing es ctx (err e) b = refl
      built-AllOrNothing es ctx panic b = refl

      -- On a driver that keeps the laws of transactions and whose rollbacks and commits do not fail,
      -- `mutate` is all or nothing: if it
      -- returns an error or panics, the database is as it was before; if it succeeds, every entity's
      -- statement was built, all of them were run in order from the state before and committed, the
      -- flag says whether one of them met a duplicate key, and none did if the context asks for a
      -- rollback on duplicates; and no statement failed in any other way.
      pub mutate-AllOrNothing :
          (es : List Dao) (ctx : MySqlContext d) → AllOrNothing es ctx (mutate d es ctx)
      unfolding mutate
      mutate-AllOrNothing es ctx = built-AllOrNothing es ctx _ refl
