-- ===== src/Sfu/Joining/Joined.antt =====
-- What joining a meeting does where the database fails, and what the queries for the producers of a
-- meeting answer: src/mediasoupv1/mod.rs.
use doordarshan_media_server.Base.{
  ◌≡◌, refl, ap, ◌∙◌, String, Bool, false, Option, none, List, [], ◌∷◌, Outcome, ok, err, panic,
}
use doordarshan_media_server.Base.Texts.{format}
use doordarshan_media_server.Base.Action.{bind-ok, ◌>>=◌}
use doordarshan_media_server.Dao.{Dao, get_query_string, query_participant_producers}
use doordarshan_media_server.Db.{DbError, MySqlContext, mutate}
use doordarshan_media_server.Db.Driver.{IsTransactional, default_tx_opts}
use doordarshan_media_server.Db.Single.{query}
use doordarshan_media_server.Db.Atomicity.{AllOrNothing, mutate-AllOrNothing}
use doordarshan_media_server.Sfu.Platform.{Platform}
use doordarshan_media_server.Sfu.Server.{
  Server, context, answer, on_pool, mutate_db, query_db, display_error,
}
use doordarshan_media_server.Sfu.Joining.{
  joining, finish_joining, remove_and_add_participant_to_meeting, get_producers_of_meeting,
  get_producers_of_meeting_excluding_participant,
}

module _ (x : Platform) where
  open x use {driver}

  module _ (laws : IsTransactional driver) (undoes : (t : driver.Tx) → (driver.rollback t).1 ≡ none)
      (commits : (t : driver.Tx) → (driver.commit t).1 ≡ none) where
    restored :
        (es : List Dao) (ctx : MySqlContext driver) (o : Outcome DbError (String × Bool))
        (p : driver.Pool) (e : DbError)
        → AllOrNothing driver laws undoes es ctx (o, p)
        → o ≡ err e
        → p ≡ ctx.pool
    restored es ctx (ok a) p e h eq = absurd cc
    restored es ctx (err _) p e h eq = h
    restored es ctx panic p e h eq = h

    -- If the database refuses a join with an error, and its driver keeps the laws of transactions and
    -- neither rollbacks nor commits fail, then `remove_and_add_participant_to_meeting` returns the
    -- error, and nothing at all has changed: no event was sent, and the participant is still in the
    -- meetings that it was in.
    pub remove_and_add_participant_to_meeting-refused :
        (p m i : String) (pr cr : Option String) (e : DbError) (s : Server x)
        → (mutate driver (joining p m i pr cr) (context x false default_tx_opts s.pool)).0 ≡ err e
        → remove_and_add_participant_to_meeting x p m i pr cr s
          ≡ (err (format ("Error in writing to DB " ∷ display_error e ∷ [])), s)
    unfolding remove_and_add_participant_to_meeting finish_joining mutate_db on_pool
    remove_and_add_participant_to_meeting-refused p m i pr cr e s h =
        let es = joining p m i pr cr in
        let ctx = context x false default_tx_opts s.pool in
        let r = mutate driver es ctx in
        let same : r.1 ≡ s.pool =
          restored es ctx r.0 r.1 e (mutate-AllOrNothing driver laws undoes commits es ctx) h in
        bind-ok _ _ (ap (λ o. (answer x o, record s { pool = r.1 })) h)
        ∙ ap
            (λ pool. (
              err (format ("Error in writing to DB " ∷ display_error e ∷ [])),
              record s { pool = pool },
            ))
            same

  -- The query for the producers of a meeting that excludes a participant answers what the one that
  -- excludes nobody does, whoever the participant is, and leaves the same state.
  pub get_producers_of_meeting_excluding_participant_lem :
      (m p : String) (s : Server x)
      → get_producers_of_meeting_excluding_participant x m p s ≡ get_producers_of_meeting x m s
  unfolding get_producers_of_meeting_excluding_participant get_producers_of_meeting query_db query
      get_query_string query_participant_producers ◌>>=◌
  get_producers_of_meeting_excluding_participant_lem m p s = refl
