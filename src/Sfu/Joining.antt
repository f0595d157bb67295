-- ===== src/Sfu/Joining.antt =====
-- Joining a meeting, and the producers that it has in the database: src/mediasoupv1/mod.rs.
pub mod Joined
use doordarshan_media_server.Base.{
  ℕ, String, Bool, true, false, not, Option, none, some, ◌⊎◌, inl, inr, List, [], ◌∷◌, ◌++◌,
  Outcome, ok,
}
use doordarshan_media_server.Base.Texts.{format}
use doordarshan_media_server.Base.Action.{◌>>=◌, ◌>>◌, pure, fail}
use doordarshan_media_server.Dao.{Dao, MutationType}
use doordarshan_media_server.Db.{DbError}
use doordarshan_media_server.Db.Driver.{MySqlDriver, default_tx_opts}
use doordarshan_media_server.Sfu.Platform.{Platform}
use doordarshan_media_server.Sfu.Server.{Server, Handler, mutate_db, query_db, display_error}
use doordarshan_media_server.Sfu.Rows.{read_rows}
use doordarshan_media_server.Sfu.Closing.{ProducerDetail}
use doordarshan_media_server.Sfu.Leaving.{push_user_session_event}

-- A participant's router as an entity to insert, if there is one.
abbrev router_entity : (Option String → Dao) → Option String → List Dao
router_entity entity none = []
router_entity entity (some id) = entity (some id) ∷ []

-- What `remove_and_add_participant_to_meeting` writes: the participant leaves whatever meeting it is
-- in on another instance, and joins this one.
abbrev pub joining : String → String → String → Option String → Option String → List Dao
joining participant_id meeting_id instance_id producer_router_id consumer_router_id =
    Dao.participant_meeting (record {
      mutation_type = MutationType.custom_query1;
      meeting_id = meeting_id;
      participant_id = some participant_id;
      instance_id = some instance_id;
    })
      ∷ Dao.participant_meeting (record {
        mutation_type = MutationType.insert;
        meeting_id = meeting_id;
        participant_id = some participant_id;
        instance_id = some instance_id;
      })
      ∷ router_entity
          (λ id. Dao.participant_producer_router (record {
            mutation_type = MutationType.insert;
            participant_id = participant_id;
            router_id = id;
          }))
          producer_router_id
    ++ router_entity
        (λ id. Dao.participant_consumer_router (record {
          mutation_type = MutationType.insert;
          participant_id = participant_id;
          router_id = id;
        }))
        consumer_router_id

-- The entity of a query for the producers of a meeting.
abbrev pub producers_entity : MutationType → Option String → String → Dao
producers_entity mutation_type participant_id meeting_id = Dao.participant_producers (record {
  mutation_type = mutation_type;
  participant_id = participant_id;
  producers = none;
  kind = none;
  producer_id = none;
  meeting_id = some meeting_id;
  transport_id = none;
})

module _ (x : Platform) where
  -- `remove_and_add_participant_to_meeting` from the answer of the database.
  unfoldable pub finish_joining :
      String → String → String → (String × Bool) ⊎ DbError → Handler x (String × Bool)
  finish_joining participant_id meeting_id instance_id (inl (message, duplicate)) = do
    push_user_session_event x participant_id meeting_id "JOIN" instance_id
    pure ("Success in writing to DB", not duplicate)
  finish_joining participant_id meeting_id instance_id (inr e) =
      fail (format ("Error in writing to DB " ∷ display_error e ∷ []))

  unfoldable pub remove_and_add_participant_to_meeting :
      String → String → String → Option String → Option String → Handler x (String × Bool)
  remove_and_add_participant_to_meeting participant_id meeting_id instance_id producer_router_id
        consumer_router_id =
      do
        written ←
            mutate_db x false default_tx_opts
              (joining participant_id meeting_id instance_id producer_router_id consumer_router_id)
        finish_joining participant_id meeting_id instance_id written

  unfoldable pub producers_found :
      List (MySqlDriver.Row x.driver) ⊎ DbError → Handler x (List ProducerDetail)
  producers_found (inl rows) s = (read_rows x rows, s)
  producers_found (inr e) s = fail (format ("Error in writing from DB " ∷ display_error e ∷ [])) s

  unfoldable pub get_producers_of_meeting : String → Handler x (List ProducerDetail)
  get_producers_of_meeting meeting_id = do
    rows ← query_db x true default_tx_opts (producers_entity MutationType.query none meeting_id)
    producers_found rows

  unfoldable pub get_producers_of_meeting_excluding_participant :
      String → String → Handler x (List ProducerDetail)
  get_producers_of_meeting_excluding_participant meeting_id participant_id = do
    rows ←
        query_db x false default_tx_opts
          (producers_entity MutationType.custom_query2 (some participant_id) meeting_id)
    producers_found rows
