-- ===== src/Sfu/Leaving.antt =====
-- Leaving and ending a meeting, src/mediasoupv1/mod.rs.
pub mod Cleared
pub mod Leave
pub mod End
pub mod Kept
use doordarshan_media_server.Base.{
  String, Bool, true, false, Option, none, some, inl, inr, List, [], ◌∷◌, if◌then◌else◌, eqb, ok,
  panic, ℕ, zero, suc, ◌⊎◌,
}
use doordarshan_media_server.Base.Lists.{given}
use doordarshan_media_server.Base.Dict.{lookup, remove_all}
use doordarshan_media_server.Base.Action.{◌>>=◌, ◌>>◌, pure, fail, modify}
use doordarshan_media_server.Dao.{Dao, MutationType}
use doordarshan_media_server.Db.{DbError}
use doordarshan_media_server.Db.Driver.{default_tx_opts}
use doordarshan_media_server.Sfu.Platform.{Platform, null}
use doordarshan_media_server.Sfu.Recording.{Gstreamer}
use doordarshan_media_server.Sfu.Server.{Handler, mutate_db, delete_db}
use doordarshan_media_server.Sfu.Queries.{
  get_participant_consumers_for_instance_in_meeting,
  get_participant_producers_for_instance_in_meeting, get_consumers_for_producer_ids,
  get_all_producers_for_meeting, get_all_consumers_for_meeting,
}
use doordarshan_media_server.Sfu.Closing.{
  close_producers_if_any, close_consumers_if_any, close_all_consumers_in_memory,
}

-- `LeaveMeetingResponse` of src/service/payload.rs
pub record LeaveMeetingResponse : Type 0 where
  pub response : String
  pub send_signal : Bool

module _ (x : Platform) where
  -- Sends an event on the user channel; a failure to send is only logged. That the bounded channel
  -- may block is not modelled.
  unfoldable pub push_user_session_event : String → String → String → String → Handler x (Unit {0})
  push_user_session_event participant_id meeting_id event_type instance_id s =
      let (event_id, w) = x.new_uuid s.world in
      (
        ok tt,
        record s {
          events =
              record {
                event_id = event_id;
                user_id = participant_id;
                event_type = event_type;
                event_time = x.now s.world;
                instance_id = instance_id;
                meeting_id = meeting_id;
              }
              ∷ s.events;
          world = w;
        },
      )

  abbrev pub left_response : LeaveMeetingResponse
  left_response = record { response = "Participant left the meeting"; send_signal = true }

  -- `leave_meeting` once the producers are closed: the consumers of them are, and the event is sent.
  unfoldable pub finish_leaving :
      String → String → String → List String → Handler x LeaveMeetingResponse
  finish_leaving participant_id meeting_id instance_id old_producer_ids_list = do
    close_consumer_ids_list ← get_consumers_for_producer_ids x old_producer_ids_list meeting_id
    close_consumers_if_any x close_consumer_ids_list meeting_id
    push_user_session_event participant_id meeting_id "LEAVE" instance_id
    pure left_response

  -- What `leave_meeting` does in memory once the participant is deleted from the database.
  unfoldable pub leave_in_memory :
      String → String → String → List String → Handler x LeaveMeetingResponse
  leave_in_memory participant_id meeting_id instance_id transport_ids = do
    modify (λ s. record s { transport_map = remove_all transport_ids s.transport_map })
    old_consumers ←
        get_participant_consumers_for_instance_in_meeting x participant_id meeting_id instance_id
    close_all_consumers_in_memory x old_consumers meeting_id
    old_producer_ids_list ←
        get_participant_producers_for_instance_in_meeting x participant_id meeting_id instance_id
    close_producers_if_any x (participant_id ∷ []) old_producer_ids_list meeting_id true
    finish_leaving participant_id meeting_id instance_id old_producer_ids_list

  -- The participant of a meeting as an entity to delete.
  abbrev pub leaving : String → String → String → Dao
  leaving participant_id meeting_id instance_id = Dao.participant_meeting (record {
    mutation_type = MutationType.delete;
    meeting_id = meeting_id;
    participant_id = some participant_id;
    instance_id = some instance_id;
  })

  -- `leave_meeting` from the answer of the database.
  unfoldable pub leave_deleted :
      String → String → String → List String → ℕ ⊎ DbError → Handler x LeaveMeetingResponse
  leave_deleted participant_id meeting_id instance_id transport_ids (inr e) =
      fail "Failure in leaving the meeting"
  leave_deleted participant_id meeting_id instance_id transport_ids (inl zero) =
      pure (record { response = "Participant not found in the meeting"; send_signal = false })
  leave_deleted participant_id meeting_id instance_id transport_ids (inl (suc rows)) =
      leave_in_memory participant_id meeting_id instance_id transport_ids

  unfoldable pub leave_meeting :
      String → String → String → Option String → Option String → Handler x LeaveMeetingResponse
  leave_meeting participant_id meeting_id instance_id producer_transport_id consumer_transport_id =
      do
        deleted ←
            delete_db x true default_tx_opts (leaving participant_id meeting_id instance_id ∷ [])
        leave_deleted participant_id meeting_id instance_id
            (given producer_transport_id (given consumer_transport_id [])) deleted

  -- The pipeline of a recording is set to Null, on another thread; a failure is only logged.
  unfoldable pub set_null : Option x.Pipeline → Handler x (Unit {0})
  set_null none s = (panic, s)
  set_null (some p) s = (ok tt, record s { world = (x.set_pipeline_state p null s.world).1 })

  unfoldable pub stop_found : Option (Option (Gstreamer x)) → Handler x (Unit {0})
  unfolding set_null
  stop_found none s = (ok tt, s)
  stop_found (some none) s = (panic, s)
  stop_found (some (some g)) s = set_null g.pipeline s

  -- The recording of an ended meeting is set to Null. It is taken out of a copy of the map, so the
  -- map itself keeps it.
  unfoldable pub stop_pipeline : String → Handler x (Unit {0})
  unfolding stop_found
  stop_pipeline meeting_id s = stop_found (lookup meeting_id s.pipeline_map) s

  -- `end_meeting` once the producers are closed.
  unfoldable pub finish_ending : String → Handler x String
  finish_ending meeting_id = do stop_pipeline meeting_id; pure "Success ended the meeting"

  -- What `end_meeting` does in memory once the meeting is deleted from the database.
  unfoldable pub end_in_memory : String → List String → List String → List String → Handler x String
  end_in_memory meeting_id router_ids transport_ids participant_ids = do
    modify (λ s. record s { routers_map = remove_all router_ids s.routers_map })
    modify (λ s. record s { transport_map = remove_all transport_ids s.transport_map })
    old_consumers ← get_all_consumers_for_meeting x meeting_id
    close_all_consumers_in_memory x old_consumers meeting_id
    old_producer_ids_list ← get_all_producers_for_meeting x meeting_id
    close_producers_if_any x participant_ids old_producer_ids_list meeting_id false
    finish_ending meeting_id

  -- The status of a meeting as an entity to delete.
  abbrev pub ending : String → Dao
  ending meeting_id =
      Dao.meeting_status
        (record { mutation_type = MutationType.delete; meeting_id = meeting_id; enabled = none })

  -- `end_meeting` from the answer of the database.
  unfoldable pub end_deleted :
      String
      → List String
      → List String
      → List String
      → (String × Bool) ⊎ DbError
      → Handler x String
  end_deleted meeting_id router_ids transport_ids participant_ids (inr e) =
      fail "Failure in ending the meeting"
  end_deleted meeting_id router_ids transport_ids participant_ids (inl _) =
      end_in_memory meeting_id router_ids transport_ids participant_ids

  unfoldable pub end_meeting : String → List String → List String → List String → Handler x String
  end_meeting meeting_id router_ids transport_ids participant_ids = do
    deleted ← mutate_db x true default_tx_opts (ending meeting_id ∷ [])
    end_deleted meeting_id router_ids transport_ids participant_ids deleted
