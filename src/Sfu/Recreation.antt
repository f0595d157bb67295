-- ===== src/Sfu/Recreation.antt =====
-- Recreating the transports of a participant that has come to another instance, src/mediasoupv1/mod.rs.
pub mod Moved
use doordarshan_media_server.Base.{
  String, Bool, true, Option, none, some, List, [], ◌∷◌, if◌then◌else◌,
}
use doordarshan_media_server.Base.Texts.{format}
use doordarshan_media_server.Base.Dict.{lookup, insert}
use doordarshan_media_server.Base.Action.{◌>>=◌, ◌>>◌, pure, modify, map_err}
use doordarshan_media_server.Sfu.Platform.{Platform}
use doordarshan_media_server.Sfu.Server.{Server, Handler}
use doordarshan_media_server.Sfu.Queries.{
  get_participant_consumers_excluding_instance, get_participant_producers_excluding_instance,
  get_consumers_for_producer_ids,
}
use doordarshan_media_server.Sfu.Closing.{
  ProducerDetail, close_all_consumers_in_memory, close_producers_if_any, close_consumers_if_any,
}
use doordarshan_media_server.Sfu.Transports.{
  TransportOptions, create_producer_transport, create_consumer_transport,
}
use doordarshan_media_server.Sfu.Joining.{
  remove_and_add_participant_to_meeting, get_producers_of_meeting_excluding_participant,
}

-- Without the colon of the failure that it stands before.
abbrev pub recreation_failure : String → String
recreation_failure e = format ("Failed to create producer transport " ∷ e ∷ [])

module _ (x : Platform) where
  pub record RecreateProducerTransportResponse : Type 0 where
    pub transport_options : TransportOptions x
    pub closed_producer_details : List ProducerDetail

  pub record CreateTransportResponse : Type 0 where
    pub transport_options : TransportOptions x
    pub producer_details : List ProducerDetail

  -- The start of both handlers: what the participant has on other instances is closed.
  unfoldable pub close_old : String → String → String → Handler x (List ProducerDetail)
  close_old participant_id meeting_id instance_id = do
    old_consumers ←
        get_participant_consumers_excluding_instance x participant_id meeting_id instance_id
    close_all_consumers_in_memory x old_consumers meeting_id
    old_producer_ids_list ←
        get_participant_producers_excluding_instance x participant_id meeting_id instance_id
    close_consumer_ids_list ← get_consumers_for_producer_ids x old_producer_ids_list meeting_id
    closed_producer_details ←
        close_producers_if_any x (participant_id ∷ []) old_producer_ids_list meeting_id true
    close_consumers_if_any x close_consumer_ids_list meeting_id
    pure closed_producer_details

  unfoldable pub recreate_producer_transport :
      String
      → String
      → Option String
      → Option String
      → String
      → String
      → Handler x RecreateProducerTransportResponse
  recreate_producer_transport participant_id meeting_id old_producer_transport_id
        old_consumer_transport_id router_id instance_id =
      do
        closed_producer_details ← close_old participant_id meeting_id instance_id
        transport_options ← map_err recreation_failure (
            create_producer_transport x router_id participant_id meeting_id
              old_producer_transport_id old_consumer_transport_id)
        pure (record {
          transport_options = transport_options;
          closed_producer_details = closed_producer_details;
        })

  unfoldable pub recreate_consumer_transport :
      String
      → String
      → String
      → String
      → Option String
      → Option String
      → Handler x (TransportOptions x)
  recreate_consumer_transport participant_id router_id meeting_id instance_id
        old_producer_transport_id old_consumer_transport_id =
      do
        close_old participant_id meeting_id instance_id
        map_err (λ e. format ("Failed to create consumer transport " ∷ e ∷ []))
            (create_consumer_transport x router_id participant_id meeting_id
              old_producer_transport_id old_consumer_transport_id)

  -- The mutex of a participant is made on first use. That it is held until the handler returns is
  -- not modelled.
  unfoldable pub ensure_lock : String → Server x → Server x
  ensure_lock participant_id s = record s {
    lock_map = elim (lookup participant_id s.lock_map) [
      | none ↦ insert participant_id tt s.lock_map
      | some _ ↦ s.lock_map
    ];
  }

  abbrev join_failure : String → String
  join_failure e = format ("Failed to add participant to meeting " ∷ e ∷ [])

  -- The old transports are given up only if the participant was not in the meeting already.
  abbrev if_new : Bool → Option String → Option String
  if_new new_user old_transport_id = if new_user then old_transport_id else none

  unfoldable pub recreate_producer_transport_helper :
      String
      → String
      → String
      → String
      → Option String
      → Option String
      → Handler x RecreateProducerTransportResponse
  recreate_producer_transport_helper participant_id meeting_id instance_id router_id
        old_producer_transport_id old_consumer_transport_id =
      do
        modify (ensure_lock participant_id)
        added ← map_err join_failure (
            remove_and_add_participant_to_meeting x participant_id meeting_id instance_id
              (some router_id) none)
        recreate_producer_transport participant_id meeting_id
            (if_new added.1 old_producer_transport_id) (if_new added.1 old_consumer_transport_id)
            router_id instance_id

  unfoldable pub recreate_consumer_transport_helper :
      String
      → String
      → String
      → String
      → Option String
      → Option String
      → Handler x CreateTransportResponse
  recreate_consumer_transport_helper participant_id meeting_id instance_id router_id
        old_producer_transport_id old_consumer_transport_id =
      do
        modify (ensure_lock participant_id)
        added ← map_err join_failure (
            remove_and_add_participant_to_meeting x participant_id meeting_id instance_id none
              (some router_id))
        transport_options ←
            map_err (λ e. format ("Failed to recreate consumer transport " ∷ e ∷ []))
              (recreate_consumer_transport participant_id router_id meeting_id instance_id
                (if_new added.1 old_producer_transport_id)
                (if_new added.1 old_consumer_transport_id))
        producer_details ←
            map_err (λ e. format ("Failed to get producers of meeting " ∷ e ∷ []))
              (get_producers_of_meeting_excluding_participant x meeting_id participant_id)
        pure (record { transport_options = transport_options; producer_details = producer_details })
