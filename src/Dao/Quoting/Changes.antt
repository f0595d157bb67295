-- ===== src/Dao/Quoting/Changes.antt =====
-- The quotes in the updates and deletes of src/dao/mod.rs.
use doordarshan_media_server.Base.{[], ◌∷◌, arith, is_some, is_none, ◌&&◌}
use doordarshan_media_server.Base.Texts.{quotes, quotes-display, quotes-display_ℤ, display_ℤ}
use doordarshan_media_server.Dao.Types.{
  Dao, ContainerHeartbeat, MeetingStatus, ParticipantConsumerTransport, ParticipantConsumers,
  ParticipantMeeting, ParticipantProducerTransport, ParticipantProducers, RouterMeeting,
  RouterWorker,
}
use doordarshan_media_server.Dao.Change.{
  delete_meeting_status, delete_participant_consumer_transport, delete_participant_consumers,
  delete_participant_meeting, delete_participant_producer_transport, delete_participant_producers,
  delete_router_meeting, delete_router_worker, update_container_heartbeat,
  update_participant_meeting, update_router_meeting,
}
use doordarshan_media_server.Dao.Quoting.Rules.{
  IsPaired, HasPlainValues, IsPaired-if, IsPaired-unwrap, IsPaired-unwrap_plain, IsPaired-set,
  IsPaired-delete, refused,
}

pub update_container_heartbeat-IsPaired :
    (s : ContainerHeartbeat)
    → HasPlainValues (Dao.container_heartbeat s)
    → IsPaired (update_container_heartbeat s)
unfolding update_container_heartbeat quotes
update_container_heartbeat-IsPaired s h =
    IsPaired-if _
      (IsPaired-unwrap _ _
        (λ heartbeat. IsPaired-set _ _ _ (omega (arith, quotes-display heartbeat))))
      (refused _)

pub update_router_meeting-IsPaired :
    (s : RouterMeeting) → HasPlainValues (Dao.router_meeting s) → IsPaired (update_router_meeting s)
unfolding update_router_meeting quotes
update_router_meeting-IsPaired s h = IsPaired-if (is_none s.router_id) (refused _) (
    IsPaired-unwrap_plain _ _ h.1 (λ router_id router_id_plain.
      IsPaired-if (is_some s.capacity)
        (IsPaired-unwrap _ _ (λ n.
          IsPaired-set "router_meeting"
            ("router_id = '"
              ∷ router_id
              ∷ "', meeting_id = '"
              ∷ s.meeting_id
              ∷ "', capacity ='"
              ∷ display_ℤ n
              ∷ "'"
              ∷ [])
            ("meeting_id = '" ∷ s.meeting_id ∷ "'" ∷ []) (omega (arith, quotes-display_ℤ n))))
        (IsPaired-if (is_some s.producer_capacity && is_some s.consumer_capacity)
          (IsPaired-unwrap s.producer_capacity _ (λ m. IsPaired-unwrap s.consumer_capacity _ (λ n.
            IsPaired-set "router_meeting"
              ("router_id = '"
                ∷ router_id
                ∷ "', meeting_id = '"
                ∷ s.meeting_id
                ∷ "', producer_capacity = '"
                ∷ display_ℤ m
                ∷ "', consumer_capacity = '"
                ∷ display_ℤ n
                ∷ "'"
                ∷ [])
              ("meeting_id = '" ∷ s.meeting_id ∷ "'" ∷ [])
              (omega (arith, quotes-display_ℤ m, quotes-display_ℤ n)))))
          (refused "Mandatory fields are missing"))))

pub update_participant_meeting-IsPaired :
    (s : ParticipantMeeting)
    → HasPlainValues (Dao.participant_meeting s)
    → IsPaired (update_participant_meeting s)
unfolding update_participant_meeting quotes
update_participant_meeting-IsPaired s h = IsPaired-if _ (refused _) (
    IsPaired-unwrap_plain _ _ h.1 (λ participant_id participant_id_plain.
      IsPaired-unwrap_plain _ _ h.2
        (λ instance_id instance_id_plain. IsPaired-set _ _ _ (omega (arith)))))

pub delete_meeting_status-IsPaired :
    (s : MeetingStatus) → HasPlainValues (Dao.meeting_status s) → IsPaired (delete_meeting_status s)
unfolding delete_meeting_status quotes
delete_meeting_status-IsPaired s h = IsPaired-delete _ _ (omega (arith))

pub delete_router_worker-IsPaired :
    (s : RouterWorker) → HasPlainValues (Dao.router_worker s) → IsPaired (delete_router_worker s)
unfolding delete_router_worker quotes
delete_router_worker-IsPaired s h = IsPaired-delete _ _ (omega (arith))

pub delete_router_meeting-IsPaired :
    (s : RouterMeeting) → HasPlainValues (Dao.router_meeting s) → IsPaired (delete_router_meeting s)
unfolding delete_router_meeting quotes
delete_router_meeting-IsPaired s h =
    IsPaired-if (is_none s.router_id && is_none s.container_id)
      (IsPaired-delete _ _ (omega (arith)))
      (IsPaired-if (is_none s.container_id)
        (IsPaired-unwrap_plain _ _ h.1
          (λ router_id router_id_plain. IsPaired-delete _ _ (omega (arith))))
        (IsPaired-unwrap_plain _ _ h.2
          (λ container_id container_id_plain. IsPaired-delete _ _ (omega (arith)))))

pub delete_participant_meeting-IsPaired :
    (s : ParticipantMeeting)
    → HasPlainValues (Dao.participant_meeting s)
    → IsPaired (delete_participant_meeting s)
unfolding delete_participant_meeting quotes
delete_participant_meeting-IsPaired s h = IsPaired-if (is_none s.participant_id) (refused _) (
    IsPaired-unwrap_plain _ _ h.1 (λ participant_id participant_id_plain.
      IsPaired-if (is_some s.instance_id)
        (IsPaired-unwrap_plain _ _ h.2
          (λ instance_id instance_id_plain. IsPaired-delete _ _ (omega (arith))))
        (IsPaired-delete _ _ (omega (arith)))))

pub delete_participant_consumer_transport-IsPaired :
    (s : ParticipantConsumerTransport)
    → HasPlainValues (Dao.participant_consumer_transport s)
    → IsPaired (delete_participant_consumer_transport s)
unfolding delete_participant_consumer_transport quotes
delete_participant_consumer_transport-IsPaired s h = IsPaired-delete _ _ (omega (arith))

pub delete_participant_producer_transport-IsPaired :
    (s : ParticipantProducerTransport)
    → HasPlainValues (Dao.participant_producer_transport s)
    → IsPaired (delete_participant_producer_transport s)
unfolding delete_participant_producer_transport quotes
delete_participant_producer_transport-IsPaired s h = IsPaired-delete _ _ (omega (arith))

pub delete_participant_producers-IsPaired :
    (s : ParticipantProducers)
    → HasPlainValues (Dao.participant_producers s)
    → IsPaired (delete_participant_producers s)
unfolding delete_participant_producers quotes
delete_participant_producers-IsPaired s h =
    IsPaired-if (is_some s.producer_id)
      (IsPaired-unwrap_plain _ _ h.2 (λ producer_id producer_id_plain.
        IsPaired-unwrap_plain _ _ h.0
          (λ participant_id participant_id_plain. IsPaired-delete _ _ (omega (arith)))))
      (IsPaired-if (is_some s.kind)
        (IsPaired-unwrap_plain _ _ h.1 (λ kind kind_plain.
          IsPaired-unwrap_plain _ _ h.0
            (λ participant_id participant_id_plain. IsPaired-delete _ _ (omega (arith)))))
        (IsPaired-if (is_some s.producer_id)
          (IsPaired-unwrap_plain _ _ h.2
            (λ producer_id producer_id_plain. IsPaired-delete _ _ (omega (arith))))
          (IsPaired-unwrap_plain _ _ h.0
            (λ participant_id participant_id_plain. IsPaired-delete _ _ (omega (arith))))))

pub delete_participant_consumers-IsPaired :
    (s : ParticipantConsumers)
    → HasPlainValues (Dao.participant_consumers s)
    → IsPaired (delete_participant_consumers s)
unfolding delete_participant_consumers quotes
delete_participant_consumers-IsPaired s h =
    IsPaired-if (is_some s.kind && (is_some s.target_participant_id && is_some s.participant_id))
      (IsPaired-unwrap_plain _ _ h.2 (λ kind kind_plain.
        IsPaired-unwrap_plain _ _ h.1 (λ target_participant_id target_participant_id_plain.
          IsPaired-unwrap_plain _ _ h.0
            (λ participant_id participant_id_plain. IsPaired-delete _ _ (omega (arith))))))
      (IsPaired-if (is_some s.target_participant_id && is_some s.participant_id)
        (IsPaired-unwrap_plain _ _ h.1 (λ target_participant_id target_participant_id_plain.
          IsPaired-unwrap_plain _ _ h.0
            (λ participant_id participant_id_plain. IsPaired-delete _ _ (omega (arith)))))
        (IsPaired-if (is_some s.target_participant_id && is_none s.participant_id)
          (IsPaired-unwrap_plain _ _ h.1 (λ target_participant_id target_participant_id_plain.
            IsPaired-delete _ _ (omega (arith))))
          (IsPaired-if (is_some s.consumer_id)
            (IsPaired-unwrap_plain _ _ h.3
              (λ consumer_id consumer_id_plain. IsPaired-delete _ _ (omega (arith))))
            (IsPaired-unwrap_plain _ _ h.0
              (λ participant_id participant_id_plain. IsPaired-delete _ _ (omega (arith)))))))
