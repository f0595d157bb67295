-- ===== src/Dao/Quoting/Inserts.antt =====
-- The quotes in the inserts of src/dao/mod.rs.
use doordarshan_media_server.Base.{◌≡◌, refl, Bool, true, false, [], ◌∷◌, arith, is_some, is_none}
use doordarshan_media_server.Base.Texts.{quotes, quotes-display, quotes-display_ℤ, display_ℤ}
use doordarshan_media_server.Dao.Types.{
  Dao, ContainerHeartbeat, MeetingStatus, ParticipantConsumerRouter, ParticipantConsumerTransport,
  ParticipantConsumers, ParticipantMeeting, ParticipantProducerRouter, ParticipantProducerTransport,
  ParticipantProducers, RouterMeeting, RouterWorker, WorkerContainer,
}
use doordarshan_media_server.Dao.Insert.{
  insert_container_heartbeat, insert_meeting_status, insert_participant_consumer_router,
  insert_participant_consumer_transport, insert_participant_consumers, insert_participant_meeting,
  insert_participant_producer_router, insert_participant_producer_transport,
  insert_participant_producers, insert_router_meeting, insert_router_worker,
  insert_worker_container, display_Bool,
}
use doordarshan_media_server.Dao.Quoting.Rules.{
  IsPaired, HasPlainValues, IsPaired-if, IsPaired-unwrap, IsPaired-unwrap_plain, IsPaired-values,
  refused,
}

pub insert_container_heartbeat-IsPaired :
    (s : ContainerHeartbeat)
    → HasPlainValues (Dao.container_heartbeat s)
    → IsPaired (insert_container_heartbeat s)
unfolding insert_container_heartbeat quotes
insert_container_heartbeat-IsPaired s h = IsPaired-if _ (refused _) (
    IsPaired-unwrap _ _ (λ heartbeat. IsPaired-unwrap_plain _ _ h.1 (λ host host_plain.
      IsPaired-unwrap_plain _ _ h.2
        (λ tenant tenant_plain. IsPaired-values _ _ (omega (arith, quotes-display heartbeat))))))

pub insert_worker_container-IsPaired :
    (s : WorkerContainer)
    → HasPlainValues (Dao.worker_container s)
    → IsPaired (insert_worker_container s)
unfolding insert_worker_container quotes
insert_worker_container-IsPaired s h = IsPaired-values _ _ (omega (arith))

quotes-display_Bool : (b : Bool) → quotes (display_Bool b) ≡ 0
unfolding quotes
quotes-display_Bool true = refl
quotes-display_Bool false = refl

pub insert_meeting_status-IsPaired :
    (s : MeetingStatus) → HasPlainValues (Dao.meeting_status s) → IsPaired (insert_meeting_status s)
unfolding insert_meeting_status quotes
insert_meeting_status-IsPaired s h = IsPaired-if _ (refused _) (
    IsPaired-unwrap _ _
      (λ enabled. IsPaired-values _ _ (omega (arith, quotes-display_Bool enabled))))

pub insert_router_worker-IsPaired :
    (s : RouterWorker) → HasPlainValues (Dao.router_worker s) → IsPaired (insert_router_worker s)
unfolding insert_router_worker quotes
insert_router_worker-IsPaired s h = IsPaired-if _ (refused _) (
    IsPaired-unwrap_plain _ _ h.1
      (λ worker_id worker_id_plain. IsPaired-values _ _ (omega (arith))))

pub insert_router_meeting-IsPaired :
    (s : RouterMeeting) → HasPlainValues (Dao.router_meeting s) → IsPaired (insert_router_meeting s)
unfolding insert_router_meeting quotes
insert_router_meeting-IsPaired s h = IsPaired-if (is_none s.router_id) (refused _) (
    IsPaired-if (is_none s.container_id) (refused _) (
      IsPaired-if _ (refused _) (
        IsPaired-unwrap_plain _ _ h.1 (λ router_id router_id_plain.
          IsPaired-unwrap_plain _ _ h.2 (λ container_id container_id_plain.
            IsPaired-if (is_some s.capacity)
              (IsPaired-unwrap _ _ (λ n.
                IsPaired-values _
                  ("('"
                    ∷ router_id
                    ∷ "','"
                    ∷ s.meeting_id
                    ∷ "','"
                    ∷ container_id
                    ∷ "',"
                    ∷ display_ℤ n
                    ∷ ")"
                    ∷ [])
                  (omega (arith, quotes-display_ℤ n))))
              (IsPaired-if (is_some s.producer_capacity)
                (IsPaired-unwrap _ _ (λ n.
                  IsPaired-values _
                    ("('"
                      ∷ router_id
                      ∷ "','"
                      ∷ s.meeting_id
                      ∷ "','"
                      ∷ container_id
                      ∷ "',"
                      ∷ display_ℤ n
                      ∷ ")"
                      ∷ [])
                    (omega (arith, quotes-display_ℤ n))))
                (IsPaired-unwrap _ _ (λ n.
                  IsPaired-values _
                    ("('"
                      ∷ router_id
                      ∷ "','"
                      ∷ s.meeting_id
                      ∷ "','"
                      ∷ container_id
                      ∷ "',"
                      ∷ display_ℤ n
                      ∷ ")"
                      ∷ [])
                    (omega (arith, quotes-display_ℤ n))))))))))

pub insert_participant_meeting-IsPaired :
    (s : ParticipantMeeting)
    → HasPlainValues (Dao.participant_meeting s)
    → IsPaired (insert_participant_meeting s)
unfolding insert_participant_meeting quotes
insert_participant_meeting-IsPaired s h = IsPaired-if _ (refused _) (
    IsPaired-unwrap_plain _ _ h.1 (λ participant_id participant_id_plain.
      IsPaired-unwrap_plain _ _ h.2
        (λ instance_id instance_id_plain. IsPaired-values _ _ (omega (arith)))))

pub insert_participant_producer_router-IsPaired :
    (s : ParticipantProducerRouter)
    → HasPlainValues (Dao.participant_producer_router s)
    → IsPaired (insert_participant_producer_router s)
unfolding insert_participant_producer_router quotes
insert_participant_producer_router-IsPaired s h = IsPaired-if _ (refused _) (
    IsPaired-unwrap_plain _ _ h.1
      (λ router_id router_id_plain. IsPaired-values _ _ (omega (arith))))

pub insert_participant_consumer_router-IsPaired :
    (s : ParticipantConsumerRouter)
    → HasPlainValues (Dao.participant_consumer_router s)
    → IsPaired (insert_participant_consumer_router s)
unfolding insert_participant_consumer_router quotes
insert_participant_consumer_router-IsPaired s h = IsPaired-if _ (refused _) (
    IsPaired-unwrap_plain _ _ h.1
      (λ router_id router_id_plain. IsPaired-values _ _ (omega (arith))))

pub insert_participant_consumer_transport-IsPaired :
    (s : ParticipantConsumerTransport)
    → HasPlainValues (Dao.participant_consumer_transport s)
    → IsPaired (insert_participant_consumer_transport s)
unfolding insert_participant_consumer_transport quotes
insert_participant_consumer_transport-IsPaired s h = IsPaired-if _ (refused _) (
    IsPaired-unwrap_plain _ _ h.1
      (λ transport_id transport_id_plain. IsPaired-values _ _ (omega (arith))))

pub insert_participant_producer_transport-IsPaired :
    (s : ParticipantProducerTransport)
    → HasPlainValues (Dao.participant_producer_transport s)
    → IsPaired (insert_participant_producer_transport s)
unfolding insert_participant_producer_transport quotes
insert_participant_producer_transport-IsPaired s h = IsPaired-if _ (refused _) (
    IsPaired-unwrap_plain _ _ h.1
      (λ transport_id transport_id_plain. IsPaired-values _ _ (omega (arith))))

pub insert_participant_producers-IsPaired :
    (s : ParticipantProducers)
    → HasPlainValues (Dao.participant_producers s)
    → IsPaired (insert_participant_producers s)
unfolding insert_participant_producers quotes
insert_participant_producers-IsPaired s h = IsPaired-if _ (refused _) (
    IsPaired-unwrap_plain _ _ h.1 (λ kind kind_plain. IsPaired-unwrap _ _ (λ producers.
      IsPaired-unwrap_plain _ _ h.2 (λ producer_id producer_id_plain.
        IsPaired-unwrap_plain _ _ h.3 (λ meeting_id meeting_id_plain.
          IsPaired-unwrap_plain _ _ h.0 (λ participant_id participant_id_plain.
            IsPaired-unwrap_plain _ _ h.4 (λ transport_id transport_id_plain.
              IsPaired-values _ _ (omega (arith, quotes-display_ℤ producers)))))))))

pub insert_participant_consumers-IsPaired :
    (s : ParticipantConsumers)
    → HasPlainValues (Dao.participant_consumers s)
    → IsPaired (insert_participant_consumers s)
unfolding insert_participant_consumers quotes
insert_participant_consumers-IsPaired s h =
    IsPaired-if _
      (IsPaired-unwrap_plain _ _ h.2 (λ kind kind_plain. IsPaired-unwrap _ _ (λ consumers.
        IsPaired-unwrap_plain _ _ h.1 (λ target_participant_id target_participant_id_plain.
          IsPaired-unwrap_plain _ _ h.3 (λ consumer_id consumer_id_plain.
            IsPaired-unwrap_plain _ _ h.0 (λ participant_id participant_id_plain.
              IsPaired-unwrap_plain _ _ h.4 (λ meeting_id meeting_id_plain.
                IsPaired-unwrap_plain _ _ h.5 (λ transport_id transport_id_plain.
                  IsPaired-values _ _ (omega (arith, quotes-display_ℤ consumers))))))))))
      (refused _)
