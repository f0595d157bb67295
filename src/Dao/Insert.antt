-- ===== src/Dao/Insert.antt =====
-- `get_insert_string` of each struct of src/dao/mod.rs.
use doordarshan_media_server.Base.{
  String, Bool, true, false, ◌||◌, ◌&&◌, [], ◌∷◌, if◌then◌else◌, is_some, is_none, Outcome, ok, err,
  unwrap, ◌>>=◌,
}
use doordarshan_media_server.Base.Texts.{format, display, display_ℤ, ℤ}
use doordarshan_media_server.Dao.Types.{
  Dao, ContainerHeartbeat, WorkerContainer, MeetingStatus, RouterWorker, RouterMeeting,
  ParticipantMeeting, ParticipantProducerRouter, ParticipantConsumerRouter,
  ParticipantConsumerTransport, ParticipantProducerTransport, ParticipantProducers,
  ParticipantConsumers, Statement, insert_into,
}

unfoldable pub insert_container_heartbeat : ContainerHeartbeat → Outcome String Statement
insert_container_heartbeat s =
    if is_none s.host || (is_none s.tenant || is_none s.heartbeat)
    then err "Host and Tenant are mandatory fields"
    else do
      heartbeat ← unwrap s.heartbeat
      host ← unwrap s.host
      tenant ← unwrap s.tenant
      ok (
          insert_into "container_heartbeat (container_id, heartbeat, host, tenant)" (
            format (
              "('"
              ∷ s.container_id
              ∷ "',"
              ∷ display heartbeat
              ∷ ",'"
              ∷ host
              ∷ "','"
              ∷ tenant
              ∷ "')"
              ∷ [])))

unfoldable pub insert_worker_container : WorkerContainer → Outcome String Statement
insert_worker_container s = ok (
    insert_into "worker_container (container_id, worker_id)"
      (format ("('" ∷ s.container_id ∷ "','" ∷ s.worker_id ∷ "')" ∷ [])))

-- `Display` of a Boolean.
abbrev pub display_Bool : Bool → String
display_Bool true = "true"
display_Bool false = "false"

unfoldable pub insert_meeting_status : MeetingStatus → Outcome String Statement
insert_meeting_status s = if is_none s.enabled then err "Enabled is mandatory field" else do
  enabled ← unwrap s.enabled
  ok (
      insert_into "meeting_status (meeting_id, enabled)"
        (format ("('" ∷ s.meeting_id ∷ "'," ∷ display_Bool enabled ∷ ")" ∷ [])))

unfoldable pub insert_router_worker : RouterWorker → Outcome String Statement
insert_router_worker s = if is_none s.worker_id then err "Worker Id is mandatory field" else do
  worker_id ← unwrap s.worker_id
  ok (
      insert_into "router_worker (worker_id, router_id)"
        (format ("('" ∷ worker_id ∷ "','" ∷ s.router_id ∷ "')" ∷ [])))

-- The `values` clause of the three inserts of a router's meeting.
abbrev capacity_values : String → RouterMeeting → String → ℤ → String
capacity_values router_id s container_id n =
    format (
      "('"
      ∷ router_id
      ∷ "','"
      ∷ s.meeting_id
      ∷ "','"
      ∷ container_id
      ∷ "',"
      ∷ display_ℤ n
      ∷ ")"
      ∷ [])

unfoldable pub insert_router_meeting : RouterMeeting → Outcome String Statement
insert_router_meeting s =
    if is_none s.router_id
    then err "Router Id is mandatory field"
    else if is_none s.container_id
    then err "Container Id is mandatory field"
    else if (is_none s.producer_capacity && is_none s.consumer_capacity) && is_none s.capacity
    then err "Producer Capacity and Consumer Capacity or Capacity are mandatory fields"
    else do
      router_id ← unwrap s.router_id
      container_id ← unwrap s.container_id
      if is_some s.capacity
          then (do
            capacity ← unwrap s.capacity
            ok (
                insert_into "router_meeting (router_id, meeting_id, container_id, capacity)"
                  (capacity_values router_id s container_id capacity)))
          else if is_some s.producer_capacity
          then (do
            producer_capacity ← unwrap s.producer_capacity
            ok (
                insert_into
                  "router_meeting (router_id, meeting_id, container_id, producer_capacity)"
                  (capacity_values router_id s container_id producer_capacity)))
          else do
            consumer_capacity ← unwrap s.consumer_capacity
            ok (
                insert_into
                  "router_meeting (router_id, meeting_id, container_id, consumer_capacity)"
                  (capacity_values router_id s container_id consumer_capacity))

unfoldable pub insert_participant_meeting : ParticipantMeeting → Outcome String Statement
insert_participant_meeting s =
    if is_none s.participant_id || is_none s.instance_id
    then err "Participant Id & Instance Id is mandatory field"
    else do
      participant_id ← unwrap s.participant_id
      instance_id ← unwrap s.instance_id
      ok (
          insert_into "participant_meeting (meeting_id, participant_id, instance_id)" (
            format
              ("('" ∷ s.meeting_id ∷ "','" ∷ participant_id ∷ "', '" ∷ instance_id ∷ "')" ∷ [])))

unfoldable pub insert_participant_producer_router :
    ParticipantProducerRouter → Outcome String Statement
insert_participant_producer_router s =
    if is_none s.router_id then err "Producer Router Id is mandatory field" else do
      router_id ← unwrap s.router_id
      ok (
          insert_into "participant_producer_router (participant_id, router_id)"
            (format ("('" ∷ s.participant_id ∷ "','" ∷ router_id ∷ "')" ∷ [])))

unfoldable pub insert_participant_consumer_router :
    ParticipantConsumerRouter → Outcome String Statement
insert_participant_consumer_router s =
    if is_none s.router_id then err "Consumer Router Id is mandatory field" else do
      router_id ← unwrap s.router_id
      ok (
          insert_into "participant_consumer_router (participant_id, router_id)"
            (format ("('" ∷ s.participant_id ∷ "','" ∷ router_id ∷ "')" ∷ [])))

unfoldable pub insert_participant_consumer_transport :
    ParticipantConsumerTransport → Outcome String Statement
insert_participant_consumer_transport s =
    if is_none s.transport_id then err "Transport Id is mandatory field" else do
      transport_id ← unwrap s.transport_id
      ok (
          insert_into "participant_consumer_transport (participant_id, transport_id)"
            (format ("('" ∷ s.participant_id ∷ "','" ∷ transport_id ∷ "')" ∷ [])))

unfoldable pub insert_participant_producer_transport :
    ParticipantProducerTransport → Outcome String Statement
insert_participant_producer_transport s =
    if is_none s.transport_id then err "Transport Id is mandatory field" else do
      transport_id ← unwrap s.transport_id
      ok (
          insert_into "participant_producer_transport (participant_id, transport_id)"
            (format ("('" ∷ s.participant_id ∷ "','" ∷ transport_id ∷ "')" ∷ [])))

-- `transport_id` is unwrapped but not tested.
unfoldable pub insert_participant_producers : ParticipantProducers → Outcome String Statement
insert_participant_producers s =
    if is_none s.kind
      || (is_none s.producers
          || (is_none s.producer_id || (is_none s.meeting_id || is_none s.participant_id)))
    then err "Mandatory fields are missing"
    else do
      kind ← unwrap s.kind
      producers ← unwrap s.producers
      producer_id ← unwrap s.producer_id
      meeting_id ← unwrap s.meeting_id
      participant_id ← unwrap s.participant_id
      transport_id ← unwrap s.transport_id
      ok (
          insert_into
            "participant_producers (participant_id, producers, kind, producer_id, meeting_id, transport_id)"
            (format (
              "('"
              ∷ participant_id
              ∷ "',"
              ∷ display_ℤ producers
              ∷ ",'"
              ∷ kind
              ∷ "','"
              ∷ producer_id
              ∷ "','"
              ∷ meeting_id
              ∷ "','"
              ∷ transport_id
              ∷ "')"
              ∷ [])))

-- `participant_id` and `transport_id` are unwrapped but not tested.
unfoldable pub insert_participant_consumers : ParticipantConsumers → Outcome String Statement
insert_participant_consumers s =
    if is_some s.consumers
      && (is_some s.target_participant_id
          && (is_some s.kind && (is_some s.consumer_id && is_some s.meeting_id)))
    then (do
      kind ← unwrap s.kind
      consumers ← unwrap s.consumers
      target_participant_id ← unwrap s.target_participant_id
      consumer_id ← unwrap s.consumer_id
      participant_id ← unwrap s.participant_id
      meeting_id ← unwrap s.meeting_id
      transport_id ← unwrap s.transport_id
      ok (
          insert_into
            "participant_consumers (participant_id, consumers, target_participant_id, kind, consumer_id, meeting_id, transport_id)"
            (format (
              "('"
              ∷ participant_id
              ∷ "',"
              ∷ display_ℤ consumers
              ∷ ",'"
              ∷ target_participant_id
              ∷ "','"
              ∷ kind
              ∷ "','"
              ∷ consumer_id
              ∷ "','"
              ∷ meeting_id
              ∷ "','"
              ∷ transport_id
              ∷ "')"
              ∷ []))))
    else err "mandatory fields are missing"

-- `Dao::get_insert_string`, by the implementation that the trait object carries.
unfoldable pub get_insert_string : Dao → Outcome String Statement
get_insert_string (Dao.container_heartbeat e) = insert_container_heartbeat e
get_insert_string (Dao.worker_container e) = insert_worker_container e
get_insert_string (Dao.meeting_status e) = insert_meeting_status e
get_insert_string (Dao.router_worker e) = insert_router_worker e
get_insert_string (Dao.router_meeting e) = insert_router_meeting e
get_insert_string (Dao.participant_meeting e) = insert_participant_meeting e
get_insert_string (Dao.participant_producer_router e) = insert_participant_producer_router e
get_insert_string (Dao.participant_consumer_router e) = insert_participant_consumer_router e
get_insert_string (Dao.participant_consumer_transport e) = insert_participant_consumer_transport e
get_insert_string (Dao.participant_producer_transport e) = insert_participant_producer_transport e
get_insert_string (Dao.participant_producers e) = insert_participant_producers e
get_insert_string (Dao.participant_consumers e) = insert_participant_consumers e
