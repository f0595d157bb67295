-- ===== src/Dao/Types.antt =====
-- The structs of src/dao/mod.rs, one record each, and the trait objects `Box<dyn Dao>` as one type.
use doordarshan_media_server.Base.{ℕ, String, Bool, Option}
use doordarshan_media_server.Base.Texts.{ℤ}

pub data MutationType : Type 0 where
  insert update delete query custom_query1 custom_query2 : MutationType

pub record ContainerHeartbeat : Type 0 where
  pub mutation_type : MutationType
  pub container_id : String
  pub heartbeat : Option ℕ
  pub host : Option String
  pub tenant : Option String

pub record WorkerContainer : Type 0 where
  pub mutation_type : MutationType
  pub container_id : String
  pub worker_id : String

pub record MeetingStatus : Type 0 where
  pub mutation_type : MutationType
  pub meeting_id : String
  pub enabled : Option Bool

pub record RouterWorker : Type 0 where
  pub mutation_type : MutationType
  pub worker_id : Option String
  pub router_id : String

pub record RouterMeeting : Type 0 where
  pub mutation_type : MutationType
  pub router_id : Option String
  pub meeting_id : String
  pub producer_capacity : Option ℤ
  pub consumer_capacity : Option ℤ
  pub capacity : Option ℤ
  pub container_id : Option String

pub record ParticipantMeeting : Type 0 where
  pub mutation_type : MutationType
  pub meeting_id : String
  pub participant_id : Option String
  pub instance_id : Option String

pub record ParticipantProducerRouter : Type 0 where
  pub mutation_type : MutationType
  pub participant_id : String
  pub router_id : Option String

pub record ParticipantConsumerRouter : Type 0 where
  pub mutation_type : MutationType
  pub participant_id : String
  pub router_id : Option String

pub record ParticipantConsumerTransport : Type 0 where
  pub mutation_type : MutationType
  pub participant_id : String
  pub transport_id : Option String

pub record ParticipantProducerTransport : Type 0 where
  pub mutation_type : MutationType
  pub participant_id : String
  pub transport_id : Option String

pub record ParticipantProducers : Type 0 where
  pub mutation_type : MutationType
  pub participant_id : Option String
  pub producers : Option ℤ
  pub kind : Option String
  pub producer_id : Option String
  pub meeting_id : Option String
  pub transport_id : Option String

pub record ParticipantConsumers : Type 0 where
  pub mutation_type : MutationType
  pub participant_id : Option String
  pub consumers : Option ℤ
  pub target_participant_id : Option String
  pub kind : Option String
  pub consumer_id : Option String
  pub meeting_id : Option String
  pub transport_id : Option String

-- `Box<dyn Dao>`: one constructor for each implementation of the trait.
pub data Dao : Type 0 where
  container_heartbeat : ContainerHeartbeat → Dao
  worker_container : WorkerContainer → Dao
  meeting_status : MeetingStatus → Dao
  router_worker : RouterWorker → Dao
  router_meeting : RouterMeeting → Dao
  participant_meeting : ParticipantMeeting → Dao
  participant_producer_router : ParticipantProducerRouter → Dao
  participant_consumer_router : ParticipantConsumerRouter → Dao
  participant_consumer_transport : ParticipantConsumerTransport → Dao
  participant_producer_transport : ParticipantProducerTransport → Dao
  participant_producers : ParticipantProducers → Dao
  participant_consumers : ParticipantConsumers → Dao

-- What a chain of the `sql_query_builder` crate was given, before `as_string` joins its clauses.
pub data Statement : Type 0 where
  insert_into : String → String → Statement
  update_set_where : String → String → String → Statement
  delete_from_where : String → String → Statement
  select_from_where : String → String → String → Statement

unfoldable pub get_mutation_type : Dao → MutationType
get_mutation_type (Dao.container_heartbeat e) = e.mutation_type
get_mutation_type (Dao.worker_container e) = e.mutation_type
get_mutation_type (Dao.meeting_status e) = e.mutation_type
get_mutation_type (Dao.router_worker e) = e.mutation_type
get_mutation_type (Dao.router_meeting e) = e.mutation_type
get_mutation_type (Dao.participant_meeting e) = e.mutation_type
get_mutation_type (Dao.participant_producer_router e) = e.mutation_type
get_mutation_type (Dao.participant_consumer_router e) = e.mutation_type
get_mutation_type (Dao.participant_consumer_transport e) = e.mutation_type
get_mutation_type (Dao.participant_producer_transport e) = e.mutation_type
get_mutation_type (Dao.participant_producers e) = e.mutation_type
get_mutation_type (Dao.participant_consumers e) = e.mutation_type
