-- ===== src/Dao/Quoting.antt =====
-- The quotes of every statement that src/dao/mod.rs builds.
mod Rules
mod Inserts
mod Changes
mod Reads
mod Tests
pub use Rules.{quotes_in, IsPaired, IsPlain, HasPlainValues}
use mathlib.Core.Path.{subst}
use doordarshan_media_server.Base.{
  ◌≡◌, ◌+◌, ◌%◌, refl, String, Option, some, List, [], ◌∷◌, arith, Outcome, ok,
}
use doordarshan_media_server.Base.Texts.{format, quotes, quotes_of, quotes-format}
use doordarshan_media_server.Dao.Types.{Dao, ParticipantProducers, Statement, select_from_where}
use doordarshan_media_server.Dao.Insert.{get_insert_string}
use doordarshan_media_server.Dao.Change.{get_update_string, get_delete_string}
use doordarshan_media_server.Dao.Read.{
  get_query_string, get_custom_query1_string, get_custom_query2_string,
  custom_query2_participant_producers,
}
use Rules.{paired, refused, panicked}
use Inserts.*
use Changes.*
use Reads.*

insert-IsPaired : (d : Dao) → HasPlainValues d → IsPaired (get_insert_string d)
unfolding get_insert_string
insert-IsPaired (Dao.container_heartbeat s) h = insert_container_heartbeat-IsPaired s h
insert-IsPaired (Dao.worker_container s) h = insert_worker_container-IsPaired s h
insert-IsPaired (Dao.meeting_status s) h = insert_meeting_status-IsPaired s h
insert-IsPaired (Dao.router_worker s) h = insert_router_worker-IsPaired s h
insert-IsPaired (Dao.router_meeting s) h = insert_router_meeting-IsPaired s h
insert-IsPaired (Dao.participant_meeting s) h = insert_participant_meeting-IsPaired s h
insert-IsPaired (Dao.participant_producer_router s) h =
    insert_participant_producer_router-IsPaired s h
insert-IsPaired (Dao.participant_consumer_router s) h =
    insert_participant_consumer_router-IsPaired s h
insert-IsPaired (Dao.participant_consumer_transport s) h =
    insert_participant_consumer_transport-IsPaired s h
insert-IsPaired (Dao.participant_producer_transport s) h =
    insert_participant_producer_transport-IsPaired s h
insert-IsPaired (Dao.participant_producers s) h = insert_participant_producers-IsPaired s h
insert-IsPaired (Dao.participant_consumers s) h = insert_participant_consumers-IsPaired s h

update-IsPaired : (d : Dao) → HasPlainValues d → IsPaired (get_update_string d)
unfolding get_update_string
update-IsPaired (Dao.container_heartbeat s) h = update_container_heartbeat-IsPaired s h
update-IsPaired (Dao.router_meeting s) h = update_router_meeting-IsPaired s h
update-IsPaired (Dao.participant_meeting s) h = update_participant_meeting-IsPaired s h
update-IsPaired _ h = refused "Not implemented"

delete-IsPaired : (d : Dao) → HasPlainValues d → IsPaired (get_delete_string d)
unfolding get_delete_string
delete-IsPaired (Dao.meeting_status s) h = delete_meeting_status-IsPaired s h
delete-IsPaired (Dao.router_worker s) h = delete_router_worker-IsPaired s h
delete-IsPaired (Dao.router_meeting s) h = delete_router_meeting-IsPaired s h
delete-IsPaired (Dao.participant_meeting s) h = delete_participant_meeting-IsPaired s h
delete-IsPaired (Dao.participant_consumer_transport s) h =
    delete_participant_consumer_transport-IsPaired s h
delete-IsPaired (Dao.participant_producer_transport s) h =
    delete_participant_producer_transport-IsPaired s h
delete-IsPaired (Dao.participant_producers s) h = delete_participant_producers-IsPaired s h
delete-IsPaired (Dao.participant_consumers s) h = delete_participant_consumers-IsPaired s h
delete-IsPaired _ h = refused "Not implemented"

query-IsPaired : (d : Dao) → HasPlainValues d → IsPaired (get_query_string d)
unfolding get_query_string
query-IsPaired (Dao.router_meeting s) h = query_router_meeting-IsPaired s h
query-IsPaired (Dao.participant_meeting s) h = query_participant_meeting-IsPaired s h
query-IsPaired (Dao.participant_producers s) h = query_participant_producers-IsPaired s h
query-IsPaired _ h = refused "Not implemented"

custom_query1-IsPaired : (d : Dao) → HasPlainValues d → IsPaired (get_custom_query1_string d)
unfolding get_custom_query1_string
custom_query1-IsPaired (Dao.participant_meeting s) h =
    custom_query1_participant_meeting-IsPaired s h
custom_query1-IsPaired _ h = refused "Not implemented"

-- For every DAO whose text values have no single quote, the number of single quotes is even in the
-- value clauses of each statement that its insert, update, delete, query and first custom query
-- build. (Where one of these builds no statement, it says nothing.)
pub statements-IsPaired :
    (d : Dao)
    → HasPlainValues d
    → IsPaired (get_insert_string d)
      × IsPaired (get_update_string d)
      × IsPaired (get_delete_string d)
      × IsPaired (get_query_string d)
      × IsPaired (get_custom_query1_string d)
statements-IsPaired d h = (
  insert-IsPaired d h,
  update-IsPaired d h,
  delete-IsPaired d h,
  query-IsPaired d h,
  custom_query1-IsPaired d h,
)

IsPaired-even :
    {r : Outcome String Statement} {s : Statement} → r ≡ ok s → IsPaired r → quotes_in s % 2 ≡ 0
IsPaired-even e (paired h) = ground (arith, h)
IsPaired-even e (refused _) = cc
IsPaired-even e panicked = cc

-- The pieces of the clause of the second custom query.
abbrev others_pieces : String → String → List String
others_pieces meeting_id participant_id =
    "meeting_id = '" ∷ meeting_id ∷ "' and participant_id != '" ∷ participant_id ∷ []

others_pieces_odd :
    (m p : String) → quotes m ≡ 0 → quotes p ≡ 0 → quotes_of (others_pieces m p) % 2 ≡ 1
unfolding quotes
others_pieces_odd m p hm hp = omega arith

-- The second custom query of the participants' producers is never well quoted: for a meeting and a
-- participant whose ids have no single quote, the clause that it builds has an odd number of quotes.
pub custom_query2-not-IsPaired :
    (s : ParticipantProducers) (meeting_id participant_id : String)
    → s.meeting_id ≡ some meeting_id
    → s.participant_id ≡ some participant_id
    → HasPlainValues (Dao.participant_producers s)
    → ¬ IsPaired (get_custom_query2_string (Dao.participant_producers s))
unfolding get_custom_query2_string custom_query2_participant_producers quotes_in
custom_query2-not-IsPaired s m p em ep h q =
    let plain_p : quotes p ≡ 0 = subst IsPlain ep h.0 in
    let plain_m : quotes m ≡ 0 = subst IsPlain em h.3 in
    let built : custom_query2_participant_producers s
        ≡ ok (
            select_from_where "participant_id, producer_id, kind" "participant_producers"
              (format (others_pieces m p))) =
      rw (em, ep) in
    omega (
      arith,
      IsPaired-even built q,
      quotes-format (others_pieces m p),
      others_pieces_odd m p plain_m plain_p,
    )
