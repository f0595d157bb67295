-- ===== src/Dao/Quoting/Tests.antt =====
-- The quotes of the statements of src/dao/mod.rs, for a producer's row.
use doordarshan_media_server.Base.{◌≡◌, refl, none, some, ok}
use doordarshan_media_server.Base.Texts.{quotes, format}
use doordarshan_media_server.Dao.Types.{Dao, MutationType, ParticipantProducers, select_from_where}
use doordarshan_media_server.Dao.Insert.{get_insert_string}
use doordarshan_media_server.Dao.Change.{get_update_string, get_delete_string}
use doordarshan_media_server.Dao.Read.{
  get_query_string, get_custom_query1_string, get_custom_query2_string,
  custom_query2_participant_producers,
}
use doordarshan_media_server.Dao.Quoting.{IsPaired, statements-IsPaired, custom_query2-not-IsPaired}

abbrev row : ParticipantProducers
row = record {
  mutation_type = MutationType.custom_query2;
  participant_id = some "p";
  producers = none;
  kind = some "video";
  producer_id = some "q";
  meeting_id = some "m";
  transport_id = some "t";
}

-- The second custom query lacks the last quote.
custom_query2-row :
    get_custom_query2_string (Dao.participant_producers row)
    ≡ ok (
        select_from_where "participant_id, producer_id, kind" "participant_producers"
          "meeting_id = 'm' and participant_id != 'p")
unfolding get_custom_query2_string custom_query2_participant_producers format
custom_query2-row = refl

statements-IsPaired_example :
    let d = Dao.participant_producers row in
    IsPaired (get_insert_string d)
    × IsPaired (get_update_string d)
    × IsPaired (get_delete_string d)
    × IsPaired (get_query_string d)
    × IsPaired (get_custom_query1_string d)
unfolding quotes
statements-IsPaired_example =
    statements-IsPaired (Dao.participant_producers row) (refl, refl, refl, refl, refl)

custom_query2-not-IsPaired_example :
    ¬ IsPaired (get_custom_query2_string (Dao.participant_producers row))
unfolding quotes
custom_query2-not-IsPaired_example =
    custom_query2-not-IsPaired row "m" "p" refl refl (refl, refl, refl, refl, refl)
