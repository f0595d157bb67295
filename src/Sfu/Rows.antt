-- ===== src/Sfu/Rows.antt =====
-- The rows of a query for producers, src/mediasoupv1/mod.rs.
use doordarshan_media_server.Base.{String, List, [], ◌∷◌, Outcome, ok, unwrap, ◌>>=◌}
use doordarshan_media_server.Db.Driver.{MySqlDriver}
use doordarshan_media_server.Sfu.Platform.{Platform}
use doordarshan_media_server.Sfu.Closing.{ProducerDetail}

module _ (x : Platform) where
  -- `row.get(i).unwrap()`, for each row.
  unfoldable pub read_rows : List (MySqlDriver.Row x.driver) → Outcome String (List ProducerDetail)
  read_rows [] = ok []
  read_rows (row ∷ rows) =
      let rest = read_rows rows in
      do
        producer_id ← unwrap (x.column row 1)
        participant_id ← unwrap (x.column row 0)
        kind ← unwrap (x.column row 2)
        details ← rest
        ok (
            record { participant_id = participant_id; producer_id = producer_id; kind = kind }
            ∷ details)
