-- ===== src/Dao/Quoting/Rules.antt =====
-- The quotes in the clauses that src/dao/mod.rs formats: as the values are put in by `format!`
-- with no escaping, a clause is well formed only if its quotes pair up. The rules follow the shapes
-- of the code: a test, an `unwrap`, a built clause.
use doordarshan_media_server.Base.{
  ℕ, ◌+◌, ◌%◌, ◌≡◌, String, Bool, true, false, Option, none, some, List, Outcome, ok, err, panic,
  if◌then◌else◌, unwrap, ◌>>=◌,
}
use doordarshan_media_server.Base.Texts.{format, quotes, quotes_of, quotes-format}
use doordarshan_media_server.Dao.Types.{
  Dao, Statement, insert_into, update_set_where, delete_from_where, select_from_where,
}

-- The quotes of the clauses that a statement carries values in.
unfoldable pub quotes_in : Statement → ℕ
quotes_in (insert_into into values) = quotes values
quotes_in (update_set_where table set where_clause) = quotes set + quotes where_clause
quotes_in (delete_from_where table where_clause) = quotes where_clause
quotes_in (select_from_where columns table where_clause) = quotes where_clause

-- The quotes of a statement pair up; where no statement is built there is nothing to ask.
pub data IsPaired : Outcome String Statement → Type 0 where
  paired : {s : Statement} → quotes_in s % 2 ≡ 0 → IsPaired (ok s)
  refused : (e : String) → IsPaired (err e)
  panicked : IsPaired panic

-- An optional value that has no quote in it.
abbrev pub IsPlain : Option String → Type 0
IsPlain none = Unit
IsPlain (some s) = quotes s ≡ 0

pub IsPaired-if :
    (b : Bool) {x y : Outcome String Statement}
    → IsPaired x
    → IsPaired y
    → IsPaired (if b then x else y)
IsPaired-if true p q = p
IsPaired-if false p q = q

pub IsPaired-unwrap :
    {A : Type 0} (o : Option A) (f : A → Outcome String Statement)
    → ((a : A) → IsPaired (f a))
    → IsPaired (unwrap o >>= f)
IsPaired-unwrap none f h = panicked
IsPaired-unwrap (some a) f h = h a

pub IsPaired-unwrap_plain :
    (o : Option String) (f : String → Outcome String Statement)
    → IsPlain o
    → ((a : String) → quotes a ≡ 0 → IsPaired (f a))
    → IsPaired (unwrap o >>= f)
IsPaired-unwrap_plain none f p h = panicked
IsPaired-unwrap_plain (some a) f p h = h a p

pub IsPaired-values :
    (into : String) (ss : List String)
    → quotes_of ss % 2 ≡ 0
    → IsPaired (ok (insert_into into (format ss)))
unfolding quotes_in
IsPaired-values into ss h = paired (rw quotes-format h)

pub IsPaired-set :
    (table : String) (ss ws : List String)
    → (quotes_of ss + quotes_of ws) % 2 ≡ 0
    → IsPaired (ok (update_set_where table (format ss) (format ws)))
unfolding quotes_in
IsPaired-set table ss ws h = paired (rw (quotes-format ss, quotes-format ws) h)

pub IsPaired-delete :
    (table : String) (ws : List String)
    → quotes_of ws % 2 ≡ 0
    → IsPaired (ok (delete_from_where table (format ws)))
unfolding quotes_in
IsPaired-delete table ws h = paired (rw quotes-format h)

pub IsPaired-select :
    (columns table : String) (ws : List String)
    → quotes_of ws % 2 ≡ 0
    → IsPaired (ok (select_from_where columns table (format ws)))
unfolding quotes_in
IsPaired-select columns table ws h = paired (rw quotes-format h)

-- No value of the struct that is put between quotes has a quote in it.
abbrev pub HasPlainValues : Dao → Type 0
HasPlainValues (Dao.container_heartbeat s) =
    (quotes s.container_id ≡ 0) × IsPlain s.host × IsPlain s.tenant
HasPlainValues (Dao.worker_container s) = (quotes s.container_id ≡ 0) × (quotes s.worker_id ≡ 0)
HasPlainValues (Dao.meeting_status s) = (quotes s.meeting_id ≡ 0)
HasPlainValues (Dao.router_worker s) = (quotes s.router_id ≡ 0) × IsPlain s.worker_id
HasPlainValues (Dao.router_meeting s) =
    (quotes s.meeting_id ≡ 0) × IsPlain s.router_id × IsPlain s.container_id
HasPlainValues (Dao.participant_meeting s) =
    (quotes s.meeting_id ≡ 0) × IsPlain s.participant_id × IsPlain s.instance_id
HasPlainValues (Dao.participant_producer_router s) =
    (quotes s.participant_id ≡ 0) × IsPlain s.router_id
HasPlainValues (Dao.participant_consumer_router s) =
    (quotes s.participant_id ≡ 0) × IsPlain s.router_id
HasPlainValues (Dao.participant_consumer_transport s) =
    (quotes s.participant_id ≡ 0) × IsPlain s.transport_id
HasPlainValues (Dao.participant_producer_transport s) =
    (quotes s.participant_id ≡ 0) × IsPlain s.transport_id
HasPlainValues (Dao.participant_producers s) =
    IsPlain s.participant_id
    × IsPlain s.kind
    × IsPlain s.producer_id
    × IsPlain s.meeting_id
    × IsPlain s.transport_id
HasPlainValues (Dao.participant_consumers s) =
    IsPlain s.participant_id
    × IsPlain s.target_participant_id
    × IsPlain s.kind
    × IsPlain s.consumer_id
    × IsPlain s.meeting_id
    × IsPlain s.transport_id
