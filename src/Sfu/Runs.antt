-- ===== src/Sfu/Runs.antt =====
-- Runs of src/mediasoupv1/mod.rs on a small platform: transports, joins and resumed consumers.
use doordarshan_media_server.Base.{
  ◌≡◌, ◌≢◌, Outcome, String, refl, false, none, some, List, [], ◌∷◌, ok, err, arith, if◌then◌else◌,
  ◌==◌, ℕ,
}
use doordarshan_media_server.Base.Lists.{contains, given}
use doordarshan_media_server.Base.Texts.{format, pos}
use doordarshan_media_server.Base.Dict.{Dict, lookup}
use doordarshan_media_server.Dao.{
  insert_meeting_status, insert_router_worker, insert_router_meeting, Statement, get_mutation_type,
  get_insert_string, insert_participant_producer_transport, insert_participant_consumer_transport,
  get_custom_query1_string, custom_query1_participant_meeting, insert_participant_meeting,
}
use doordarshan_media_server.Base.Action.{map_err, ◌>>=◌}
use doordarshan_media_server.Db.{
  generic_error, with_queries, in_transaction, run_queries, after_query, finish, commit_with, undo,
  build_all, push_query, build, build_by, mutate,
}
use doordarshan_media_server.Db.Example.{driver-IsTransactional, lock}
use doordarshan_media_server.Sfu.Example.{platform, server}
use doordarshan_media_server.Sfu.Server.{
  Server, on_world, mutate_db, on_pool, display_error, shard_index,
}
use doordarshan_media_server.Sfu.Shards.{HasShards}
use doordarshan_media_server.Sfu.Control.{resume_consumer}
use doordarshan_media_server.Sfu.Control.Controlled.{resume_consumer-ok}
use doordarshan_media_server.Sfu.Joining.{
  remove_and_add_participant_to_meeting, get_producers_of_meeting,
  get_producers_of_meeting_excluding_participant,
}
use doordarshan_media_server.Sfu.Joining.Joined.{
  remove_and_add_participant_to_meeting-refused, get_producers_of_meeting_excluding_participant_lem,
}
use doordarshan_media_server.Sfu.Leaving.Leave.{HasKeys}
use doordarshan_media_server.Sfu.Recreation.{
  recreate_producer_transport, recreate_consumer_transport,
}
use doordarshan_media_server.Sfu.Recreation.Moved.{
  MovedTo, recreate_producer_transport-MovedTo, recreate_consumer_transport-MovedTo,
}
use doordarshan_media_server.Sfu.Creation.{
  ProducerConsumerCapacity, allot, allot_routers, allot_worker, allot_workers, meeting_failure,
  finish_creating, write_meeting, create_meeting_and_routers_on_workers,
}
use doordarshan_media_server.Sfu.Creation.Created.{create_meeting_and_routers_on_workers-unchanged}
use doordarshan_media_server.Sfu.Transports.{
  options_of, in_memory, create_on, create_transport, create_producer_transport,
  create_consumer_transport,
}
use doordarshan_media_server.Sfu.Transports.Stored.{
  create_producer_transport-stored, create_producer_transport-unchanged,
  create_consumer_transport-stored, create_consumer_transport-unchanged,
}

-- A server with a router and an old transport of "p", and with the rows in its database.
abbrev with_router : List Statement → Server platform
with_router rows = record server {
  routers_map = ("r", record { router = "r"; capacity = pos 1 }) ∷ [];
  transport_map = ("old", in_memory platform "old" "m" "p" "producer") ∷ [];
  pool = rows;
}

made : (rows : List Statement) → (create_transport platform "r" (with_router rows)).0 ≡ ok "t"
unfolding create_transport create_on on_world lookup map_err
made rows = refl

create_producer_transport-stored_example :
    let r = create_producer_transport platform "r" "p" "m" (some "old") none (with_router []) in
    (r.0 ≡ ok (options_of platform "t"))
    × (lookup "old" r.1.transport_map ≡ (
        if "t" == "old"
        then some (in_memory platform "t" "m" "p" "producer")
        else if contains (given (some "old") (given none [])) "old"
        then none
        else lookup "old" (with_router []).transport_map))
unfolding mutate with_queries in_transaction run_queries after_query finish commit_with build_all
    push_query build build_by get_mutation_type get_insert_string
    insert_participant_producer_transport format
create_producer_transport-stored_example =
    create_producer_transport-stored platform "r" "p" "m" (some "old") none "t" ("Success", false)
      (with_router []) "old" (made []) refl

create_consumer_transport-stored_example :
    let r = create_consumer_transport platform "r" "p" "m" (some "old") none (with_router []) in
    (r.0 ≡ ok (options_of platform "t"))
    × (lookup "t" r.1.transport_map ≡ (
        if "t" == "t"
        then some (in_memory platform "t" "m" "p" "consumer")
        else if contains (given none (given (some "old") [])) "t"
        then none
        else lookup "t" (with_router []).transport_map))
unfolding mutate with_queries in_transaction run_queries after_query finish commit_with build_all
    push_query build build_by get_mutation_type get_insert_string
    insert_participant_consumer_transport format
create_consumer_transport-stored_example =
    create_consumer_transport-stored platform "r" "p" "m" (some "old") none "t" ("Success", false)
      (with_router []) "t" (made []) refl

-- The table is locked.
create_producer_transport-unchanged_example :
    (create_producer_transport platform "r" "p" "m"
      (some "old")
      none
      (with_router (lock ∷ []))).1.transport_map
    ≡ (with_router (lock ∷ [])).transport_map
unfolding mutate with_queries in_transaction run_queries after_query finish undo build_all
    push_query build build_by get_mutation_type get_insert_string
    insert_participant_producer_transport format
create_producer_transport-unchanged_example =
    create_producer_transport-unchanged platform "r" "p" "m" (some "old") none "t"
      (generic_error "locked") (with_router (lock ∷ [])) (made (lock ∷ [])) refl

create_consumer_transport-unchanged_example :
    (create_consumer_transport platform "r" "p" "m" none none
      (with_router (lock ∷ []))).1.transport_map
    ≡ (with_router (lock ∷ [])).transport_map
unfolding mutate with_queries in_transaction run_queries after_query finish undo build_all
    push_query build build_by get_mutation_type get_insert_string
    insert_participant_consumer_transport format
create_consumer_transport-unchanged_example =
    create_consumer_transport-unchanged platform "r" "p" "m" none none "t" (generic_error "locked")
      (with_router (lock ∷ [])) (made (lock ∷ [])) refl

remove_and_add_participant_to_meeting-refused_example :
    remove_and_add_participant_to_meeting platform "p" "m" "i" none none (with_router (lock ∷ []))
    ≡ (
      err (format ("Error in writing to DB " ∷ display_error (generic_error "locked") ∷ [])),
      with_router (lock ∷ []),
    )
unfolding mutate with_queries in_transaction run_queries after_query finish undo build_all
    push_query build build_by get_mutation_type get_insert_string get_custom_query1_string
    custom_query1_participant_meeting insert_participant_meeting format
remove_and_add_participant_to_meeting-refused_example =
    remove_and_add_participant_to_meeting-refused platform driver-IsTransactional (λ t. refl)
      (λ t. refl) "p" "m" "i" none none (generic_error "locked") (with_router (lock ∷ [])) refl

get_producers_of_meeting_excluding_participant_lem_example :
    get_producers_of_meeting_excluding_participant platform "m" "p" server
    ≡ get_producers_of_meeting platform "m" server
get_producers_of_meeting_excluding_participant_lem_example =
    get_producers_of_meeting_excluding_participant_lem platform "m" "p" server

resume_consumer-ok_example :
    (w : ℕ) × (resume_consumer platform ("cp" ∷ "cq" ∷ []) "m" server
      ≡ (ok ("cp" ∷ "cq" ∷ []), record server { world = w }))
unfolding shard_index lookup
resume_consumer-ok_example =
    resume_consumer-ok platform ("cp" ∷ "cq" ∷ []) "m" server (omega arith) (λ c w. refl)
      (refl, (refl, tt))

-- "p" comes to another instance "j"; what it has on "i" is closed.
with_router-HasShards : HasShards platform (with_router [])
with_router-HasShards = omega arith

with_router-HasKeys : HasKeys platform "m" (with_router [])
unfolding shard_index
with_router-HasKeys = ((refl, (refl, tt)), (refl, (refl, (refl, tt))))

recreate_producer_transport-MovedTo_example :
    MovedTo platform "p" "m" "j"
      (recreate_producer_transport platform "p" "m" none none "r" "j" (with_router [])).1
recreate_producer_transport-MovedTo_example =
    recreate_producer_transport-MovedTo platform "p" "m" none none "r" "j" (with_router [])
      with_router-HasShards with_router-HasKeys

recreate_consumer_transport-MovedTo_example :
    MovedTo platform "p" "m" "j"
      (recreate_consumer_transport platform "p" "r" "m" "j" none none (with_router [])).1
recreate_consumer_transport-MovedTo_example =
    recreate_consumer_transport-MovedTo platform "p" "r" "m" "j" none none (with_router [])
      with_router-HasShards with_router-HasKeys

-- A new meeting asks for one router, of a database that is locked.
abbrev one_router : Dict (List ProducerConsumerCapacity)
one_router =
    (
      "w",
      record { producer_capacity = none; consumer_capacity = none; capacity = some (pos 3) } ∷ [],
    )
    ∷ []

not-created :
    (create_meeting_and_routers_on_workers platform one_router "n" "c" (with_router (lock ∷ []))).0
    ≡ err (meeting_failure platform (display_error (generic_error "locked")))
unfolding create_meeting_and_routers_on_workers allot_workers allot_worker allot_routers allot
    write_meeting finish_creating map_err on_world mutate_db on_pool ◌>>=◌ lookup mutate
    with_queries in_transaction run_queries after_query finish undo build_all push_query build
    build_by get_mutation_type get_insert_string insert_meeting_status insert_router_worker
    insert_router_meeting format
not-created = refl

err-not-ok : (o : Outcome String String) (e t : String) → o ≡ err e → o ≢ ok t
err-not-ok o e t h h' = cc

create_meeting_and_routers_on_workers-unchanged_example :
    (create_meeting_and_routers_on_workers platform one_router "n" "c"
      (with_router (lock ∷ []))).1.routers_map
    ≡ (with_router (lock ∷ [])).routers_map
create_meeting_and_routers_on_workers-unchanged_example =
    create_meeting_and_routers_on_workers-unchanged platform one_router "n" "c"
      (with_router (lock ∷ [])) (err-not-ok _ _ _ not-created)
