-- ===== src/Sfu/Trials.antt =====
-- Runs of src/mediasoupv1/mod.rs on a small platform: the start, consumers, ports and kinds.
use doordarshan_media_server.Base.{
  true, ◌≤◌, ◌≡◌, ◌≢◌, ◌↔◌, refl, String, false, none, some, List, [], ◌∷◌, Outcome, ok, err, arith,
  ltb,
}
use doordarshan_media_server.Base.Texts.{format, pos}
use doordarshan_media_server.Base.Dict.{Dict, lookup, insert}
use doordarshan_media_server.Base.Action.{◌>>=◌, map_err}
use doordarshan_media_server.Dao.{
  Statement, get_mutation_type, get_insert_string, insert_participant_consumers,
}
use doordarshan_media_server.Db.{
  with_queries, in_transaction, run_queries, after_query, finish, commit_with, undo, build_all,
  push_query, build, build_by, mutate, generic_error,
}
use doordarshan_media_server.Db.Example.{lock}
use doordarshan_media_server.Sfu.Example.{platform, server}
use doordarshan_media_server.Sfu.Example.Fresh.{outside, new, started-new}
use doordarshan_media_server.Sfu.Server.{
  Server, on_world, mutate_db, on_pool, display_error, get_shard, find_shard, shard_index,
}
use doordarshan_media_server.Sfu.Shards.{shard_of}
use doordarshan_media_server.Sfu.Creation.{
  ProducerConsumerCapacity, create_meeting_and_routers_on_workers,
}
use doordarshan_media_server.Sfu.Transports.{create_consumer_transport, in_memory}
use doordarshan_media_server.Sfu.Transports.Media.{SameMedia}
use doordarshan_media_server.Sfu.Consuming.{
  values_where, Consumption, is_existing, create_consumer, consume_all, consume_targets,
  consume_kinds, consume_found, parse_producer_id, add_consumer, insert_in, write_consumers,
  finish_consuming,
}
use doordarshan_media_server.Sfu.Consuming.Counts.{count_where}
use doordarshan_media_server.Sfu.Consuming.Rounds.{AreDistinct}
use doordarshan_media_server.Sfu.Consuming.Reuse.{create_consumer-reuses, create_consumer-unchanged}
use doordarshan_media_server.Sfu.Reachable.{
  Steps, none_yet, then, produces, creates_meeting, creates_consumer_transport, consumes,
}
use doordarshan_media_server.Sfu.Producing.{Production, is_produced, create_producer}
use doordarshan_media_server.Sfu.Reachable.Fresh.{reached-at_most_one}
use doordarshan_media_server.Sfu.Ports.{
  udp_bind, scan_ports, get_free_port, get_free_video_port, get_free_audio_port,
}
use doordarshan_media_server.Sfu.Ports.First.{IsFirst, get_free_port-IsFirst}
use doordarshan_media_server.Sfu.Kind.{
  Kind, video, audio, screen_share, display_kind, kind_from_str, kind_from_str-display_kind,
}

-- A meeting with one router, a transport of "p", and its consumer of the video of "q".
abbrev routers : Dict (List ProducerConsumerCapacity)
routers =
    (
      "w",
      record { producer_capacity = none; consumer_capacity = none; capacity = some (pos 3) } ∷ [],
    )
    ∷ []

abbrev consumption : Consumption
consumption = record {
  participant_id = "p";
  consumer_transport_id = "t";
  meeting_id = "m";
  instance_id = "i";
}

abbrev targets : Dict (Dict String)
targets = ("q", ("video", "vq") ∷ []) ∷ []

abbrev with_meeting : Server platform
with_meeting = (create_meeting_and_routers_on_workers platform routers "m" "c" new).1

abbrev with_transport : Server platform
with_transport = (create_consumer_transport platform "r" "p" "m" none none with_meeting).1

abbrev with_consumer : Server platform
with_consumer = (create_consumer platform consumption targets "caps" with_transport).1

-- "q" produces, and is recorded.
abbrev production : Production
production = record {
  participant_id = "q";
  kind = "video";
  meeting_id = "m";
  producer_router_id = "r";
  consumer_router_ids = none;
  producer_transport_id = "t";
  start_recording = true;
  instance_id = "i";
}

abbrev with_producer : Server platform
with_producer = (create_producer platform production "rtp" with_consumer).1

targets-AreDistinct : AreDistinct platform targets
unfolding lookup
targets-AreDistinct = ((refl, tt), ((refl, tt), tt))

run : Steps platform new with_producer
run =
    then
      (then
        (then (then none_yet (creates_meeting routers "m" "c" new))
          (creates_consumer_transport "r" "p" "m" none none with_meeting))
        (consumes consumption targets "caps" with_transport targets-AreDistinct))
      (produces production "rtp" with_consumer)

reached-at_most_one_example :
    (count_where
        (is_existing platform consumption "q" "video")
        (shard_of platform "m" with_producer)
      ≤ 1)
    × (count_where (is_produced platform production) with_producer.producer_map ≤ 1)
reached-at_most_one_example =
    reached-at_most_one platform server.config 7 "ip" "tenant" outside new with_producer consumption
      "q" "video" production (omega arith) started-new run

-- "p" consumes the video of "p" already, on the example's server, of which it has a transport.
abbrev with_old : List Statement → Server platform
with_old rows = record server {
  transport_map = ("t", in_memory platform "t" "m" "p" "consumer") ∷ [];
  pool = rows;
}

abbrev own : Dict (Dict String)
own = ("p", ("video", "vq") ∷ []) ∷ []

create_consumer-reuses_example :
    (r : Dict (Dict String)) × (create_consumer platform consumption own "caps" (with_old [])
      ≡ (ok r, with_old []))
unfolding lookup shard_index values_where mutate with_queries in_transaction run_queries finish
    commit_with build_all
create_consumer-reuses_example =
    create_consumer-reuses platform consumption own "caps"
      (in_memory platform "t" "m" "p" "consumer") ("Success", false) (with_old []) (omega arith)
      refl ((refl, tt), tt) refl

-- The video of "q" is new to "p", and the database is locked.
refused :
    (create_consumer platform consumption targets "caps" (with_old (lock ∷ []))).0
    ≡ err (format ("Error in writing to DB " ∷ display_error (generic_error "locked") ∷ []))
unfolding create_consumer consume_all consume_targets consume_kinds consume_found parse_producer_id
    add_consumer insert_in write_consumers finish_consuming get_shard find_shard on_world mutate_db
    on_pool map_err insert ◌>>=◌ lookup shard_index values_where mutate with_queries in_transaction
    run_queries after_query finish undo build_all push_query build build_by get_mutation_type
    get_insert_string insert_participant_consumers format
refused = refl

err-ne-ok :
    (o : Outcome String (Dict (Dict String))) (e : String) (r : Dict (Dict String))
    → o ≡ err e
    → o ≢ ok r
err-ne-ok o e r h h' = cc

create_consumer-unchanged_example :
    SameMedia platform
      (with_old (lock ∷ []))
      (create_consumer platform consumption targets "caps" (with_old (lock ∷ []))).1
create_consumer-unchanged_example =
    create_consumer-unchanged platform consumption targets "caps" (with_old (lock ∷ []))
      (omega arith) (λ r. err-ne-ok _ _ r refused)

-- Port 30000 is taken, and there are no ports for audio.
get_free_port-IsFirst_example :
    IsFirst (ltb 30_000) 30_000 30_005 (get_free_video_port platform server).0
    × IsFirst (ltb 30_000) 40_000 40_000 (get_free_audio_port platform server).0
get_free_port-IsFirst_example = get_free_port-IsFirst platform (ltb 30_000) (λ port w. refl) server

get_free_video_port_found : (get_free_video_port platform server).0 ≡ ok 30_002
unfolding get_free_video_port get_free_port scan_ports udp_bind ◌>>=◌
get_free_video_port_found = refl

lower : (k : Kind) → platform.to_lowercase (display_kind k) ≡ display_kind k
unfolding display_kind
lower video = refl
lower audio = refl
lower screen_share = refl

kind_from_str-display_kind_example :
    ((kind_from_str platform "Video" ≡ ok video)
      ↔ (platform.to_lowercase "Video" ≡ display_kind video))
    × (kind_from_str platform (display_kind video) ≡ ok video)
kind_from_str-display_kind_example = kind_from_str-display_kind platform "Video" video lower
