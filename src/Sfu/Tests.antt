-- ===== src/Sfu/Tests.antt =====
-- Runs of src/mediasoupv1/mod.rs on a small platform: a participant leaves a meeting, and it ends.
use doordarshan_media_server.Base.{
  ◌≡◌, refl, true, false, none, [], ◌∷◌, ok, panic, arith, Outcome, ◌≢◌, ℕ, suc,
}
use doordarshan_media_server.Base.Texts.{format}
use doordarshan_media_server.Base.Dict.{IsUnique, lookup, remove_all}
use doordarshan_media_server.Dao.{
  delete_from_where, get_mutation_type, get_delete_string, delete_participant_meeting,
  delete_meeting_status,
}
use doordarshan_media_server.Db.{
  DbError, with_queries, in_transaction, run_queries, after_query, finish, commit_with, build_all,
  push_query, build, build_by, mutate,
}
use doordarshan_media_server.Db.Driver.{default_tx_opts}
use doordarshan_media_server.Db.Single.{delete, run_unwrapped, commit_delete}
use doordarshan_media_server.Sfu.Shards.{HasShards, shard_of, get_shard-shard_of}
use doordarshan_media_server.Sfu.Closing.{close_each}
use doordarshan_media_server.Sfu.Closing.Maps.{SameElsewhere, close_each-details, details}
use doordarshan_media_server.Sfu.Queries.{ids_where}
use doordarshan_media_server.Sfu.Leaving.{leaving, ending}
use doordarshan_media_server.Sfu.Leaving.Leave.{HasKeys}
use doordarshan_media_server.Sfu.Leaving.Kept.{
  leave_meeting-keeps_producer, leave_meeting-keeps_consumer,
}
use doordarshan_media_server.Sfu.Server.{Server, context, shard_index, get_shard}
use doordarshan_media_server.Sfu.Example.{platform, server}
use doordarshan_media_server.Sfu.Leaving.{leave_meeting, end_meeting, left_response}
use doordarshan_media_server.Sfu.Leaving.Cleared.{found_producers}
use doordarshan_media_server.Sfu.Leaving.Leave.{
  Cleared, leave_meeting-Cleared, leave_meeting-left, leave_meeting-unchanged,
}
use doordarshan_media_server.Sfu.Leaving.End.{Ended, end_meeting-Ended, end_meeting-panic}

server-HasShards : HasShards platform server
server-HasShards = ground arith

server-HasKeys : HasKeys platform "m" server
unfolding shard_index
server-HasKeys = ((refl, (refl, tt)), (refl, (refl, (refl, tt))))

participant-deleted :
    (delete platform.driver
      (leaving platform "p" "m" "i" ∷ [])
      (context platform true default_tx_opts server.pool)).0
    ≡ ok 1
unfolding delete with_queries in_transaction run_unwrapped commit_delete commit_with build_all
    push_query get_delete_string delete_participant_meeting format
participant-deleted = refl

leave_meeting-Cleared_example :
    let r = leave_meeting platform "p" "m" "i" none none server in
    Cleared platform "p" "m" "i" (found_producers platform "p" "m" "i" server) r.0 r.1
leave_meeting-Cleared_example =
    leave_meeting-Cleared platform "p" "m" "i" none none 0 server server-HasShards server-HasKeys
      participant-deleted

leave_meeting-left_example :
    (leave_meeting platform "p" "m" "i" none none server).0 ≡ ok (left_response platform)
unfolding lookup
leave_meeting-left_example =
    leave_meeting-left platform "p" "m" "i" none none 0 server server-HasShards refl
      participant-deleted

-- A database that fails to delete the participant.
abbrev failing_server : Server platform
failing_server = record server {
  pool =
      delete_from_where "participant_meeting"
        "meeting_id = 'm' and participant_id = 'p' and instance_id = 'i'"
      ∷ [];
}

participant-not-deleted :
    (delete platform.driver
      (leaving platform "p" "m" "i" ∷ [])
      (context platform true default_tx_opts failing_server.pool)).0
    ≡ panic
unfolding delete with_queries in_transaction run_unwrapped commit_delete commit_with build_all
    push_query get_delete_string delete_participant_meeting format
participant-not-deleted = refl

panic-not-ok : (o : Outcome DbError ℕ) (n : ℕ) → o ≡ panic → o ≢ ok (suc n)
panic-not-ok o n h e = cc

not_deleted :
    (n : ℕ)
    → (delete platform.driver
        (leaving platform "p" "m" "i" ∷ [])
        (context platform true default_tx_opts failing_server.pool)).0
      ≢ ok (suc n)
not_deleted n e = panic-not-ok _ n participant-not-deleted e

leave_meeting-unchanged_example :
    (leave_meeting platform "p" "m" "i" none none failing_server).1 ≡ record failing_server {
      pool =
          (delete platform.driver
            (leaving platform "p" "m" "i" ∷ [])
            (context platform true default_tx_opts failing_server.pool)).1;
    }
leave_meeting-unchanged_example =
    leave_meeting-unchanged platform "p" "m" "i" none none failing_server not_deleted

meeting-deleted :
    (mutate platform.driver
      (ending platform "m" ∷ [])
      (context platform true default_tx_opts server.pool)).0
    ≡ ok ("Success", false)
unfolding mutate with_queries in_transaction run_queries after_query finish commit_with build_all
    push_query build build_by get_mutation_type get_delete_string delete_meeting_status format
meeting-deleted = refl

end_meeting-Ended_example :
    Ended platform "m" server
      (end_meeting platform "m" ("r" ∷ []) ("t" ∷ []) ("p" ∷ "q" ∷ []) server).1
end_meeting-Ended_example =
    end_meeting-Ended platform "m" "p" ("r" ∷ []) ("t" ∷ []) ("q" ∷ []) ("Success", false) server
      server-HasShards server-HasKeys meeting-deleted

end_meeting-panic_example : (end_meeting platform "m" [] [] [] server).0 ≡ panic
unfolding ids_where lookup
end_meeting-panic_example =
    end_meeting-panic platform "m" "vp" [] [] ("vq" ∷ []) ("Success", false) _ server
      server-HasShards refl refl meeting-deleted

get_shard-shard_of_example :
    get_shard platform "m" server ≡ (ok (shard_of platform "m" server), server)
get_shard-shard_of_example = get_shard-shard_of platform "m" server server-HasShards

close_each-details_example :
    (s' : Server platform) × (close_each platform ("p" ∷ []) ("vp" ∷ "none" ∷ []) server
      ≡ (ok (details platform "p" ("vp" ∷ "none" ∷ []) server.producer_map), s'))
    × (s'.producer_map ≡ remove_all ("vp" ∷ "none" ∷ []) server.producer_map)
    × SameElsewhere platform server s'
close_each-details_example = close_each-details platform "p" [] ("vp" ∷ "none" ∷ []) server

server-IsUnique_producers : IsUnique server.producer_map
unfolding lookup
server-IsUnique_producers = (refl, (refl, tt))

leave_meeting-keeps_producer_example :
    lookup "vq" (leave_meeting platform "p" "m" "i" none none server).1.producer_map
    ≡ lookup "vq" server.producer_map
unfolding lookup
leave_meeting-keeps_producer_example =
    leave_meeting-keeps_producer platform "p" "m" "i" none none 0 server "vq" _ server-HasShards
      server-HasKeys server-IsUnique_producers participant-deleted refl refl

server-IsUnique_consumers : IsUnique (shard_of platform "m" server)
unfolding lookup shard_index
server-IsUnique_consumers = (refl, (refl, (refl, tt)))

leave_meeting-keeps_consumer_example :
    lookup "cz" (shard_of platform "m" (leave_meeting platform "p" "m" "i" none none server).1)
    ≡ lookup "cz" (shard_of platform "m" server)
unfolding lookup shard_index ids_where
leave_meeting-keeps_consumer_example =
    leave_meeting-keeps_consumer platform "p" "m" "i" none none 0 server "cz" _ server-HasShards
      server-HasKeys server-IsUnique_consumers participant-deleted refl refl refl
