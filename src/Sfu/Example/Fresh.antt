-- ===== src/Sfu/Example/Fresh.antt =====
-- The server that the start of src/mediasoupv1/mod.rs makes on the small platform.
use doordarshan_media_server.Base.{◌≡◌, refl, String, [], ◌∷◌, Outcome, ok}
use doordarshan_media_server.Base.Texts.{format}
use doordarshan_media_server.Base.Dict.{insert}
use doordarshan_media_server.Base.Action.{◌>>=◌}
use doordarshan_media_server.Dao.{
  get_mutation_type, get_insert_string, insert_container_heartbeat, insert_worker_container,
}
use doordarshan_media_server.Db.{
  with_queries, in_transaction, run_queries, after_query, finish, commit_with, build_all,
  push_query, build, build_by, mutate,
}
use doordarshan_media_server.Sfu.Example.{platform, server}
use doordarshan_media_server.Sfu.Server.{Server}
use doordarshan_media_server.Sfu.Start.{
  Outside, create_worker, create_workers, write_start, init_gstreamer, new_server, finish_starting,
  create_inner,
}

abbrev pub outside : Outside platform
outside = record { world = 0; pool = [] }

abbrev pub started : Outcome String (Server platform) × Outside platform
started = create_inner platform server.config 7 "ip" "tenant" outside

abbrev pub new : Server platform
new = new_server platform server.config (("w", "w") ∷ []) started.1

pub started-new : started.0 ≡ ok new
unfolding create_inner create_workers create_worker write_start finish_starting init_gstreamer ◌>>=◌
    insert mutate with_queries in_transaction run_queries after_query finish commit_with build_all
    push_query build build_by get_mutation_type get_insert_string insert_container_heartbeat
    insert_worker_container format
started-new = refl
