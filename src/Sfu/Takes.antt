-- ===== src/Sfu/Takes.antt =====
-- Runs of `create_producer` and the recordings of src/mediasoupv1/mod.rs and src/gstreamer/mod.rs on a
-- small platform.
use doordarshan_media_server.Base.{◌≢◌, some, ◌≡◌, refl, true, none, List, [], ◌∷◌, ok}
use doordarshan_media_server.Base.Texts.{format, pos}
use doordarshan_media_server.Base.Dict.{lookup, insert}
use doordarshan_media_server.Base.Action.{◌>>=◌, map_err}
use doordarshan_media_server.Dao.{
  Statement, get_mutation_type, get_insert_string, insert_participant_producers,
}
use doordarshan_media_server.Db.{
  with_queries, in_transaction, run_queries, after_query, finish, commit_with, build_all,
  push_query, build, build_by, mutate,
}
use doordarshan_media_server.Sfu.Example.{platform, server}
use doordarshan_media_server.Sfu.Server.{Server, on_world, mutate_db, on_pool}
use doordarshan_media_server.Sfu.Closing.{ProducerDetail}
use doordarshan_media_server.Sfu.Recreation.{ensure_lock}
use doordarshan_media_server.Sfu.Transports.{in_memory}
use doordarshan_media_server.Sfu.Kind.{kind_of, kind_from_str}
use doordarshan_media_server.Sfu.Ports.{udp_bind, scan_ports, get_free_port, get_free_video_port}
use doordarshan_media_server.Sfu.Recording.Detach.{call}
use doordarshan_media_server.Sfu.Recording.Elements.{
  seconds, make_element, set_property, change_inner, attempt, pad_or, static_pad, request_pad,
  get_pipeline_from, get_pipeline, shared_from, shared, add_together, add_new, insert_session,
  note_session, finish_recording,
}
use doordarshan_media_server.Sfu.Recording.Shared.{
  rtp_bin, compositor, video_scale, caps_filter, x264_enc, connect_format_location, split_mux_sink,
  video_elements, add_video, new_video_pad, video_pad_from, link_video,
}
use doordarshan_media_server.Sfu.Recording.Video.{
  video_source, video_control, all_video_elements, add_video_elements, expect_static_pad,
  expect_request_pad, link_video_sources, video_pad, start_vp8_video_recording_gstreamer,
}
use doordarshan_media_server.Sfu.Producing.{
  Production, create_folder_if, create_folder, find_producer, record_producer, router_of, record_if,
  pipe_to, pipe_producer, keep_recorded, keep_producer, finish_producing, write_producer,
  parse_kind, produce_new, produce_from, create_producer,
}
use doordarshan_media_server.Sfu.Producing.Started
use doordarshan_media_server.Sfu.Producing.Started.{
  found_recording, on_recording, start_media, set_playing, start_recording,
}
use doordarshan_media_server.Sfu.Recording.{Gstreamer, new_gstreamer}
use doordarshan_media_server.Sfu.Recording.Audio.{start_audio_recording_gstreamer}
use doordarshan_media_server.Sfu.Recording.Stuck.{start_audio-ne-ok}
use doordarshan_media_server.Sfu.Producing.Again.{create_producer-again}

-- "q" produces a screen share, which is recorded.
abbrev screen : Production
screen = record {
  participant_id = "q";
  kind = "screenshare";
  meeting_id = "m";
  producer_router_id = "r";
  consumer_router_ids = none;
  producer_transport_id = "t";
  start_recording = true;
  instance_id = "i";
}

abbrev to_produce : List Statement → Server platform
to_produce rows = record server {
  routers_map = ("r", record { router = "r"; capacity = pos 1 }) ∷ [];
  transport_map = ("t", in_memory platform "t" "m" "q" "producer") ∷ [];
  pool = rows;
}

abbrev detail : ProducerDetail
detail = record { participant_id = "q"; producer_id = "v"; kind = "screenshare" }

produced : (create_producer platform screen "rtp" (to_produce [])).0 ≡ ok detail
unfolding create_producer produce_from produce_new find_producer ensure_lock parse_kind
    kind_from_str kind_of record_if router_of record_producer create_folder create_folder_if
    start_recording found_recording start_media get_free_video_port get_free_port scan_ports
    udp_bind on_recording start_vp8_video_recording_gstreamer get_pipeline get_pipeline_from seconds
    all_video_elements video_source video_control make_element set_property change_inner attempt
    call pad_or static_pad request_pad shared shared_from add_together add_new insert_session
    note_session finish_recording rtp_bin compositor video_scale caps_filter x264_enc
    connect_format_location split_mux_sink video_elements add_video new_video_pad video_pad_from
    link_video add_video_elements expect_static_pad expect_request_pad link_video_sources video_pad
    set_playing Started.finish_recording pipe_producer pipe_to write_producer finish_producing
    keep_producer keep_recorded on_world mutate_db on_pool map_err ◌>>=◌ lookup insert mutate
    with_queries in_transaction run_queries after_query finish commit_with build_all push_query
    build build_by get_mutation_type get_insert_string insert_participant_producers format
produced = refl

create_producer-again_example :
    let t = (create_producer platform screen "rtp" (to_produce [])).1 in
    create_producer platform screen "other" t ≡ (ok detail, ensure_lock platform "m" t)
create_producer-again_example =
    create_producer-again platform screen "rtp" "other" detail (to_produce []) produced

-- The encoder was not made after the mixer.
abbrev half : Gstreamer platform
half = record (new_gstreamer platform) {
  inner = record (new_gstreamer platform).inner { audio_mixer_element = some "mixer" };
}

start_audio-ne-ok_example : (start_audio_recording_gstreamer platform 7 "m" "p" (half, 0)).0 ≢ ok tt
start_audio-ne-ok_example = start_audio-ne-ok platform "mixer" 7 "m" "p" half 0 refl refl
