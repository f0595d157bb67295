-- ===== src/Sfu/Recording/Video.antt =====
-- `start_vp8_video_recording_gstreamer` of src/gstreamer/mod.rs.
use doordarshan_media_server.Base.{ℕ, ◌+◌, String, Bool, false, some, [], ◌∷◌, if◌then◌else◌}
use doordarshan_media_server.Base.Dict.{insert}
use doordarshan_media_server.Base.Action.{◌>>=◌, ◌>>◌, pure, modify, unwrap}
use doordarshan_media_server.Sfu.Platform.{Platform, Property, Field, paused}
use doordarshan_media_server.Sfu.Recording.Take.{Recorder}
use doordarshan_media_server.Sfu.Recording.Elements.{
  named_for, seconds, make_element, set_property, change_inner, attempt, static_pad, request_pad,
  get_pipeline, add_new, note_session, finish_recording,
}
use doordarshan_media_server.Sfu.Recording.Shared.{
  Video, rtp_bin, split_mux_sink, video_elements, add_video, video_pad_from, link_video,
}

module _ (x : Platform) where
  open x use {Pipeline, Element, Pad}

  -- The source of a participant's media.
  unfoldable pub video_source : ℕ → String → ℕ → Recorder x Element
  video_source port participant_id timestamp = do
    rtp ← make_element x "udpsrc" (named_for x "udpsrc_vp8_video_" participant_id timestamp) []
    set_property x rtp "address" (Property.text "127.0.0.1")
    set_property x rtp "port" (Property.number port)
    set_property x rtp "caps" (
        Property.caps "application/x-rtp" (
          ("media", Field.text "video")
          ∷ ("clock-rate", Field.number 90_000)
          ∷ ("encoding-name", Field.text "VP8")
          ∷ ("payload", Field.number 96)
          ∷ []))
    set_property x rtp "reuse" (Property.flag false)
    change_inner x λ inner. record inner {
      udp_src_element_video_map = insert participant_id rtp inner.udp_src_element_video_map;
    }
    pure rtp

  -- And of its control.
  unfoldable pub video_control : ℕ → String → ℕ → Recorder x Element
  video_control port participant_id timestamp = do
    rtcp ←
        make_element x "udpsrc" (named_for x "udpsrc_rtcp_vp8_video_" participant_id timestamp) []
    set_property x rtcp "address" (Property.text "127.0.0.1")
    set_property x rtcp "port" (Property.number (port + 1))
    set_property x rtcp "reuse" (Property.flag false)
    change_inner x λ inner. record inner {
      udp_rtcp_src_element_video_map =
          insert participant_id rtcp inner.udp_rtcp_src_element_video_map;
    }
    pure rtcp

  -- All of the elements of a video recording.
  pub record VideoElements : Type 0 where
    pub rtp : Element
    pub video : Video x
    pub sink : Element × Bool
    pub rtcp : Element
    pub bin : Element × Bool

  unfoldable pub all_video_elements : ℕ → String → String → ℕ → Recorder x VideoElements
  all_video_elements port meeting_id participant_id timestamp = do
    rtp ← video_source port participant_id timestamp
    video ← video_elements x timestamp
    sink ← split_mux_sink x (pure timestamp) meeting_id
    rtcp ← video_control port participant_id timestamp
    bin ← rtp_bin x "rtpbin_vp8_video_" timestamp
    pure (record { rtp = rtp; video = video; sink = sink; rtcp = rtcp; bin = bin })

  unfoldable pub add_video_elements : Pipeline → VideoElements → Recorder x (Unit {0})
  add_video_elements pipeline e = do
    attempt x (x.set_pipeline_state pipeline paused) "Failed to pause pipeline"
    attempt x (x.add_many pipeline (e.rtp ∷ e.rtcp ∷ [])) "Failed to add elements to the pipeline"
    add_new x pipeline e.bin "Failed to add rtpbin element to the pipeline"
    add_video x pipeline e.video
        "Either compositor, x264enc, videoscale or capsfilter element is new, but not both"
    add_new x pipeline e.sink "Failed to add splitmuxsink element to the pipeline"

  -- `static_pad("src").expect(..)` and `request_pad_simple(..).unwrap()` panic.
  unfoldable pub expect_static_pad : Element → String → Recorder x Pad
  expect_static_pad e name s = unwrap (x.static_pad e name s.1) s

  unfoldable pub expect_request_pad : Element → String → Recorder x Pad
  expect_request_pad e name (g, w) = let r = x.request_pad_simple e name w in unwrap r.0 (g, r.1)

  -- The sources are linked to the rtpbin, and their session is noted.
  unfoldable pub link_video_sources : ℕ → String → String → VideoElements → Recorder x (Unit {0})
  link_video_sources port meeting_id participant_id e = do
    rtp_src ← static_pad x e.rtp "src" "Failed to get src pad from udpsrc"
    rtp_sink ←
        request_pad x e.bin.0 "recv_rtp_sink_%u" "Failed to get recv_rtp_sink pad from rtpbin"
    attempt x (x.link_pads rtp_src rtp_sink) "Failed to link udpsrc and rtpbin"
    rtcp_src ← expect_static_pad e.rtcp "src"
    rtcp_sink ← expect_request_pad e.bin.0 "recv_rtcp_sink_%u"
    attempt x (x.link_pads rtcp_src rtcp_sink) "Failed to link udpsrc_rtcp and rtpbin"
    note_session x rtp_sink (record {
      meeting_id = meeting_id;
      participant_id = participant_id;
      media = "video";
      port = port;
      rtp_sink_pad = rtp_sink;
      rtcp_sink_pad = rtcp_sink;
    })

  -- The pad of the sink that is kept, or a new one.
  unfoldable pub video_pad : Element → Recorder x Pad
  video_pad sink s = video_pad_from x sink s.0.inner.split_mux_sink_video_pad s

  unfoldable pub start_vp8_video_recording_gstreamer : ℕ → String → String → Recorder x (Unit {0})
  start_vp8_video_recording_gstreamer video_port meeting_id participant_id = do
    pipeline ← get_pipeline x
    modify λ s.
        (record s.0 { meeting_id = some meeting_id; participant_id = some participant_id }, s.1)
    timestamp ← seconds x
    e ← all_video_elements video_port meeting_id participant_id timestamp
    add_video_elements pipeline e
    link_video_sources video_port meeting_id participant_id e
    if e.video.compositor.1
        then link_video x e.video (video_pad e.sink.0) "Failed to link compositor and x264enc"
        else pure tt
    finish_recording x pipeline e.bin
