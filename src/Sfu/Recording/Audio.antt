-- ===== src/Sfu/Recording/Audio.antt =====
-- `start_audio_recording_gstreamer` of src/gstreamer/mod.rs.
use doordarshan_media_server.Base.{
  ℕ, ◌+◌, String, Bool, false, ◌&&◌, ◌||◌, Option, none, some, [], ◌∷◌, if◌then◌else◌,
}
use doordarshan_media_server.Base.Dict.{insert}
use doordarshan_media_server.Base.Action.{◌>>=◌, ◌>>◌, pure, gets, modify}
use doordarshan_media_server.Sfu.Platform.{Platform, Property, Field, paused}
use doordarshan_media_server.Sfu.Recording.Take.{Recorder}
use doordarshan_media_server.Sfu.Recording.Elements.{
  named_for, seconds, make_element, set_property, change_inner, attempt, static_pad, request_pad,
  get_pipeline, add_together, add_new, note_session, finish_recording,
}
use doordarshan_media_server.Sfu.Recording.Shared.{
  Video, rtp_bin, audio_mixer, opus_enc, split_mux_sink, video_elements, add_video, new_video_pad,
  link_video,
}

module _ (x : Platform) where
  open x use {Pipeline, Element, Pad}

  -- The source of a participant's media.
  unfoldable pub audio_source : ℕ → String → ℕ → Recorder x Element
  audio_source port participant_id timestamp = do
    rtp ← make_element x "udpsrc" (named_for x "udpsrc_rtp_audio_" participant_id timestamp) []
    set_property x rtp "address" (Property.text "127.0.0.1")
    set_property x rtp "port" (Property.number port)
    set_property x rtp "caps" (
        Property.caps "application/x-rtp" (
          ("media", Field.text "audio")
          ∷ ("clock-rate", Field.number 48_000)
          ∷ ("encoding-name", Field.text "OPUS")
          ∷ ("payload", Field.number 111)
          ∷ []))
    set_property x rtp "reuse" (Property.flag false)
    change_inner x λ inner. record inner {
      udp_src_element_audio_map = insert participant_id rtp inner.udp_src_element_audio_map;
    }
    pure rtp

  -- The source of its control.
  unfoldable pub audio_control : ℕ → String → ℕ → Recorder x Element
  audio_control port participant_id timestamp = do
    rtcp ← make_element x "udpsrc" (named_for x "udpsrc_rtcp_audio_" participant_id timestamp) []
    set_property x rtcp "address" (Property.text "127.0.0.1")
    set_property x rtcp "port" (Property.number (port + 1))
    set_property x rtcp "reuse" (Property.flag false)
    change_inner x λ inner. record inner {
      udp_rtcp_src_element_audio_map =
          insert participant_id rtcp inner.udp_rtcp_src_element_audio_map;
    }
    pure rtcp

  -- A sink that is not used.
  unfoldable pub audio_sink : ℕ → String → ℕ → Recorder x (Unit {0})
  audio_sink port participant_id timestamp = do
    sink ← make_element x "udpsink" (named_for x "udpsink_rtcp_audio_" participant_id timestamp) []
    set_property x sink "host" (Property.text "127.0.0.1")
    set_property x sink "port" (Property.number (port + 1))
    set_property x sink "async" (Property.flag false)
    set_property x sink "sync" (Property.flag false)

  unfoldable pub audio_sources : ℕ → String → ℕ → Recorder x (Element × Element)
  audio_sources port participant_id timestamp = do
    rtp ← audio_source port participant_id timestamp
    rtcp ← audio_control port participant_id timestamp
    audio_sink port participant_id timestamp
    pure (rtp, rtcp)

  -- All of the elements of an audio recording.
  pub record AudioElements : Type 0 where
    pub rtp : Element
    pub rtcp : Element
    pub bin : Element × Bool
    pub mixer : Element × Bool
    pub encoder : Element × Bool
    pub video : Video x
    pub sink : Element × Bool

  unfoldable pub audio_elements : ℕ → String → String → ℕ → Recorder x AudioElements
  audio_elements port meeting_id participant_id timestamp = do
    sources ← audio_sources port participant_id timestamp
    bin ← rtp_bin x "rtpbin_audio_" timestamp
    mixer ← audio_mixer x timestamp
    encoder ← opus_enc x
    video ← video_elements x timestamp
    sink ← split_mux_sink x (seconds x) meeting_id
    pure (record {
      rtp = sources.0;
      rtcp = sources.1;
      bin = bin;
      mixer = mixer;
      encoder = encoder;
      video = video;
      sink = sink;
    })

  unfoldable pub add_audio : Pipeline → AudioElements → Recorder x (Unit {0})
  add_audio pipeline e = do
    attempt x (x.set_pipeline_state pipeline paused) "Failed to pause pipeline"
    attempt x (x.add_many pipeline (e.rtp ∷ e.rtcp ∷ [])) "Failed to add elements to the pipeline"
    add_new x pipeline e.bin "Failed to add rtpbin element to the pipeline"
    add_together x pipeline (e.mixer.1 && e.encoder.1) (e.mixer.1 || e.encoder.1)
        (e.mixer.0 ∷ e.encoder.0 ∷ [])
        "Failed to add audio mixer and opus decoder elements to the pipeline"
        "Either audio mixer or opus decoder element is not new, cannot add to pipeline"
    add_video x pipeline e.video
        "Either compositor, x264enc, video scale or caps filter element is not new, cannot add to pipeline"
    add_new x pipeline e.sink "Failed to add splitmuxsink element to the pipeline"

  -- The sources are linked to the rtpbin, and their session is noted.
  unfoldable pub link_audio_sources : ℕ → String → String → AudioElements → Recorder x (Unit {0})
  link_audio_sources port meeting_id participant_id e = do
    rtp_src ← static_pad x e.rtp "src" "Failed to get src pad from udpsrc_rtp_audio"
    rtp_sink ← request_pad x e.bin.0 "recv_rtp_sink_%u" "Failed to get sink pad from rtpbin"
    attempt x (x.link_pads rtp_src rtp_sink) "Failed to link udpsrc and rtpbin"
    rtcp_src ← static_pad x e.rtcp "src" "Failed to get src pad from udpsrc_rtcp_audio"
    rtcp_sink ← request_pad x e.bin.0 "recv_rtcp_sink_%u" "Failed to get sink pad from rtpbin"
    note_session x rtp_sink (record {
      meeting_id = meeting_id;
      participant_id = participant_id;
      media = "audio";
      port = port;
      rtp_sink_pad = rtp_sink;
      rtcp_sink_pad = rtcp_sink;
    })
    attempt x (x.link_pads rtcp_src rtcp_sink) "Failed to link udpsrc_rtcp and rtpbin"

  -- The video is linked with the first audio, unless a video came before.
  unfoldable pub link_video_of_audio : AudioElements → Option Pad → Recorder x (Unit {0})
  link_video_of_audio e none =
      link_video x e.video (new_video_pad x e.sink.0) "Failed to link compositor and videoscale"
  link_video_of_audio e (some pad) = pure tt

  -- A new mixer is linked to the sink.
  unfoldable pub link_mixer : AudioElements → Recorder x (Unit {0})
  link_mixer e = do
    mixer_src ← static_pad x e.mixer.0 "src" "Failed to get sink pad from audiomixer"
    encoder_sink ← static_pad x e.encoder.0 "sink" "Failed to get sink pad from opusdec"
    encoder_src ← static_pad x e.encoder.0 "src" "Failed to get src pad from opusdec"
    video_pad ← gets (λ s. s.0.inner.split_mux_sink_video_pad)
    link_video_of_audio e video_pad
    audio_pad ← request_pad x e.sink.0 "audio_%u" "Failed to get sink pad from splitmuxsink"
    attempt x (x.link_pads mixer_src encoder_sink)
        "Failed to link audiomixer src pad to opusdec sink pad"
    attempt x (x.link_pads encoder_src audio_pad)
        "Failed to link opusdec src pad to splitmuxsink audio pad"

  unfoldable pub start_audio_recording_gstreamer : ℕ → String → String → Recorder x (Unit {0})
  start_audio_recording_gstreamer audio_port meeting_id participant_id = do
    modify λ s.
        (record s.0 { meeting_id = some meeting_id; participant_id = some participant_id }, s.1)
    pipeline ← get_pipeline x
    timestamp ← seconds x
    e ← audio_elements audio_port meeting_id participant_id timestamp
    add_audio pipeline e
    link_audio_sources audio_port meeting_id participant_id e
    if e.mixer.1 then link_mixer e else pure tt
    finish_recording x pipeline e.bin
