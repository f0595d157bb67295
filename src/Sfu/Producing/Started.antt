-- ===== src/Sfu/Producing/Started.antt =====
-- `start_recording` of src/mediasoupv1/mod.rs: a participant joins the recording of a meeting, or starts
-- it. The thread that watches the bus of a new pipeline is not modelled.
use doordarshan_media_server.Base.{
  ℕ, String, Bool, true, false, Option, none, some, [], ◌∷◌, ok, err, panic,
}
use doordarshan_media_server.Base.Texts.{format}
use doordarshan_media_server.Base.Dict.{lookup, insert}
use doordarshan_media_server.Base.Action.{◌>>=◌, ◌>>◌, pure, fail, panics, gets, unwrap, map_err}
use doordarshan_media_server.Sfu.Platform.{Platform, playing}
use doordarshan_media_server.Sfu.Kind.{Kind, audio, video, screen_share}
use doordarshan_media_server.Sfu.Server.{Server, Handler}
use doordarshan_media_server.Sfu.Ports.{get_free_video_port, get_free_audio_port}
use doordarshan_media_server.Sfu.Recording.{Inner, Gstreamer, new_gstreamer}
use doordarshan_media_server.Sfu.Recording.Take.{Recorder}
use doordarshan_media_server.Sfu.Recording.Audio.{start_audio_recording_gstreamer}
use doordarshan_media_server.Sfu.Recording.Video.{start_vp8_video_recording_gstreamer}
use doordarshan_media_server.Sfu.Recording.Failure.{handle_udp_src_failure}

abbrev pub start_failure : String → String
start_failure e = format ("Failed to start recording " ∷ e ∷ [])

module _ (x : Platform) where
  open x use {Pipeline}

  -- The recording of a meeting, or a new one, and whether it exists.
  unfoldable pub found_recording : Option (Option (Gstreamer x)) → Handler x (Gstreamer x × Bool)
  found_recording (some (some g)) = pure (g, true)
  found_recording (some none) = panics
  found_recording none = pure (new_gstreamer x, false)

  -- What the map shows of a recording that exists: its handles are shared, its other fields are not.
  abbrev pub shown : String → Gstreamer x × Bool → Inner x → Server x → Server x
  shown meeting_id (g, true) inner s = record s {
    pipeline_map = insert meeting_id (some (record g { inner = inner })) s.pipeline_map;
  }
  shown meeting_id (g, false) inner s = s

  -- A call on a copy of the recording; returns the copy after it.
  unfoldable pub on_recording :
      String → Gstreamer x × Bool → Gstreamer x → Recorder x (Unit {0}) → Handler x (Gstreamer x)
  on_recording meeting_id found g f s =
      let r = f (g, s.world) in
      (
        elim r.0 [ ok _ ↦ ok r.1.0 | err e ↦ err e | panic ↦ panic ],
        shown meeting_id found r.1.0.inner (record s { world = r.1.1 }),
      )

  abbrev pub media_of : Kind → String
  media_of audio = "audio"
  media_of video = "video"
  media_of screen_share = "video"

  -- The port, and the recording once its elements are started on it.
  unfoldable pub start_media :
      String → String → Kind → Gstreamer x × Bool → Handler x (Gstreamer x × ℕ)
  start_media meeting_id participant_id audio found = do
    port ← map_err (λ e. format ("Failed to get free audio port " ∷ e ∷ [])) (get_free_audio_port x)
    g ←
        map_err (λ e. start_failure (start_failure e))
          (on_recording meeting_id found found.0
            (start_audio_recording_gstreamer x port meeting_id participant_id))
    pure (g, port)
  start_media meeting_id participant_id video found = do
    port ← map_err (λ e. format ("Failed to get free video port " ∷ e ∷ [])) (get_free_video_port x)
    g ←
        map_err (λ e. start_failure (start_failure e))
          (on_recording meeting_id found found.0
            (start_vp8_video_recording_gstreamer x port meeting_id participant_id))
    pure (g, port)
  start_media meeting_id participant_id screen_share found = do
    port ← map_err (λ e. format ("Failed to get free video port " ∷ e ∷ [])) (get_free_video_port x)
    g ←
        map_err (λ e. start_failure (start_failure e))
          (on_recording meeting_id found found.0
            (start_vp8_video_recording_gstreamer x port meeting_id participant_id))
    pure (g, port)

  unfoldable pub set_playing : Pipeline → Handler x (Option String)
  set_playing pipeline s =
      let r = x.set_pipeline_state pipeline playing s.world in (ok r.0, record s { world = r.1 })

  -- A recording that exists gives up the participant's sources, and plays on.
  unfoldable pub recover :
      String → String → Kind → Gstreamer x × Bool → Gstreamer x → Pipeline → Handler x (Unit {0})
  recover meeting_id participant_id kind (g, false) started pipeline = pure tt
  recover meeting_id participant_id kind (g, true) started pipeline = do
    on_recording meeting_id (g, true) (record g { inner = started.inner })
        (handle_udp_src_failure x participant_id (media_of kind))
    set_playing pipeline
    pure tt

  abbrev pub not_playing : String → String → String
  not_playing meeting_id participant_id = format (
      "Failed to add new producer for meetingId " ∷ meeting_id ∷ " and participantId "
      ∷ participant_id ∷ [])

  -- The end, from whether the pipeline plays.
  unfoldable pub finish_recording :
      String
      → String
      → Kind
      → Gstreamer x × Bool
      → Gstreamer x × ℕ
      → Pipeline
      → Option String
      → Handler x (Gstreamer x × ℕ)
  finish_recording meeting_id participant_id kind found started pipeline none = pure started
  finish_recording meeting_id participant_id kind found started pipeline (some e) = do
    recover meeting_id participant_id kind found started.0 pipeline
    fail (not_playing meeting_id participant_id)

  unfoldable pub start_recording : String → String → Kind → Handler x (Gstreamer x × ℕ)
  start_recording meeting_id participant_id kind = do
    pipeline_map ← gets (λ s. s.pipeline_map)
    found ← found_recording (lookup meeting_id pipeline_map)
    started ← start_media meeting_id participant_id kind found
    pipeline ← unwrap started.0.pipeline
    refusal ← set_playing pipeline
    finish_recording meeting_id participant_id kind found started pipeline refusal
