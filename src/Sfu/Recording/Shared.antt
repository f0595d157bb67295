-- ===== src/Sfu/Recording/Shared.antt =====
-- The elements that the participants of a recording share, in src/gstreamer/mod.rs: how each is made
-- and kept, added and linked.
use doordarshan_media_server.Base.{ℕ, String, Bool, ◌&&◌, ◌||◌, Option, none, some, [], ◌∷◌, ok}
use doordarshan_media_server.Base.Texts.{format, display}
use doordarshan_media_server.Base.Action.{◌>>=◌, ◌>>◌, pure}
use doordarshan_media_server.Sfu.Platform.{Platform, Property, Field}
use doordarshan_media_server.Sfu.Recording.{Inner}
use doordarshan_media_server.Sfu.Recording.Take.{Recorder}
use doordarshan_media_server.Sfu.Recording.Elements.{
  named, seconds, make_element, set_property, change_inner, attempt, static_pad, request_pad,
  shared, add_together,
}

module _ (x : Platform) where
  open x use {World, Pipeline, Element, Pad}

  -- A new element is kept for the participants that come after.
  abbrev keep : (Element → Inner x → Inner x) → Element → Recorder x Element
  keep put e = change_inner x (put e) >> pure e

  unfoldable pub rtp_bin : String → ℕ → Recorder x (Element × Bool)
  rtp_bin prefix timestamp =
      shared x (λ inner. inner.rtp_bin_element)
        do
          e ← make_element x "rtpbin" (named x prefix timestamp) []
          set_property x e "latency" (Property.number 1000)
          keep (λ e inner. record inner { rtp_bin_element = some e }) e

  unfoldable pub audio_mixer : ℕ → Recorder x (Element × Bool)
  audio_mixer timestamp =
      shared x (λ inner. inner.audio_mixer_element)
        do
          e ←
              make_element x "audiomixer" (named x "audiomixer_" timestamp)
                (("force-live", Property.text "true") ∷ [])
          set_property x e "ignore-inactive-pads" (Property.text "true")
          keep (λ e inner. record inner { audio_mixer_element = some e }) e

  unfoldable pub opus_enc : Recorder x (Element × Bool)
  opus_enc =
      shared x (λ inner. inner.opus_enc_element_audio)
        do
          timestamp ← seconds x
          e ← make_element x "opusenc" (named x "opusenc_audio_" timestamp) []
          keep (λ e inner. record inner { opus_enc_element_audio = some e }) e

  unfoldable pub compositor : ℕ → Recorder x (Element × Bool)
  compositor timestamp =
      shared x (λ inner. inner.video_compositor_element)
        do
          e ← make_element x "compositor" (named x "compositor_vp8_video_" timestamp) (
              ("force-live", Property.text "true")
              ∷ ("background", Property.text "black")
              ∷ ("ignore-inactive-pads", Property.text "true")
              ∷ [])
          keep (λ e inner. record inner { video_compositor_element = some e }) e

  unfoldable pub video_scale : ℕ → Recorder x (Element × Bool)
  video_scale timestamp =
      shared x (λ inner. inner.video_scale_post_compositor_element)
        do
          e ←
              make_element x "videoscale"
                (named x "videoscale_vp8_post_compositor_video_" timestamp) []
          keep (λ e inner. record inner { video_scale_post_compositor_element = some e }) e

  unfoldable pub caps_filter : ℕ → Recorder x (Element × Bool)
  caps_filter timestamp =
      shared x (λ inner. inner.caps_filter_post_compositor_element)
        do
          e ←
              make_element x "capsfilter"
                (named x "caps_filter_vp8_post_compositor_video_" timestamp)
                ((
                  "caps",
                  Property.caps "video/x-raw"
                      (("width", Field.number 1280) ∷ ("height", Field.number 720) ∷ []),
                )
                  ∷ [])
          keep (λ e inner. record inner { caps_filter_post_compositor_element = some e }) e

  unfoldable pub x264_enc : ℕ → Recorder x (Element × Bool)
  x264_enc timestamp =
      shared x (λ inner. inner.x264_encode_element_video)
        do
          e ← make_element x "x264enc" (named x "x264enc_vp8_video_" timestamp) (
              ("speed-preset", Property.text "ultrafast")
              ∷ ("tune", Property.text "zerolatency")
              ∷ [])
          keep (λ e inner. record inner { x264_encode_element_video = some e }) e

  -- The name of the next file of a recording.
  abbrev pub chunk_name : String → ℕ → String
  chunk_name meeting_id nanos =
      format ("/opt/recordings/" ∷ meeting_id ∷ "/chunk_" ∷ display nanos ∷ ".ts" ∷ [])

  unfoldable pub connect_format_location : Element → String → Recorder x (Unit {0})
  connect_format_location e meeting_id (g, w) =
      (ok tt, (g, x.connect_format_location e (chunk_name meeting_id) w))

  -- With the timestamp of its names from `clock`.
  unfoldable pub split_mux_sink : Recorder x ℕ → String → Recorder x (Element × Bool)
  split_mux_sink clock meeting_id =
      shared x (λ inner. inner.split_mux_sink_element)
        do
          timestamp ← clock
          muxer ← make_element x "mpegtsmux" (named x "mpegtsmux_" timestamp) []
          e ←
              make_element x "splitmuxsink" (named x "splitmuxsink_" timestamp)
                (("max-size-time", Property.number 30_000_000_000) ∷ [])
          set_property x e "muxer" (Property.element muxer)
          connect_format_location e meeting_id
          keep (λ e inner. record inner { split_mux_sink_element = some e }) e

  -- The elements of the video behind the compositor.
  pub record Video : Type 0 where
    pub compositor : Element × Bool
    pub scale : Element × Bool
    pub caps : Element × Bool
    pub encoder : Element × Bool

  unfoldable pub video_elements : ℕ → Recorder x Video
  video_elements timestamp = do
    c ← compositor timestamp
    s ← video_scale timestamp
    f ← caps_filter timestamp
    e ← x264_enc timestamp
    pure (record { compositor = c; scale = s; caps = f; encoder = e })

  unfoldable pub add_video : Pipeline → Video → String → Recorder x (Unit {0})
  add_video pipeline v mixed =
      add_together x pipeline (v.compositor.1 && (v.encoder.1 && (v.scale.1 && v.caps.1)))
        (v.compositor.1 || (v.encoder.1 || (v.scale.1 || v.caps.1)))
        (v.compositor.0 ∷ v.encoder.0 ∷ v.scale.0 ∷ v.caps.0 ∷ [])
        "Failed to add compositor and x264enc elements to the pipeline" mixed

  -- A new video pad of the sink is kept.
  unfoldable pub new_video_pad : Element → Recorder x Pad
  new_video_pad sink = do
    pad ← request_pad x sink "video" "Failed to get video pad from splitmuxsink"
    change_inner x (λ inner. record inner { split_mux_sink_video_pad = some pad })
    pure pad

  unfoldable pub video_pad_from : Element → Option Pad → Recorder x Pad
  video_pad_from sink none = new_video_pad sink
  video_pad_from sink (some pad) = pure pad

  -- The video of a recording is linked, from the compositor to the sink; `pad_for` finds the pad of
  -- the sink, and `first` is the failure of the first link.
  unfoldable pub link_video : Video → Recorder x Pad → String → Recorder x (Unit {0})
  link_video v pad_for first = do
    compositor_src ←
        static_pad x v.compositor.0 "src" "Failed to get src pad from compositor element"
    scale_sink ← static_pad x v.scale.0 "sink" "Failed to get sink pad from videoscale element"
    encoder_src ← static_pad x v.encoder.0 "src" "Failed to get src pad from x264enc element"
    sink_pad ← pad_for
    attempt x (x.link_pads compositor_src scale_sink) first
    attempt x (x.link v.scale.0 v.caps.0) "Failed to link videoscale and capsfilter"
    attempt x (x.link v.caps.0 v.encoder.0) "Failed to link capsfilter and x264enc"
    attempt x (x.link_pads encoder_src sink_pad) "Failed to link x264enc and splitmuxsink"
