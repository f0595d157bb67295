-- ===== src/Sfu/Recording/Take.antt =====
-- `close_all_producers_in_memory` of src/mediasoupv1/mod.rs, from `if remove_from_pipeline`: the
-- elements of the participants leave the maps of the meeting's recording.
use doordarshan_media_server.Base.{ℕ, String, none, some, List, [], ◌∷◌, ok}
use doordarshan_media_server.Base.Lists.{length}
use doordarshan_media_server.Base.Dict.{Dict}
use doordarshan_media_server.Base.Action.{Action, ◌>>=◌, ◌>>◌, pure, gets}
use doordarshan_media_server.Sfu.Platform.{Platform}
use doordarshan_media_server.Sfu.Recording.{Inner, Gstreamer, take_all, null_all}

module _ (x : Platform) where
  open x use {
    World, Pipeline, Element, Pad, set_state, set_pipeline_state, remove_many, release_request_pad,
    clear_ssrc,
  }

  -- A call over a recording and the world.
  abbrev pub Recorder : Type 0 → Type 0
  Recorder A = Action (Gstreamer x × World) A

  -- Takes the participants' elements out of one map, each set to Null.
  unfoldable pub take_elements :
      (Inner x → Dict Element)
      → (Dict Element → Inner x → Inner x)
      → List String
      → Recorder (List Element)
  take_elements get put ids (g, w) =
      let (es, rest) = take_all x ids (get g.inner) in
      (ok es, (record g { inner = put rest g.inner }, null_all x es w))

  -- What the removal has taken out of the maps.
  pub record Taken : Type 0 where
    pub udp_src_audio : List Element
    pub udp_src_video : List Element
    pub udp_rtcp_src_audio : List Element
    pub queue_audio : List Element
    pub opus_de_pay_audio : List Element
    pub opus_dec_audio : List Element
    pub udp_rtcp_sink_audio : List Element
    pub udp_rtcp_src_video : List Element
    pub queue_video : List Element
    pub vp8_de_pay_video : List Element
    pub vp8_dec_video : List Element
    pub caps_video : List Element
    pub video_scale : List Element
    pub video_convert : List Element
    pub udp_src_audio_length : ℕ
    pub udp_src_video_length : ℕ

  -- `mixer.release_request_pad(&pad)` for each pad.
  unfoldable pub release_pads : Element → List Pad → World → World
  release_pads e [] w = w
  release_pads e (p ∷ ps) w = release_pads e ps (release_request_pad e p w)

  -- The pads of the audio mixer; with no mixer they are only dropped.
  unfoldable pub release_mixer_pads : List String → Recorder (Unit {0})
  unfolding release_pads
  release_mixer_pads ids (g, w) =
      let (pads, rest) = take_all x ids g.inner.audio_mixed_pad_map in
      let w' : World = elim g.inner.audio_mixer_element [
        | some mixer ↦ release_pads mixer pads w
        | none ↦ w
      ] in
      (ok tt, (record g { inner = record g.inner { audio_mixed_pad_map = rest } }, w'))

  unfoldable pub take_participants : List String → Recorder Taken
  unfolding take_elements release_mixer_pads
  take_participants ids = do
    udp_src_audio ←
        take_elements (λ i. i.udp_src_element_audio_map)
          (λ m i. record i { udp_src_element_audio_map = m }) ids
    udp_src_audio_length ← gets (λ s. length s.0.inner.udp_src_element_audio_map)
    udp_src_video ←
        take_elements (λ i. i.udp_src_element_video_map)
          (λ m i. record i { udp_src_element_video_map = m }) ids
    udp_src_video_length ← gets (λ s. length s.0.inner.udp_src_element_video_map)
    udp_rtcp_src_audio ←
        take_elements (λ i. i.udp_rtcp_src_element_audio_map)
          (λ m i. record i { udp_rtcp_src_element_audio_map = m }) ids
    queue_audio ←
        take_elements (λ i. i.queue_element_audio_map)
          (λ m i. record i { queue_element_audio_map = m }) ids
    opus_de_pay_audio ←
        take_elements (λ i. i.rtp_opus_de_pay_element_audio_map)
          (λ m i. record i { rtp_opus_de_pay_element_audio_map = m }) ids
    opus_dec_audio ←
        take_elements (λ i. i.opus_dec_element_audio_map)
          (λ m i. record i { opus_dec_element_audio_map = m }) ids
    udp_rtcp_sink_audio ←
        take_elements (λ i. i.udp_rtcp_sink_sink_element_audio_map)
          (λ m i. record i { udp_rtcp_sink_sink_element_audio_map = m }) ids
    release_mixer_pads ids
    udp_rtcp_src_video ←
        take_elements (λ i. i.udp_rtcp_src_element_video_map)
          (λ m i. record i { udp_rtcp_src_element_video_map = m }) ids
    queue_video ←
        take_elements (λ i. i.queue_element_vp8_video_map)
          (λ m i. record i { queue_element_vp8_video_map = m }) ids
    vp8_de_pay_video ←
        take_elements (λ i. i.rtp_vp8_de_pay_element_video_map)
          (λ m i. record i { rtp_vp8_de_pay_element_video_map = m }) ids
    vp8_dec_video ←
        take_elements (λ i. i.vp8_dec_element_video_map)
          (λ m i. record i { vp8_dec_element_video_map = m }) ids
    caps_video ←
        take_elements (λ i. i.caps_filter_element_video_map)
          (λ m i. record i { caps_filter_element_video_map = m }) ids
    video_scale ←
        take_elements (λ i. i.video_scale_element_video_map)
          (λ m i. record i { video_scale_element_video_map = m }) ids
    video_convert ←
        take_elements (λ i. i.video_convert_element_video_map)
          (λ m i. record i { video_convert_element_video_map = m }) ids
    pure (record {
      udp_src_audio = udp_src_audio;
      udp_src_video = udp_src_video;
      udp_rtcp_src_audio = udp_rtcp_src_audio;
      queue_audio = queue_audio;
      opus_de_pay_audio = opus_de_pay_audio;
      opus_dec_audio = opus_dec_audio;
      udp_rtcp_sink_audio = udp_rtcp_sink_audio;
      udp_rtcp_src_video = udp_rtcp_src_video;
      queue_video = queue_video;
      vp8_de_pay_video = vp8_de_pay_video;
      vp8_dec_video = vp8_dec_video;
      caps_video = caps_video;
      video_scale = video_scale;
      video_convert = video_convert;
      udp_src_audio_length = udp_src_audio_length;
      udp_src_video_length = udp_src_video_length;
    })
