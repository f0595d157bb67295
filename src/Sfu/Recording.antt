-- ===== src/Sfu/Recording.antt =====
-- The recording of a meeting, `Gstreamer` and its `Inner` of src/gstreamer/mod.rs, and the part of
-- `close_all_producers_in_memory` of src/mediasoupv1/mod.rs that takes participants out of it.
pub mod Take
pub mod Detach
pub mod Elements
pub mod Shared
pub mod Audio
pub mod Video
pub mod Failure
pub mod Triples
pub mod Stuck
use doordarshan_media_server.Base.{ℕ, String, Option, none, some, List, [], ◌∷◌}
use doordarshan_media_server.Base.Dict.{Dict, lookup, remove}
use doordarshan_media_server.Sfu.Platform.{Platform, null}

module _ (x : Platform) where
  open x use {World, Pipeline, Element, Pad, set_state}

  -- `ParticipantSessionMeta`
  pub record SessionMeta : Type 0 where
    pub meeting_id : String
    pub participant_id : String
    pub media : String
    pub port : ℕ
    pub rtp_sink_pad : Pad
    pub rtcp_sink_pad : Pad

  -- The fields of `Inner` that the starts of a recording and the removal of a participant read or
  -- write. Sessions are numbered.
  pub record Inner : Type 0 where
    pub udp_src_element_audio_map : Dict Element
    pub udp_rtcp_src_element_audio_map : Dict Element
    pub udp_rtcp_sink_sink_element_audio_map : Dict Element
    pub queue_element_audio_map : Dict Element
    pub rtp_opus_de_pay_element_audio_map : Dict Element
    pub opus_dec_element_audio_map : Dict Element
    pub audio_mixed_pad_map : Dict Pad
    pub udp_src_element_video_map : Dict Element
    pub udp_rtcp_src_element_video_map : Dict Element
    pub queue_element_vp8_video_map : Dict Element
    pub rtp_vp8_de_pay_element_video_map : Dict Element
    pub vp8_dec_element_video_map : Dict Element
    pub caps_filter_element_video_map : Dict Element
    pub video_scale_element_video_map : Dict Element
    pub video_convert_element_video_map : Dict Element
    pub opus_enc_element_audio : Option Element
    pub video_compositor_element : Option Element
    pub video_scale_post_compositor_element : Option Element
    pub caps_filter_post_compositor_element : Option Element
    pub x264_encode_element_video : Option Element
    pub split_mux_sink_element : Option Element
    pub split_mux_sink_video_pad : Option Pad
    pub audio_mixer_element : Option Element
    pub rtp_bin_element : Option Element
    pub session_participant_meta_map : List (ℕ × SessionMeta)
    pub session_id_ssrc_map : List (ℕ × List ℕ)

  pub record Gstreamer : Type 0 where
    pub inner : Inner
    pub pipeline : Option Pipeline
    pub handler_id : Option x.SignalHandlerId
    pub meeting_id : Option String
    pub participant_id : Option String

  -- `for id in &participant_ids { if let Some(value) = map.remove(id) { .. push(value) } }`
  unfoldable pub take_all {ℓ} : {V : Type ℓ} → List String → Dict V → List V × Dict V
  take_all [] m = ([], m)
  take_all (id ∷ ids) m =
      let (values, rest) = take_all ids (remove id m) in
      elim (lookup id m) [ none ↦ (values, rest) | some v ↦ (v ∷ values, rest) ]

  -- `value.set_state(Null)` on each element; a failure is only logged.
  unfoldable pub null_all : List Element → World → World
  null_all [] w = w
  null_all (e ∷ es) w = null_all es (set_state e null w).1

  -- `Gstreamer::new`
  abbrev pub new_gstreamer : Gstreamer
  new_gstreamer = record {
    inner = record {
      udp_src_element_audio_map = [];
      udp_rtcp_src_element_audio_map = [];
      udp_rtcp_sink_sink_element_audio_map = [];
      queue_element_audio_map = [];
      rtp_opus_de_pay_element_audio_map = [];
      opus_dec_element_audio_map = [];
      audio_mixed_pad_map = [];
      udp_src_element_video_map = [];
      udp_rtcp_src_element_video_map = [];
      queue_element_vp8_video_map = [];
      rtp_vp8_de_pay_element_video_map = [];
      vp8_dec_element_video_map = [];
      caps_filter_element_video_map = [];
      video_scale_element_video_map = [];
      video_convert_element_video_map = [];
      opus_enc_element_audio = none;
      video_compositor_element = none;
      video_scale_post_compositor_element = none;
      caps_filter_post_compositor_element = none;
      x264_encode_element_video = none;
      split_mux_sink_element = none;
      split_mux_sink_video_pad = none;
      audio_mixer_element = none;
      rtp_bin_element = none;
      session_participant_meta_map = [];
      session_id_ssrc_map = [];
    };
    pipeline = none;
    handler_id = none;
    meeting_id = none;
    participant_id = none;
  }
