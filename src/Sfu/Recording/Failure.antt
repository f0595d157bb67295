-- ===== src/Sfu/Recording/Failure.antt =====
-- `handle_udp_src_failure` of src/gstreamer/mod.rs: the sources of a participant leave a recording.
use doordarshan_media_server.Base.{
  ℕ, String, ◌&&◌, Option, none, some, List, [], ◌∷◌, map, if◌then◌else◌, ◌==◌,
}
use doordarshan_media_server.Base.Dict.{Dict, lookup, remove}
use doordarshan_media_server.Base.Action.{◌>>=◌, ◌>>◌, pure, gets, modify, unwrap}
use doordarshan_media_server.Sfu.Platform.{Platform, null}
use doordarshan_media_server.Sfu.Recording.{Inner, SessionMeta}
use doordarshan_media_server.Sfu.Recording.Take.{Recorder, release_pads}
use doordarshan_media_server.Sfu.Recording.Elements.{change_inner}

module _ (x : Platform) where
  open x use {World, Pipeline, Element, Pad}

  -- The sessions of a participant's media, and the others.
  unfoldable pub split_sessions :
      String
      → String
      → List (ℕ × SessionMeta x)
      → List (ℕ × SessionMeta x) × List (ℕ × SessionMeta x)
  split_sessions participant_id media [] = ([], [])
  split_sessions participant_id media (entry ∷ entries) =
      let (gone, kept) = split_sessions participant_id media entries in
      if participant_id == entry.1.participant_id && media == entry.1.media
      then (entry ∷ gone, kept)
      else (gone, entry ∷ kept)

  -- The element of the participant leaves a map, if it is there.
  unfoldable pub take_source :
      (Inner x → Dict Element)
      → (Dict Element → Inner x → Inner x)
      → String
      → Recorder x (Option Element)
  take_source get put participant_id = do
    found ← gets (λ s. lookup participant_id (get s.0.inner))
    change_inner x (λ inner. put (remove participant_id (get inner)) inner)
    pure found

  unfoldable pub take_udp_src : String → String → Recorder x (Option Element)
  take_udp_src participant_id media =
      if media == "audio"
      then take_source (λ inner. inner.udp_src_element_audio_map)
          (λ m inner. record inner { udp_src_element_audio_map = m }) participant_id
      else take_source (λ inner. inner.udp_src_element_video_map)
          (λ m inner. record inner { udp_src_element_video_map = m }) participant_id

  unfoldable pub take_udp_rtcp : String → String → Recorder x (Option Element)
  take_udp_rtcp participant_id media =
      if media == "audio"
      then take_source (λ inner. inner.udp_rtcp_src_element_audio_map)
          (λ m inner. record inner { udp_rtcp_src_element_audio_map = m }) participant_id
      else take_source (λ inner. inner.udp_rtcp_src_element_video_map)
          (λ m inner. record inner { udp_rtcp_src_element_video_map = m }) participant_id

  unfoldable pub take_sessions : String → String → Recorder x (List (ℕ × SessionMeta x))
  take_sessions participant_id media = do
    gone ←
        gets (λ s. (split_sessions participant_id media s.0.inner.session_participant_meta_map).0)
    change_inner x λ inner. record inner {
      session_participant_meta_map =
          (split_sessions participant_id media inner.session_participant_meta_map).1;
    }
    pure gone

  -- An element is stopped and leaves the pipeline; failures are only logged.
  unfoldable pub drop_element : Pipeline → Option Element → World → World
  drop_element pipeline none w = w
  drop_element pipeline (some e) w = (x.remove pipeline e (x.set_state e null w).1).1

  -- The calls at the end, none of which can fail.
  unfoldable pub release_sources :
      Pipeline
      → Element
      → Option Element
      → Option Element
      → List (ℕ × SessionMeta x)
      → World
      → World
  release_sources pipeline bin udp_src udp_rtcp gone w =
      let dropped =
        drop_element pipeline udp_rtcp (drop_element pipeline udp_src (x.abort_state pipeline w)) in
      release_pads x bin (map (λ e. e.1.rtp_sink_pad) gone)
        (release_pads x bin (map (λ e. e.1.rtcp_sink_pad) gone) dropped)

  -- A recording with no rtpbin or no pipeline panics.
  unfoldable pub handle_udp_src_failure : String → String → Recorder x (Unit {0})
  handle_udp_src_failure participant_id media = do
    udp_src ← take_udp_src participant_id media
    udp_rtcp ← take_udp_rtcp participant_id media
    bin ← unwrap (← gets (λ s. s.0.inner.rtp_bin_element))
    gone ← take_sessions participant_id media
    pipeline ← unwrap (← gets (λ s. s.0.pipeline))
    modify (λ s. (s.0, release_sources pipeline bin udp_src udp_rtcp gone s.1))
