-- ===== src/Sfu/Recording/Detach.antt =====
-- `close_all_producers_in_memory` of src/mediasoupv1/mod.rs, from `if remove_from_pipeline`: the
-- elements of the participants leave the maps and the pipeline of the meeting's recording.
use doordarshan_media_server.Base.{
  ℕ, String, ◌||◌, Option, none, some, List, [], ◌∷◌, ◌++◌, map, if◌then◌else◌, ltb, eqb, ok, err,
}
use doordarshan_media_server.Base.Lists.{contains}
use doordarshan_media_server.Base.Action.{◌>>=◌, ◌>>◌, pure, unwrap, gets}
use doordarshan_media_server.Sfu.Platform.{Platform, null, paused, playing}
use doordarshan_media_server.Sfu.Recording.Take.{Recorder, Taken, release_pads, take_participants}
use doordarshan_media_server.Base.Texts.{format}
use doordarshan_media_server.Sfu.Recording.{SessionMeta}

module _ (x : Platform) where
  open x use {
    World, Pipeline, Element, Pad, set_state, set_pipeline_state, remove_many, release_request_pad,
    clear_ssrc,
  }

  -- The list `remove_elements`, in the order of its extensions.
  unfoldable pub remove_elements : Taken x → List Element
  remove_elements t =
      t.udp_src_audio
      ++ (t.udp_src_video
          ++ (t.udp_rtcp_src_audio
              ++ (t.queue_audio
                  ++ (t.opus_de_pay_audio
                      ++ (t.opus_dec_audio
                          ++ (t.udp_rtcp_sink_audio
                              ++ (t.udp_rtcp_src_video
                                  ++ (t.queue_video
                                      ++ (t.vp8_de_pay_video
                                          ++ (t.vp8_dec_video
                                              ++ (t.caps_video
                                                  ++ (t.video_scale ++ (t.video_convert)))))))))))))

  -- `session_participant_meta_map.retain(..)`: the sessions of the participants, and the others.
  unfoldable pub retain_sessions :
      List String → List (ℕ × SessionMeta x) → List (ℕ × SessionMeta x) × List (ℕ × SessionMeta x)
  retain_sessions ids [] = ([], [])
  retain_sessions ids (entry ∷ entries) =
      let (gone, kept) = retain_sessions ids entries in
      if contains ids entry.1.participant_id then (entry ∷ gone, kept) else (gone, entry ∷ kept)

  unfoldable pub retain_participants : List String → Recorder x (List (ℕ × SessionMeta x))
  unfolding retain_sessions
  retain_participants ids (g, w) =
      let (gone, kept) = retain_sessions ids g.inner.session_participant_meta_map in
      (ok gone, (record g { inner = record g.inner { session_participant_meta_map = kept } }, w))

  -- `session_id_ssrc_map.remove(&session_id)`
  unfoldable pub take_ssrcs : ℕ → List (ℕ × List ℕ) → List ℕ × List (ℕ × List ℕ)
  take_ssrcs session [] = ([], [])
  take_ssrcs session ((id, ssrcs) ∷ entries) =
      let (found, kept) = take_ssrcs session entries in
      if eqb id session then (ssrcs, kept) else (found, (id, ssrcs) ∷ kept)

  unfoldable pub clear_ssrcs : Element → ℕ → List ℕ → World → World
  clear_ssrcs bin session [] w = w
  clear_ssrcs bin session (ssrc ∷ ssrcs) w =
      clear_ssrcs bin session ssrcs (clear_ssrc bin session ssrc w)

  unfoldable pub clear_sessions :
      Element → List ℕ → List (ℕ × List ℕ) → World → List (ℕ × List ℕ) × World
  unfolding take_ssrcs clear_ssrcs
  clear_sessions bin [] ssrc_map w = (ssrc_map, w)
  clear_sessions bin (session ∷ sessions) ssrc_map w =
      let (ssrcs, kept) = take_ssrcs session ssrc_map in
      clear_sessions bin sessions kept (clear_ssrcs bin session ssrcs w)

  -- The sessions leave the rtpbin: their sources are cleared, and then their pads are released.
  unfoldable pub unlink_sessions : List (ℕ × SessionMeta x) → Recorder x (Unit {0})
  unfolding clear_sessions release_pads
  unlink_sessions gone (g, w) = elim g.inner.rtp_bin_element [
    | none ↦ (err "RTP bin element not found", (g, w))
    | some bin ↦
        let (ssrc_map, w') =
          clear_sessions bin (map (λ e. e.0) gone) g.inner.session_id_ssrc_map w in
        let w'' = release_pads x bin (map (λ e. e.1.rtcp_sink_pad) gone) w' in
        (
          ok tt,
          (
            record g { inner = record g.inner { session_id_ssrc_map = ssrc_map } },
            release_pads x bin (map (λ e. e.1.rtp_sink_pad) gone) w'',
          ),
        )
  ]

  -- A call on the pipeline or an element; from the text of its failure, the error.
  unfoldable pub call : (World → Option String × World) → (String → String) → Recorder x (Unit {0})
  call f message (g, w) = elim (f w).0 [
    | none ↦ (ok tt, (g, (f w).1))
    | some e ↦ (err (message e), (g, (f w).1))
  ]

  unfoldable pub set_all_null : List Element → Recorder x (Unit {0})
  unfolding call
  set_all_null [] = pure tt
  set_all_null (e ∷ es) = do
    call (set_state e null) (λ e. format ("Failed to set element to Null: " ∷ e ∷ []))
    set_all_null es

  unfoldable pub set_playing_again : Pipeline → Taken x → Recorder x (Unit {0})
  unfolding call
  set_playing_again p t =
      if ltb 0 t.udp_src_audio_length || ltb 0 t.udp_src_video_length
      then call (set_pipeline_state p playing) (λ e. "Failed to set pipeline to Playing")
      else pure tt

  abbrev removing : String → String → String
  removing what e = format ("Failed to remove " ∷ what ∷ " from pipeline: " ∷ e ∷ [])

  -- The removal as a whole. Where it returns an error, what it has taken is gone from the maps.
  unfoldable pub detach : List String → Recorder x (Unit {0})
  unfolding take_participants remove_elements retain_participants unlink_sessions call set_all_null
      set_playing_again
  detach ids = do
    p ← unwrap (← gets (λ s. s.0.pipeline))
    t ← take_participants x ids
    gone ← retain_participants ids
    call (set_pipeline_state p paused) (λ e. "Failed to pause pipeline")
    set_all_null (remove_elements t)
    call (remove_many p t.udp_src_audio) (removing "udp_src_elements")
    call (remove_many p t.udp_rtcp_src_audio) (removing "udp_rtcp_src_elements")
    unlink_sessions gone
    call (remove_many p t.udp_rtcp_sink_audio) (removing "udp_rtcp_sink_sink_elements")
    call (remove_many p t.queue_audio) (removing "queue_elements")
    call (remove_many p t.opus_de_pay_audio) (removing "rtp_opus_de_pay_elements")
    call (remove_many p t.opus_dec_audio) (removing "opus_dec_elements")
    call (remove_many p t.udp_src_video) (removing "udp_src_elements_video")
    call (remove_many p t.udp_rtcp_src_video) (removing "udp_rtcp_src_elements_video")
    call (remove_many p t.queue_video) (removing "queue_elements_video")
    call (remove_many p t.vp8_de_pay_video) (removing "rtp_vp8_de_pay_elements_video")
    call (remove_many p t.vp8_dec_video) (removing "vp8_dec_elements_video")
    call (remove_many p t.caps_video) (removing "caps_elements_video")
    call (remove_many p t.video_scale) (removing "video_scale_elements_video")
    call (remove_many p t.video_convert) (removing "video_convert_elements_video")
    set_playing_again p t
