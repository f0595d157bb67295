-- ===== src/Sfu/Recording/Stuck.antt =====
-- A recording of src/gstreamer/mod.rs whose start failed between two elements that belong together.
use doordarshan_media_server.Base.{
  ℕ, ◌≡◌, ◌≢◌, refl, String, Bool, true, false, ◌&&◌, ◌||◌, Option, none, some, List, Outcome, ok,
  err, panic,
}
use doordarshan_media_server.Base.Action.{◌>>=◌, resume, map_err}
use doordarshan_media_server.Sfu.Platform.{Platform}
use doordarshan_media_server.Sfu.Recording.{Gstreamer}
use doordarshan_media_server.Sfu.Recording.Take.{Recorder}
use doordarshan_media_server.Sfu.Recording.Elements.{
  seconds, make_element, set_property, change_inner, get_pipeline, get_pipeline_from, shared,
  shared_from, add_together,
}
use doordarshan_media_server.Sfu.Recording.Shared.{rtp_bin, audio_mixer, opus_enc}
use doordarshan_media_server.Sfu.Recording.Audio.{
  AudioElements, audio_source, audio_control, audio_sink, audio_sources, audio_elements, add_audio,
  start_audio_recording_gstreamer,
}
use doordarshan_media_server.Sfu.Recording.Triples.{
  State, After, Gives, After-all, After-map, Gives-bind, Gives-same,
}

module _ (x : Platform) (mixer : x.Element) where
  -- The mixer is kept, and the encoder is not.
  abbrev pub IsHalf : State x → Type 0
  IsHalf s =
      (s.0.inner.audio_mixer_element ≡ some mixer) × (s.0.inner.opus_enc_element_audio ≡ none)

  abbrev Frames : {A : Type 0} → Recorder x A → Type 0
  Frames m = (s : State x) → IsHalf s → IsHalf (m s).1

  resume-Frames :
      {A B : Type 0} (f : A → Recorder x B) (o : Outcome String A) (s : State x)
      → IsHalf s
      → ((a : A) → Frames (f a))
      → IsHalf (resume f (o, s)).1
  resume-Frames f (ok a) s h k = k a s h
  resume-Frames f (err e) s h k = h
  resume-Frames f panic s h k = h

  Frames-bind :
      {A B : Type 0} (m : Recorder x A) (f : A → Recorder x B)
      → Frames m
      → ((a : A) → Frames (f a))
      → Frames (m >>= f)
  unfolding ◌>>=◌
  Frames-bind m f h k s p = resume-Frames f (m s).0 (m s).1 (h s p) k

  Frames-Gives : {A : Type 0} (m : Recorder x A) → Frames m → Gives x IsHalf m (λ _. IsHalf)
  Frames-Gives m h s p = After-all x (λ _. IsHalf) (m s).0 (m s).1 (λ _. h s p)

  make_element-Frames : (f n : String) (ps : _) → Frames (make_element x f n ps)
  unfolding make_element map_err
  make_element-Frames f n ps s h = h

  get_pipeline_from-Frames : (o : Option x.Pipeline) → Frames (get_pipeline_from x o)
  unfolding get_pipeline_from
  get_pipeline_from-Frames (some p) = λ s h. h
  get_pipeline_from-Frames none = λ s h. h

  audio_source-Frames : (port : ℕ) (p : String) (t : ℕ) → Frames (audio_source x port p t)
  unfolding audio_source set_property change_inner
  audio_source-Frames port p t = Frames-bind _ _ (make_element-Frames _ _ _) λ rtp.
      Frames-bind _ _ (λ s h. h)
        λ _.
          Frames-bind _ _ (λ s h. h)
            λ _.
              Frames-bind _ _ (λ s h. h)
                λ _. Frames-bind _ _ (λ s h. h) λ _. Frames-bind _ _ (λ s h. h) λ _ s h. h

  audio_control-Frames : (port : ℕ) (p : String) (t : ℕ) → Frames (audio_control x port p t)
  unfolding audio_control set_property change_inner
  audio_control-Frames port p t = Frames-bind _ _ (make_element-Frames _ _ _) λ rtcp.
      Frames-bind _ _ (λ s h. h)
        λ _.
          Frames-bind _ _ (λ s h. h)
            λ _. Frames-bind _ _ (λ s h. h) λ _. Frames-bind _ _ (λ s h. h) λ _ s h. h

  audio_sink-Frames : (port : ℕ) (p : String) (t : ℕ) → Frames (audio_sink x port p t)
  unfolding audio_sink set_property
  audio_sink-Frames port p t = Frames-bind _ _ (make_element-Frames _ _ _) λ sink.
      Frames-bind _ _ (λ s h. h)
        λ _. Frames-bind _ _ (λ s h. h) λ _. Frames-bind _ _ (λ s h. h) λ _ s h. h

  audio_sources-Frames : (port : ℕ) (p : String) (t : ℕ) → Frames (audio_sources x port p t)
  unfolding audio_sources
  audio_sources-Frames port p t = Frames-bind _ _ (audio_source-Frames port p t) λ rtp.
      Frames-bind _ _ (audio_control-Frames port p t)
        λ rtcp. Frames-bind _ _ (audio_sink-Frames port p t) λ _ s h. h

  shared_from-Frames :
      (o : Option x.Element) (make : Recorder x x.Element)
      → Frames make
      → Frames (shared_from x o make)
  unfolding shared_from
  shared_from-Frames (some e) make h = λ s p. p
  shared_from-Frames none make h = Frames-bind _ _ h λ e s p. p

  rtp_bin-Frames : (name : String) (t : ℕ) → Frames (rtp_bin x name t)
  unfolding rtp_bin shared set_property change_inner
  rtp_bin-Frames name t s =
      shared_from-Frames s.0.inner.rtp_bin_element _
        (Frames-bind _ _ (make_element-Frames _ _ _)
          λ e. Frames-bind _ _ (λ s h. h) λ _. Frames-bind _ _ (λ s h. h) λ _ s h. h)
        s

  audio_mixer-old : (t : ℕ) → Gives x IsHalf (audio_mixer x t) (λ r s. (r.1 ≡ false) × IsHalf s)
  unfolding audio_mixer shared shared_from
  audio_mixer-old t s h = rw h.0 (refl, (refl, h.1))

  opus_enc-new : Gives x IsHalf (opus_enc x) (λ r s. r.1 ≡ true)
  unfolding opus_enc shared shared_from
  opus_enc-new s h = rw h.1 (
      Gives-bind x (λ _. Unit {0}) (λ _ _. Unit {0}) (λ r s. r.1 ≡ true) _ _
        (Gives-same x (Unit {0}) _) (λ e s _. refl) _ tt)

  unlike_elements :
      (port : ℕ) (m p : String) (t : ℕ)
      → Gives x IsHalf
          (audio_elements x port m p t)
          (λ e s. (e.mixer.1 ≡ false) × (e.encoder.1 ≡ true))
  unfolding audio_elements
  unlike_elements port m p t =
      Gives-bind x IsHalf (λ _. IsHalf) _ _ _ (Frames-Gives _ (audio_sources-Frames port p t))
        λ sources.
          Gives-bind x IsHalf (λ _. IsHalf) _ _ _ (Frames-Gives _ (rtp_bin-Frames _ t))
            λ bin.
              Gives-bind x IsHalf (λ r s. (r.1 ≡ false) × IsHalf s) _ _ _ (audio_mixer-old t)
                λ mixer.
                  Gives-bind x _ (λ r _. (mixer.1 ≡ false) × (r.1 ≡ true)) _ _ _
                    (λ s h.
                      After-map x (λ r s. r.1 ≡ true) _ (opus_enc x s).0 (opus_enc x s).1
                        (λ r new. (h.0, new)) (opus_enc-new s h.1))
                    λ encoder.
                      Gives-bind x _ (λ _ _. (mixer.1 ≡ false) × (encoder.1 ≡ true)) _ _ _
                        (Gives-same x _ _)
                        λ video.
                          Gives-bind x _ (λ _ _. (mixer.1 ≡ false) × (encoder.1 ≡ true)) _ _ _
                            (Gives-same x _ _) λ sink s h. h

  mixed :
      (a b : Bool) (failure told : String) (pipeline : x.Pipeline) (es : List x.Element)
      (s : State x)
      → a ≡ false
      → b ≡ true
      → After x
          (λ _ _. ⊥)
          (add_together x pipeline (a && b) (a || b) es failure told s).0
          (add_together x pipeline (a && b) (a || b) es failure told s).1
  unfolding add_together
  mixed false true failure told pipeline es s h k = tt
  mixed true b failure told pipeline es s h k = absurd cc
  mixed false false failure told pipeline es s h k = absurd cc

  add_audio-mixed :
      (pipeline : x.Pipeline) (e : AudioElements x)
      → Gives x
          (λ _. (e.mixer.1 ≡ false) × (e.encoder.1 ≡ true))
          (add_audio x pipeline e)
          (λ _ _. ⊥)
  unfolding add_audio
  add_audio-mixed pipeline e =
      let P : Type 0 = (e.mixer.1 ≡ false) × (e.encoder.1 ≡ true) in
      Gives-bind x (λ _. P) (λ _ _. P) _ _ _ (Gives-same x P _)
        λ _.
          Gives-bind x (λ _. P) (λ _ _. P) _ _ _ (Gives-same x P _)
            λ _.
              Gives-bind x (λ _. P) (λ _ _. P) _ _ _ (Gives-same x P _)
                λ _.
                  Gives-bind x (λ _. P) (λ _ _. ⊥) _ _ _
                    (λ s h. mixed e.mixer.1 e.encoder.1 _ _ pipeline _ s h.0 h.1) λ _ s h. absurd h

  started_never :
      (port : ℕ) (m p : String)
      → Gives x IsHalf (start_audio_recording_gstreamer x port m p) (λ _ _. ⊥)
  unfolding start_audio_recording_gstreamer get_pipeline seconds
  started_never port m p =
      Gives-bind x IsHalf (λ _. IsHalf) _ _ _ (λ s h. h)
        λ _.
          Gives-bind x IsHalf (λ _. IsHalf) _ _ _
            (Frames-Gives _ (λ s h. get_pipeline_from-Frames s.0.pipeline s h))
            λ pipeline.
              Gives-bind x IsHalf (λ _. IsHalf) _ _ _ (λ s h. h)
                λ t.
                  Gives-bind x IsHalf (λ e _. (e.mixer.1 ≡ false) × (e.encoder.1 ≡ true)) _ _ _
                    (unlike_elements port m p t)
                    λ e.
                      Gives-bind x _ (λ _ _. ⊥) _ _ _ (add_audio-mixed pipeline e) λ _ s h. absurd h

  never_ok : (o : Outcome String (Unit {0})) (s : State x) → After x (λ _ _. ⊥) o s → o ≢ ok tt
  never_ok (ok a) s h e = h
  never_ok (err e') s h e = absurd cc
  never_ok panic s h e = absurd cc

  -- Of a recording that keeps an audio mixer and no encoder for it, whatever else it keeps and
  -- whatever GStreamer answers, the start of an audio never returns a success.
  pub start_audio-ne-ok :
      (port : ℕ) (meeting_id participant_id : String) (g : Gstreamer x) (w : x.World)
      → g.inner.audio_mixer_element ≡ some mixer
      → g.inner.opus_enc_element_audio ≡ none
      → (start_audio_recording_gstreamer x port meeting_id participant_id (g, w)).0 ≢ ok tt
  start_audio-ne-ok port m p g w kept missing =
      let r = start_audio_recording_gstreamer x port m p (g, w) in
      never_ok r.0 r.1 (started_never port m p (g, w) (kept, missing))
