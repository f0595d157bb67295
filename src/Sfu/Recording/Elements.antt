-- ===== src/Sfu/Recording/Elements.antt =====
-- The calls of GStreamer that src/gstreamer/mod.rs makes to start a recording, each with the text of
-- its failure. Counters of failures are left out.
use doordarshan_media_server.Base.{
  ℕ, String, Bool, true, false, Option, none, some, List, [], ◌∷◌, ok, if◌then◌else◌, eqb,
}
use doordarshan_media_server.Base.Texts.{format, display}
use doordarshan_media_server.Base.Action.{◌>>=◌, pure, fail, gets, modify, map_err, unwrap}
use doordarshan_media_server.Sfu.Platform.{Platform, Property}
use doordarshan_media_server.Sfu.Recording.{Inner, Gstreamer, SessionMeta}
use doordarshan_media_server.Sfu.Recording.Take.{Recorder}
use doordarshan_media_server.Sfu.Recording.Detach.{call}

module _ (x : Platform) where
  open x use {World, Pipeline, Element, Pad}

  -- `udpsrc_rtp_audio_{participant}_{timestamp}` and the like.
  abbrev pub named : String → ℕ → String
  named prefix timestamp = format (prefix ∷ display timestamp ∷ [])

  abbrev pub named_for : String → String → ℕ → String
  named_for prefix participant_id timestamp =
      format (prefix ∷ participant_id ∷ "_" ∷ display timestamp ∷ [])

  unfoldable pub seconds : Recorder x ℕ
  seconds = gets (λ s. x.seconds s.1)

  -- A failure to make an element is told by its factory.
  unfoldable pub make_element :
      String → String → List (String × Property Element) → Recorder x Element
  make_element factory name properties (g, w) =
      let r = x.make factory name properties w in
      map_err (λ _. format ("Failed to create " ∷ factory ∷ " element" ∷ [])) (λ s. (r.0, s))
        (g, r.1)

  unfoldable pub set_property : Element → String → Property Element → Recorder x (Unit {0})
  set_property e name value (g, w) = (ok tt, (g, x.set_property e name value w))

  unfoldable pub change_inner : (Inner x → Inner x) → Recorder x (Unit {0})
  change_inner f = modify (λ s. (record s.0 { inner = f s.0.inner }, s.1))

  -- A call that must not fail, with the text of its failure.
  unfoldable pub attempt : (World → Option String × World) → String → Recorder x (Unit {0})
  attempt f message = call x f (λ _. message)

  unfoldable pub pad_or : String → Option Pad → Recorder x Pad
  pad_or message none = fail message
  pad_or message (some pad) = pure pad

  unfoldable pub static_pad : Element → String → String → Recorder x Pad
  static_pad e name message (g, w) = pad_or message (x.static_pad e name w) (g, w)

  unfoldable pub request_pad : Element → String → String → Recorder x Pad
  request_pad e name message (g, w) =
      let r = x.request_pad_simple e name w in pad_or message r.0 (g, r.1)

  unfoldable pub get_pipeline_from : Option Pipeline → Recorder x Pipeline
  get_pipeline_from (some pipeline) = pure pipeline
  get_pipeline_from none = λ s. let r = x.new_pipeline "Pipeline" s.1 in (ok r.0, (s.0, r.1))

  -- The pipeline of the recording, or a new one; it is not kept yet.
  unfoldable pub get_pipeline : Recorder x Pipeline
  get_pipeline s = get_pipeline_from s.0.pipeline s

  unfoldable pub shared_from : Option Element → Recorder x Element → Recorder x (Element × Bool)
  shared_from (some e) make = pure (e, false)
  shared_from none make = do e ← make; pure (e, true)

  -- An element that the participants of a recording share: the one that is kept, or a new one, and
  -- whether it is new.
  unfoldable pub shared :
      (Inner x → Option Element) → Recorder x Element → Recorder x (Element × Bool)
  shared get make s = shared_from (get s.0.inner) make s

  -- Elements that belong together: all are new and are added, or none is.
  unfoldable pub add_together :
      Pipeline → Bool → Bool → List Element → String → String → Recorder x (Unit {0})
  add_together pipeline all any elements failure mixed =
      if all
      then attempt (x.add_many pipeline elements) failure
      else if any
      then fail mixed
      else pure tt

  unfoldable pub add_new : Pipeline → Element × Bool → String → Recorder x (Unit {0})
  add_new pipeline e failure = if e.1 then attempt (x.add pipeline e.0) failure else pure tt

  -- `HashMap<u32, _>::insert`
  unfoldable pub insert_session :
      ℕ → SessionMeta x → List (ℕ × SessionMeta x) → List (ℕ × SessionMeta x)
  insert_session key value [] = (key, value) ∷ []
  insert_session key value (entry ∷ entries) =
      if eqb entry.0 key then (key, value) ∷ entries else entry ∷ insert_session key value entries

  -- The session of a pad of the rtpbin is noted; a name with no number panics.
  unfoldable pub note_session : Pad → SessionMeta x → Recorder x (Unit {0})
  note_session pad meta = do
    session ← unwrap (x.pad_session pad)
    change_inner λ inner. record inner {
      session_participant_meta_map = insert_session session meta inner.session_participant_meta_map;
    }

  -- The end of both starts: the pipeline is kept, and a new rtpbin gets its handler.
  unfoldable pub finish_recording : Pipeline → Element × Bool → Recorder x (Unit {0})
  finish_recording pipeline rtp_bin (g, w) =
      let kept : Gstreamer x = record g { pipeline = some pipeline } in
      if rtp_bin.1
      then (
        ok tt,
        (
          record kept { handler_id = some (x.connect_pad_added rtp_bin.0 w).0 },
          (x.connect_pad_added rtp_bin.0 w).1,
        ),
      )
      else (ok tt, (kept, w))
