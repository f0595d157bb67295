-- ===== src/Sfu/Producing/Media.antt =====
-- Recording and piping a producer, src/mediasoupv1/mod.rs, leave the producers and the consumers in
-- memory alone.
use doordarshan_media_server.Base.{
  ℕ, zero, suc, ◌+◌, refl, String, Bool, true, false, Option, none, some, List, [], ◌∷◌, Outcome,
  if◌then◌else◌, ltb,
}
use doordarshan_media_server.Base.Dict.{Dict, lookup}
use doordarshan_media_server.Base.Action.{pure, fail, unwrap}
use doordarshan_media_server.Sfu.Platform.{Platform}
use doordarshan_media_server.Sfu.Kind.{Kind, audio, video, screen_share}
use doordarshan_media_server.Sfu.Server.{RouterInMemory, Server, Handler, on_world}
use doordarshan_media_server.Sfu.Transports.Media.{SameMedia, Keeps, Keeps-bind, Keeps-map_err}
use doordarshan_media_server.Sfu.Ports.{
  udp_bind, scan_ports, get_free_port, get_free_video_port, get_free_audio_port,
}
use doordarshan_media_server.Sfu.Recording.{Inner, Gstreamer}
use doordarshan_media_server.Sfu.Recording.Take.{Recorder}
use doordarshan_media_server.Sfu.Producing.{
  Production, create_folder_if, create_folder, record_producer, router_of, record_if, pipe_to,
  pipe_producer,
}
use doordarshan_media_server.Sfu.Producing.Started.{
  found_recording, shown, on_recording, start_media, set_playing, recover, finish_recording,
  start_recording,
}

module _ (x : Platform) where
  pub if-Keeps :
      {A : Type 0} (b : Bool) (f g : Handler x A)
      → Keeps x f
      → Keeps x g
      → Keeps x (if b then f else g)
  if-Keeps true f g hf hg = hf
  if-Keeps false f g hf hg = hg

  on_world-Keeps : {A : Type 0} (f : x.World → Outcome String A × x.World) → Keeps x (on_world x f)
  unfolding on_world
  on_world-Keeps f s = (refl, refl)

  pub unwrap-Keeps : {A : Type 0} (o : Option A) → Keeps x (unwrap o)
  unwrap-Keeps none s = (refl, refl)
  unwrap-Keeps (some a) s = (refl, refl)

  scan_ports-Keeps : (fuel port last : ℕ) → Keeps x (scan_ports x fuel port last)
  unfolding scan_ports udp_bind
  scan_ports-Keeps zero port last = λ s. (refl, refl)
  scan_ports-Keeps (suc fuel) port last =
      if-Keeps (ltb port last) _ (fail "No free ports available for recording")
        (Keeps-bind x _
          (λ is_free. if is_free then pure port else scan_ports x fuel (port + 2) last)
          (λ s. (refl, refl))
          (λ is_free.
            if-Keeps is_free (pure port) (scan_ports x fuel (port + 2) last) (λ s. (refl, refl))
              (scan_ports-Keeps fuel (port + 2) last)))
        (λ s. (refl, refl))

  get_free_video_port-Keeps : Keeps x (get_free_video_port x)
  unfolding get_free_video_port get_free_port
  get_free_video_port-Keeps s = scan_ports-Keeps _ _ _ s

  get_free_audio_port-Keeps : Keeps x (get_free_audio_port x)
  unfolding get_free_audio_port get_free_port
  get_free_audio_port-Keeps s = scan_ports-Keeps _ _ _ s

  shown-SameMedia :
      (m : String) (found : Gstreamer x × Bool) (inner : Inner x) (s t : Server x)
      → SameMedia x s t
      → SameMedia x s (shown x m found inner t)
  shown-SameMedia m (g, true) inner s t h = h
  shown-SameMedia m (g, false) inner s t h = h

  on_recording-Keeps :
      (m : String) (found : Gstreamer x × Bool) (g : Gstreamer x) (f : Recorder x (Unit {0}))
      → Keeps x (on_recording x m found g f)
  unfolding on_recording
  on_recording-Keeps m found g f s =
      let r = f (g, s.world) in
      shown-SameMedia m found r.1.0.inner s (record s { world = r.1.1 }) (refl, refl)

  found_recording-Keeps : (o : Option (Option (Gstreamer x))) → Keeps x (found_recording x o)
  unfolding found_recording
  found_recording-Keeps none s = (refl, refl)
  found_recording-Keeps (some none) s = (refl, refl)
  found_recording-Keeps (some (some g)) s = (refl, refl)

  start_media-Keeps :
      (m p : String) (kind : Kind) (found : Gstreamer x × Bool)
      → Keeps x (start_media x m p kind found)
  unfolding start_media
  start_media-Keeps m p audio found =
      Keeps-bind x _ _ (Keeps-map_err x _ _ get_free_audio_port-Keeps) λ port.
        Keeps-bind x _ _ (Keeps-map_err x _ _ (on_recording-Keeps m found found.0 _))
          (λ g s. (refl, refl))
  start_media-Keeps m p video found =
      Keeps-bind x _ _ (Keeps-map_err x _ _ get_free_video_port-Keeps) λ port.
        Keeps-bind x _ _ (Keeps-map_err x _ _ (on_recording-Keeps m found found.0 _))
          (λ g s. (refl, refl))
  start_media-Keeps m p screen_share found =
      Keeps-bind x _ _ (Keeps-map_err x _ _ get_free_video_port-Keeps) λ port.
        Keeps-bind x _ _ (Keeps-map_err x _ _ (on_recording-Keeps m found found.0 _))
          (λ g s. (refl, refl))

  recover-Keeps :
      (m p : String) (kind : Kind) (found : Gstreamer x × Bool) (g : Gstreamer x)
      (pipeline : x.Pipeline)
      → Keeps x (recover x m p kind found g pipeline)
  unfolding recover set_playing
  recover-Keeps m p kind (g, false) started pipeline = λ s. (refl, refl)
  recover-Keeps m p kind (g, true) started pipeline =
      Keeps-bind x _ _ (on_recording-Keeps m (g, true) _ _)
        (λ _. Keeps-bind x _ _ (λ s. (refl, refl)) (λ _ s. (refl, refl)))

  finish_recording-Keeps :
      (m p : String) (kind : Kind) (found : Gstreamer x × Bool) (started : Gstreamer x × ℕ)
      (pipeline : x.Pipeline) (o : Option String)
      → Keeps x (finish_recording x m p kind found started pipeline o)
  unfolding finish_recording
  finish_recording-Keeps m p kind found started pipeline none = λ s. (refl, refl)
  finish_recording-Keeps m p kind found started pipeline (some e) =
      Keeps-bind x _ _ (recover-Keeps m p kind found started.0 pipeline) (λ _ s. (refl, refl))

  start_recording-Keeps : (m p : String) (kind : Kind) → Keeps x (start_recording x m p kind)
  unfolding start_recording set_playing
  start_recording-Keeps m p kind =
      Keeps-bind x _ _ (λ s. (refl, refl))
        λ map. Keeps-bind x _ _ (found_recording-Keeps (lookup m map)) λ found.
          Keeps-bind x _ _ (start_media-Keeps m p kind found) λ started.
            Keeps-bind x _ _ (unwrap-Keeps started.0.pipeline) λ pipeline.
              Keeps-bind x _ _ (λ s. (refl, refl))
                λ o. finish_recording-Keeps m p kind found started pipeline o

  create_folder_if-Keeps : (path : String) (b : Bool) → Keeps x (create_folder_if x path b)
  unfolding create_folder_if
  create_folder_if-Keeps path true = λ s. (refl, refl)
  create_folder_if-Keeps path false =
      Keeps-bind x _ _ (Keeps-map_err x _ _ (on_world-Keeps (x.create_dir_all path)))
        (λ _ s. (refl, refl))

  create_folder-Keeps : (m : String) → Keeps x (create_folder x m)
  unfolding create_folder
  create_folder-Keeps m s = create_folder_if-Keeps _ _ s

  record_producer-Keeps :
      (p : Production) (kind : Kind) (producer : x.Producer) (router : x.Router)
      → Keeps x (record_producer x p kind producer router)
  unfolding record_producer
  record_producer-Keeps p kind producer router =
      Keeps-bind x _ _ (Keeps-map_err x _ _ (on_world-Keeps _)) λ transport.
        Keeps-bind x _ _ (Keeps-map_err x _ _ (create_folder-Keeps p.meeting_id)) λ _.
          Keeps-bind x _ _ (Keeps-map_err x _ _ (start_recording-Keeps _ _ kind)) λ started.
            Keeps-bind x _ _ (Keeps-map_err x _ _ (on_world-Keeps _)) λ _.
              Keeps-bind x _ _ (Keeps-map_err x _ _ (on_world-Keeps _)) λ consumer.
                Keeps-bind x _ _ (Keeps-map_err x _ _ (on_world-Keeps _)) (λ _ s. (refl, refl))

  router_of-Keeps : (o : Option (RouterInMemory x)) → Keeps x (router_of x o)
  unfolding router_of
  router_of-Keeps none s = (refl, refl)
  router_of-Keeps (some router) s = (refl, refl)

  pub record_if-Keeps :
      (p : Production) (kind : Kind) (producer : x.Producer) (b : Bool)
      → Keeps x (record_if x p kind producer b)
  unfolding record_if
  record_if-Keeps p kind producer false = λ s. (refl, refl)
  record_if-Keeps p kind producer true =
      Keeps-bind x _ _ (λ s. (refl, refl))
        λ map.
          Keeps-bind x _ _ (router_of-Keeps (lookup p.producer_router_id map))
            λ router. record_producer-Keeps p kind producer router

  pipe_to-Keeps :
      (map : Dict (RouterInMemory x)) (producer : x.Producer) (router : x.Router)
      (ids : List String)
      → Keeps x (pipe_to x map producer router ids)
  unfolding pipe_to
  pipe_to-Keeps map producer router [] = λ s. (refl, refl)
  pipe_to-Keeps map producer router (id ∷ ids) =
      Keeps-bind x _ _ (router_of-Keeps (lookup id map)) λ to.
        Keeps-bind x _ _ (Keeps-map_err x _ _ (on_world-Keeps _))
          λ _. pipe_to-Keeps map producer router ids

  pub pipe_producer-Keeps :
      (p : Production) (producer : x.Producer) → Keeps x (pipe_producer x p producer)
  unfolding pipe_producer
  pipe_producer-Keeps p producer =
      Keeps-bind x _ _ (λ s. (refl, refl))
        λ map.
          Keeps-bind x _ _ (router_of-Keeps (lookup p.producer_router_id map))
            λ router. pipe_to-Keeps map producer router _
