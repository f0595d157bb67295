-- ===== src/Sfu/Producing/Again.antt =====
-- A second call of `create_producer`, src/mediasoupv1/mod.rs, returns the producer of the first.
use doordarshan_media_server.Base.{
  ◌≡◌, refl, sym, ap, ◌∙◌, String, Bool, true, false, ◌&&◌, Option, none, some, is_some, is_none,
  ◌⊎◌, inl, inr, [], ◌∷◌, Outcome, ok, err, panic, arith, eq_iff, if◌then◌else◌,
}
use doordarshan_media_server.Base.Dict.{Dict, lookup, insert}
use doordarshan_media_server.Base.Action.{◌>>=◌, resume, pure, fail}
use doordarshan_media_server.Db.{DbError}
use doordarshan_media_server.Sfu.Platform.{Platform}
use doordarshan_media_server.Sfu.Server.{
  ProducerInMemory, Server, Handler, on_world, on_pool, mutate_db,
}
use doordarshan_media_server.Sfu.Closing.{ProducerDetail}
use doordarshan_media_server.Sfu.Recreation.{ensure_lock}
use doordarshan_media_server.Sfu.Transports.Media.{SameMedia, Keeps, Keeps-map_err}
use doordarshan_media_server.Sfu.Producing.{
  Production, Recorded, is_produced, find_producer, producer_in_memory, keep_recorded,
  keep_producer, finish_producing, write_producer, parse_kind, produce_new, produce_from,
  create_producer, detail_of,
}
use doordarshan_media_server.Sfu.Producing.Media.{
  if-Keeps, unwrap-Keeps, record_if-Keeps, pipe_producer-Keeps,
}
use doordarshan_media_server.Sfu.Producing.Doubles.{keep_recorded-Keeps}

module _ (x : Platform) where
  find_producer-insert :
      (p : Production) (k : String) (v : ProducerInMemory x) (m : Dict (ProducerInMemory x))
      → is_produced x p v ≡ true
      → find_producer x p m ≡ none
      → find_producer x p (insert k v m) ≡ some k
  unfolding find_producer insert
  find_producer-insert p k v [] new missing = ground (arith, new)
  find_producer-insert p k v (entry ∷ m) new missing =
      ground (arith, new, missing, find_producer-insert p k v m new)

  is_produced-same :
      (p : Production) (producer : x.Producer)
      → is_produced x p (producer_in_memory x p producer) ≡ true
  is_produced-same p producer = ground (
    arith,
    eq_iff p.meeting_id p.meeting_id,
    eq_iff p.participant_id p.participant_id,
    eq_iff p.kind p.kind,
  )

  -- A detail that is returned is found again.
  abbrev Found : Production → Outcome String ProducerDetail × Server x → Type 0
  Found p r =
      (d : ProducerDetail)
      → r.0 ≡ ok d
      → (find_producer x p r.1.producer_map ≡ some d.producer_id)
        × (detail_of x p d.producer_id ≡ d)

  -- Where there is no producer yet.
  abbrev Finds : Production → Handler x ProducerDetail → Type 0
  Finds p f = (s : Server x) → find_producer x p s.producer_map ≡ none → Found p (f s)

  resume-Found :
      {A : Type 0} (p : Production) (f : A → Handler x ProducerDetail) (o : Outcome String A)
      (s t : Server x)
      → SameMedia x s t
      → ((a : A) → Finds p (f a))
      → find_producer x p s.producer_map ≡ none
      → Found p (resume f (o, t))
  resume-Found p f (ok a) s t same h missing = h a t (ap (find_producer x p) same.0 ∙ missing)
  resume-Found p f (err e) s t same h missing = λ d eq. absurd cc
  resume-Found p f panic s t same h missing = λ d eq. absurd cc

  Finds-bind :
      {A : Type 0} (p : Production) (m : Handler x A) (f : A → Handler x ProducerDetail)
      → Keeps x m
      → ((a : A) → Finds p (f a))
      → Finds p (m >>= f)
  unfolding ◌>>=◌
  Finds-bind p m f hm hf s = resume-Found p f (m s).0 s (m s).1 (hm s) hf

  Finds-if :
      (p : Production) (b : Bool) (f g : Handler x ProducerDetail)
      → Finds p f
      → Finds p g
      → Finds p (if b then f else g)
  Finds-if p true f g hf hg = hf
  Finds-if p false f g hf hg = hg

  fail-Finds : (p : Production) (e : String) → Finds p (fail e)
  fail-Finds p e s missing d eq = absurd cc

  detail-Found :
      (p : Production) (id : String) (s : Server x)
      → find_producer x p s.producer_map ≡ some id
      → Found p (ok (detail_of x p id), s)
  detail-Found p id s found d eq =
      let same : detail_of x p id ≡ d = cc in
      (
        found ∙ ap (λ d. some d.producer_id) same,
        ap (λ d. detail_of x p d.producer_id) (sym same) ∙ same,
      )

  -- The producer is kept, and what comes after returns its detail.
  resume-detail :
      (p : Production) (id : String) (o : Outcome String (Unit {0})) (t : Server x)
      → find_producer x p t.producer_map ≡ some id
      → Found p (resume (λ _. pure (detail_of x p id)) (o, t))
  resume-detail p id (ok a) t found = detail-Found p id t found
  resume-detail p id (err e) t found = λ d eq. absurd cc
  resume-detail p id panic t found = λ d eq. absurd cc

  keep_producer-Finds :
      (p : Production) (producer : x.Producer) (f : Handler x (Unit {0}))
      → Keeps x f
      → Finds p (
          keep_producer x p producer >>= λ _.
          f >>= λ _. pure (detail_of x p (x.producer_id producer)))
  unfolding keep_producer ◌>>=◌
  keep_producer-Finds p producer f h s missing =
      let new = producer_in_memory x p producer in
      let t : Server x = record s {
        producer_map = insert (x.producer_id producer) new s.producer_map;
      } in
      resume-detail p (x.producer_id producer) (f t).0 (f t).1 (
        ap (find_producer x p) (h t).0
        ∙ find_producer-insert p (x.producer_id producer) new s.producer_map
            (is_produced-same p producer) missing)

  finish_producing-Finds :
      (p : Production) (producer : x.Producer) (r : Recorded x) (o : (String × Bool) ⊎ DbError)
      → Finds p (finish_producing x p producer r o)
  unfolding finish_producing
  finish_producing-Finds p producer r (inl a) = keep_producer-Finds p producer _ (
      if-Keeps x (p.start_recording && is_some r.plain_transport) (keep_recorded x p producer r)
        (pure tt) (keep_recorded-Keeps x p producer r) (λ s. (refl, refl)))
  finish_producing-Finds p producer r (inr e) =
      Finds-bind p _ _
        (if-Keeps x (is_some r.gstreamer_pipeline) _ (pure tt) (λ s. (refl, refl))
          (λ s. (refl, refl)))
        (λ _. fail-Finds p _)

  write_producer-Finds :
      (p : Production) (producer : x.Producer) (r : Recorded x)
      → Finds p (write_producer x p producer r)
  unfolding write_producer mutate_db on_pool
  write_producer-Finds p producer r =
      Finds-if p (p.start_recording && is_none r.plain_transport) _ _ (fail-Finds p _) (
        Finds-if p (p.start_recording && is_none r.plain_transport_consumer) _ _ (fail-Finds p _)
          (Finds-bind p _ _ (λ s. (refl, refl)) (finish_producing-Finds p producer r)))

  produce_new-Finds : (p : Production) (rtp : x.RtpParameters) → Finds p (produce_new x p rtp)
  unfolding produce_new parse_kind on_world
  produce_new-Finds p rtp =
      Finds-bind p _ _ (λ s. (refl, refl))
        λ map. Finds-bind p _ _ (unwrap-Keeps x (lookup p.producer_transport_id map)) λ transport.
          Finds-bind p _ _ (Keeps-map_err x _ _ (λ s. (refl, refl))) λ kind.
            Finds-bind p _ _ (Keeps-map_err x _ _ (λ s. (refl, refl))) λ producer.
              Finds-bind p _ _ (record_if-Keeps x p kind producer p.start_recording) λ recorded.
                Finds-bind p _ _ (pipe_producer-Keeps x p producer)
                  (λ _. write_producer-Finds p producer recorded)

  produce_from-Found :
      (p : Production) (rtp : x.RtpParameters) (o : Option String) (s : Server x)
      → find_producer x p s.producer_map ≡ o
      → Found p (produce_from x p rtp o s)
  unfolding produce_from
  produce_from-Found p rtp none s found = produce_new-Finds p rtp s found
  produce_from-Found p rtp (some id) s found = detail-Found p id s found

  -- Once `create_producer` has returned a producer, whether it was new or not, recorded or not, a second
  -- call with the same arguments, whatever its RTP parameters, returns the same detail: it makes no
  -- other producer, and writes neither to the database nor, but for the lock, to the memory.
  pub create_producer-again :
      (p : Production) (rtp rtp' : x.RtpParameters) (d : ProducerDetail) (s : Server x)
      → (create_producer x p rtp s).0 ≡ ok d
      → let t = (create_producer x p rtp s).1 in
        create_producer x p rtp' t ≡ (ok d, ensure_lock x p.meeting_id t)
  unfolding create_producer produce_from ensure_lock ◌>>=◌
  create_producer-again p rtp rtp' d s made =
      let s' = ensure_lock x p.meeting_id s in
      let t = (produce_from x p rtp (find_producer x p s.producer_map) s').1 in
      let (found, same) =
        produce_from-Found p rtp (find_producer x p s.producer_map) s' refl d made in
      ap (λ o. produce_from x p rtp' o (ensure_lock x p.meeting_id t)) found
      ∙ ap (λ d. (ok d, ensure_lock x p.meeting_id t)) same
