-- ===== src/Sfu/Producing/Doubles.antt =====
-- `create_producer` of src/mediasoupv1/mod.rs makes no second producer of a kind for a participant of a
-- meeting.
use mathlib.Core.Path.{subst}
use doordarshan_media_server.Base.{
  ◌≤◌, ◌≡◌, refl, sym, ap, ◌∙◌, String, Bool, true, false, ◌&&◌, Option, none, some, is_some,
  is_none, ◌⊎◌, inl, inr, [], ◌∷◌, Outcome, ok, err, panic, arith, eq_iff, if◌then◌else◌,
}
use doordarshan_media_server.Base.Lists.{length}
use doordarshan_media_server.Base.Dict.{Dict, lookup, insert}
use doordarshan_media_server.Base.Action.{◌>>=◌, resume, pure}
use doordarshan_media_server.Db.{DbError}
use doordarshan_media_server.Sfu.Platform.{Platform}
use doordarshan_media_server.Sfu.Server.{
  ProducerInMemory, Server, Handler, on_world, on_pool, mutate_db,
}
use doordarshan_media_server.Sfu.Recreation.{ensure_lock}
use doordarshan_media_server.Sfu.Transports.Media.{SameMedia, Keeps, Keeps-bind, Keeps-map_err}
use doordarshan_media_server.Sfu.Consuming.Counts.{count_where, values_where-eq, count_where-insert}
use doordarshan_media_server.Sfu.Consuming.{values_where}
use doordarshan_media_server.Sfu.Consuming.Twins.{IsSound, HasShards-same, NoTwins-same}
use doordarshan_media_server.Sfu.Producing.{
  Production, Recorded, is_produced, find_producer, producer_in_memory, keep_recorded,
  keep_producer, finish_producing, write_producer, parse_kind, produce_new, produce_from,
  create_producer,
}
use doordarshan_media_server.Sfu.Producing.Media.{
  if-Keeps, unwrap-Keeps, record_if-Keeps, pipe_producer-Keeps,
}

module _ (x : Platform) where
  -- No participant of a meeting has two producers of the same kind.
  abbrev NoDoublesIn : Dict (ProducerInMemory x) → Type 0
  NoDoublesIn m = (p : Production) → count_where (is_produced x p) m ≤ 1

  -- With that, sound as to the consumers.
  abbrev pub IsSafe : Server x → Type 0
  IsSafe s = IsSound x s × NoDoublesIn s.producer_map

  pub IsSafe-same : (s t : Server x) → SameMedia x s t → IsSafe s → IsSafe t
  IsSafe-same s t (producers, shards) ((h, twins), doubles) = (
    (HasShards-same x s t shards h, NoTwins-same x s t shards twins),
    subst NoDoublesIn (sym producers) doubles,
  )

  -- A search that finds nothing counts nothing.
  pub find_producer-count :
      (p : Production) (m : Dict (ProducerInMemory x))
      → find_producer x p m ≡ none
      → count_where (is_produced x p) m ≡ 0
  unfolding find_producer values_where
  find_producer-count p [] h = refl
  find_producer-count p (entry ∷ m) h = ground (arith, h, find_producer-count p m)

  produced-agree :
      (p q : Production) (producer : x.Producer)
      → is_produced x q (producer_in_memory x p producer) ≡ true
      → (v : ProducerInMemory x) → is_produced x p v ≡ is_produced x q v
  produced-agree p q producer h v = ground (
    arith,
    h,
    eq_iff p.meeting_id q.meeting_id,
    eq_iff p.participant_id q.participant_id,
    eq_iff p.kind q.kind,
  )

  insert-NoDoubles :
      (p : Production) (producer : x.Producer) (m : Dict (ProducerInMemory x))
      → find_producer x p m ≡ none
      → NoDoublesIn m
      → NoDoublesIn (insert (x.producer_id producer) (producer_in_memory x p producer) m)
  insert-NoDoubles p producer m h doubles q =
      let new = producer_in_memory x p producer in
      let none_exists : is_produced x q new ≡ true → count_where (is_produced x q) m ≡ 0 = λ e.
        ap length (sym (values_where-eq _ _ m (produced-agree p q producer e)))
        ∙ find_producer-count p m h in
      ground (
        arith,
        doubles q,
        count_where-insert (is_produced x q) (x.producer_id producer) new m,
        none_exists,
      )

  pub keep_recorded-Keeps :
      (p : Production) (producer : x.Producer) (r : Recorded x)
      → Keeps x (keep_recorded x p producer r)
  unfolding keep_recorded
  keep_recorded-Keeps p producer r = Keeps-bind x _ _ (unwrap-Keeps x r.plain_transport) λ t.
      Keeps-bind x _ _ (λ s. (refl, refl))
        λ _.
          Keeps-bind x _ _ (unwrap-Keeps x r.plain_transport_consumer)
            λ c. Keeps-bind x _ _ (λ s. (refl, refl)) (λ _ s. (refl, refl))

  -- Where there is no producer yet, the invariant is kept.
  abbrev Guards : {A : Type 0} → Production → Handler x A → Type 0
  Guards p f = (s : Server x) → IsSafe s → find_producer x p s.producer_map ≡ none → IsSafe (f s).1

  resume-Guards :
      {A B : Type 0} (p : Production) (f : A → Handler x B) (o : Outcome String A) (s t : Server x)
      → SameMedia x s t
      → ((a : A) → Guards p (f a))
      → IsSafe s
      → find_producer x p s.producer_map ≡ none
      → IsSafe (resume f (o, t)).1
  resume-Guards p f (ok a) s t same h safe missing =
      h a t (IsSafe-same s t same safe) (ap (find_producer x p) same.0 ∙ missing)
  resume-Guards p f (err e) s t same h safe missing = IsSafe-same s t same safe
  resume-Guards p f panic s t same h safe missing = IsSafe-same s t same safe

  Guards-bind :
      {A B : Type 0} (p : Production) (m : Handler x A) (f : A → Handler x B)
      → Keeps x m
      → ((a : A) → Guards p (f a))
      → Guards p (m >>= f)
  unfolding ◌>>=◌
  Guards-bind p m f hm hf s = resume-Guards p f (m s).0 s (m s).1 (hm s) hf

  Guards-if :
      {A : Type 0} (p : Production) (b : Bool) (f g : Handler x A)
      → Guards p f
      → Guards p g
      → Guards p (if b then f else g)
  Guards-if p true f g hf hg = hf
  Guards-if p false f g hf hg = hg

  Keeps-Guards : {A : Type 0} (p : Production) (f : Handler x A) → Keeps x f → Guards p f
  Keeps-Guards p f h s safe missing = IsSafe-same s (f s).1 (h s) safe

  -- The producer is kept, and what comes after leaves it alone.
  keep_producer-Guards :
      {A : Type 0} (p : Production) (producer : x.Producer) (rest : Handler x A)
      → Keeps x rest
      → Guards p (keep_producer x p producer >>= λ _. rest)
  unfolding keep_producer ◌>>=◌
  keep_producer-Guards p producer rest h s (sound, doubles) missing =
      let t : Server x = record s {
        producer_map =
            insert (x.producer_id producer) (producer_in_memory x p producer) s.producer_map;
      } in
      IsSafe-same t (rest t).1 (h t)
        (sound, insert-NoDoubles p producer s.producer_map missing doubles)

  finish_producing-Guards :
      (p : Production) (producer : x.Producer) (r : Recorded x) (o : (String × Bool) ⊎ DbError)
      → Guards p (finish_producing x p producer r o)
  unfolding finish_producing
  finish_producing-Guards p producer r (inl a) = keep_producer-Guards p producer _ (
      Keeps-bind x _ _
        (if-Keeps x (p.start_recording && is_some r.plain_transport) (keep_recorded x p producer r)
          (pure tt) (keep_recorded-Keeps p producer r) (λ s. (refl, refl)))
        (λ _ s. (refl, refl)))
  finish_producing-Guards p producer r (inr e) =
      Guards-bind p _ _
        (if-Keeps x (is_some r.gstreamer_pipeline) _ (pure tt) (λ s. (refl, refl))
          (λ s. (refl, refl)))
        (λ _ s safe missing. safe)

  write_producer-Guards :
      (p : Production) (producer : x.Producer) (r : Recorded x)
      → Guards p (write_producer x p producer r)
  unfolding write_producer mutate_db on_pool
  write_producer-Guards p producer r =
      Guards-if p (p.start_recording && is_none r.plain_transport) _ _ (λ s safe missing. safe)
        (Guards-if p (p.start_recording && is_none r.plain_transport_consumer) _ _
          (λ s safe missing. safe)
          (Guards-bind p _ _ (λ s. (refl, refl)) (finish_producing-Guards p producer r)))

  produce_new-Guards : (p : Production) (rtp : x.RtpParameters) → Guards p (produce_new x p rtp)
  unfolding produce_new parse_kind on_world
  produce_new-Guards p rtp =
      Guards-bind p _ _ (λ s. (refl, refl))
        λ map. Guards-bind p _ _ (unwrap-Keeps x (lookup p.producer_transport_id map)) λ transport.
          Guards-bind p _ _ (Keeps-map_err x _ _ (λ s. (refl, refl))) λ kind.
            Guards-bind p _ _ (Keeps-map_err x _ _ (λ s. (refl, refl))) λ producer.
              Guards-bind p _ _ (record_if-Keeps x p kind producer p.start_recording) λ recorded.
                Guards-bind p _ _ (pipe_producer-Keeps x p producer)
                  (λ _. write_producer-Guards p producer recorded)

  produce_from-IsSafe :
      (p : Production) (rtp : x.RtpParameters) (o : Option String) (s : Server x)
      → IsSafe s
      → find_producer x p s.producer_map ≡ o
      → IsSafe (produce_from x p rtp o s).1
  unfolding produce_from
  produce_from-IsSafe p rtp none s safe missing = produce_new-Guards p rtp s safe missing
  produce_from-IsSafe p rtp (some id) s safe found = safe

  -- Whatever it returns, `create_producer` keeps the invariants of the memory.
  pub create_producer-IsSafe :
      (p : Production) (rtp : x.RtpParameters) (s : Server x)
      → IsSafe s
      → IsSafe (create_producer x p rtp s).1
  unfolding create_producer ensure_lock ◌>>=◌
  create_producer-IsSafe p rtp s safe =
      produce_from-IsSafe p rtp (find_producer x p s.producer_map) (ensure_lock x p.meeting_id s)
        safe refl
