-- ===== src/Sfu/Transports/Media.antt =====
-- Creating a transport, src/mediasoupv1/mod.rs, leaves the producers and the consumers alone.
use doordarshan_media_server.Base.{
  ◌≡◌, refl, ◌∙◌, String, Bool, true, false, Option, none, some, ◌⊎◌, inl, inr, List, Outcome, ok,
  err, panic, if◌then◌else◌, eqb,
}
use doordarshan_media_server.Base.Dict.{lookup}
use doordarshan_media_server.Base.Action.{◌>>=◌, resume, map_err, fail}
use doordarshan_media_server.Db.{
  DbError, my_sql_error, generic_error, rollback_error, duplicate_entry,
}
use doordarshan_media_server.Sfu.Platform.{Platform}
use doordarshan_media_server.Sfu.Server.{
  TransportInMemory, RouterInMemory, Server, Handler, on_world, on_pool, mutate_db,
}
use doordarshan_media_server.Sfu.Transports.{
  transport_failure, create_on, create_transport, set_bitrates, new_transport, reuse_transport,
  write_failure, finish_transport, create_producer_transport, create_consumer_transport,
}

module _ (x : Platform) where
  -- The producers and the consumers in memory are the same.
  abbrev pub SameMedia : Server x → Server x → Type 0
  SameMedia s s' =
      (s'.producer_map ≡ s.producer_map) × (s'.consumer_map_shards ≡ s.consumer_map_shards)

  abbrev pub Keeps : {A : Type 0} → Handler x A → Type 0
  Keeps f = (s : Server x) → SameMedia s (f s).1

  pub resume-SameMedia :
      {A B : Type 0} (f : A → Handler x B) (o : Outcome String A) (s s' : Server x)
      → ((a : A) → Keeps (f a))
      → SameMedia s s'
      → SameMedia s (resume f (o, s')).1
  resume-SameMedia f (ok a) s s' h e = ((h a s').0 ∙ e.0, (h a s').1 ∙ e.1)
  resume-SameMedia f (err e') s s' h e = e
  resume-SameMedia f panic s s' h e = e

  pub Keeps-bind :
      {A B : Type 0} (m : Handler x A) (f : A → Handler x B)
      → Keeps m
      → ((a : A) → Keeps (f a))
      → Keeps (m >>= f)
  unfolding ◌>>=◌
  Keeps-bind m f hm hf s = resume-SameMedia f (m s).0 s (m s).1 hf (hm s)

  pub Keeps-map_err :
      {A : Type 0} (f : String → String) (m : Handler x A) → Keeps m → Keeps (map_err f m)
  unfolding map_err
  Keeps-map_err f m h s = h s

  create_on-Keeps : (o : Option (RouterInMemory x)) → Keeps (create_on x o)
  unfolding create_on map_err on_world
  create_on-Keeps none s = (refl, refl)
  create_on-Keeps (some router) s = (refl, refl)

  new_transport-Keeps : (rid : String) → Keeps (new_transport x rid)
  unfolding new_transport create_transport set_bitrates
  new_transport-Keeps rid =
      Keeps-bind _ _
        (Keeps-map_err transport_failure (create_transport x rid)
          (λ s. create_on-Keeps (lookup rid s.routers_map) s))
        (λ t. Keeps-bind _ _ (λ s. (refl, refl)) (λ _ s. (refl, refl)))

  if-Keeps :
      {A : Type 0} (b : Bool) (f g : Handler x A) → Keeps f → Keeps g → Keeps (if b then f else g)
  if-Keeps true f g hf hg = hf
  if-Keeps false f g hf hg = hg

  finish_transport-Keeps :
      (olds : List String) (t : TransportInMemory x) (o : (String × Bool) ⊎ DbError)
      → Keeps (finish_transport x olds t o)
  unfolding finish_transport reuse_transport
  finish_transport-Keeps olds t (inl a) = Keeps-bind _ _ (λ s. (refl, refl)) (λ _ s. (refl, refl))
  finish_transport-Keeps olds t (inr (my_sql_error c m)) =
      if-Keeps (eqb c duplicate_entry) (reuse_transport x t.participant_id t.meeting_id t.kind)
        (fail (write_failure x (my_sql_error c m))) (λ s. (refl, refl)) (λ s. (refl, refl))
  finish_transport-Keeps olds t (inr (generic_error m)) = λ s. (refl, refl)
  finish_transport-Keeps olds t (inr (rollback_error m)) = λ s. (refl, refl)

  pub create_producer_transport-Keeps :
      (rid p m : String) (op oc : Option String) → Keeps (create_producer_transport x rid p m op oc)
  unfolding create_producer_transport mutate_db on_pool
  create_producer_transport-Keeps rid p m op oc =
      Keeps-bind _ _ (new_transport-Keeps rid)
        (λ t. Keeps-bind _ _ (λ s. (refl, refl)) (finish_transport-Keeps _ _))

  pub create_consumer_transport-Keeps :
      (rid p m : String) (op oc : Option String) → Keeps (create_consumer_transport x rid p m op oc)
  unfolding create_consumer_transport mutate_db on_pool
  create_consumer_transport-Keeps rid p m op oc =
      Keeps-bind _ _ (new_transport-Keeps rid)
        (λ t. Keeps-bind _ _ (λ s. (refl, refl)) (finish_transport-Keeps _ _))
