-- ===== src/Sfu/Transports/Stored.antt =====
-- What the handlers of src/mediasoupv1/mod.rs that create transports store.
use doordarshan_media_server.Base.{
  ◌≡◌, refl, ap, ◌∙◌, String, Bool, true, false, inr, eqb, Option, none, some, List, [], ◌∷◌,
  if◌then◌else◌, ◌==◌, Outcome, ok, err,
}
use doordarshan_media_server.Base.Outcomes
use doordarshan_media_server.Base.Lists.{contains, given}
use doordarshan_media_server.Base.Dict.{
  Dict, lookup, insert, remove_all, lookup-insert, lookup-remove_all,
}
use doordarshan_media_server.Base.Action.{◌>>=◌, bind-ok, map_err, fail}
use doordarshan_media_server.Dao.{Dao}
use doordarshan_media_server.Db.{
  DbError, my_sql_error, generic_error, rollback_error, mutate, duplicate_entry,
}
use doordarshan_media_server.Db.Driver.{default_tx_opts}
use doordarshan_media_server.Sfu.Platform.{Platform}
use doordarshan_media_server.Sfu.Server.{
  TransportInMemory, RouterInMemory, Server, Handler, context, answer, on_world, on_pool, mutate_db,
}
use doordarshan_media_server.Sfu.Transports.{
  TransportOptions, transport_failure, options_of, create_on, create_transport, set_bitrates,
  new_transport, reuse_transport, finish_transport, producer_transport_of, consumer_transport_of,
  in_memory, write_failure, create_producer_transport, create_consumer_transport,
}

module _ (x : Platform) where
  open x use {WebRtcTransport, transport_id}

  create_on-world :
      (o : Option (RouterInMemory x)) (s : Server x)
      → (w : x.World) × ((create_on x o s).1 ≡ record s { world = w })
  unfolding create_on map_err on_world
  create_on-world none s = (s.world, refl)
  create_on-world (some router) s = ((x.create_webrtc_transport router.router s.world).1, refl)

  -- A new transport is made outside: only the world changes.
  new_transport-ok :
      (rid : String) (t : WebRtcTransport) (s : Server x)
      → (create_transport x rid s).0 ≡ ok t
      → (w : x.World) × (new_transport x rid s ≡ (ok t, record s { world = w }))
  unfolding new_transport create_transport map_err set_bitrates
  new_transport-ok rid t s e =
      let (w, here) = create_on-world (lookup rid s.routers_map) s in
      let s' : Server x = record s { world = w } in
      (
        (set_bitrates x t s').world,
        bind-ok _ _ (
              ap (λ o. (Outcomes.map_err transport_failure o, (create_transport x rid s).1)) e
              ∙ ap (λ r. (ok t, r)) here)
            ∙ bind-ok _ _ refl,
      )

  -- The transports after one was stored and the old ones were taken out, at any id.
  stored :
      (olds : List String) (t : TransportInMemory x) (m : Dict (TransportInMemory x)) (j : String)
      → lookup j (insert (transport_id t.transport) t (remove_all olds m)) ≡ (
          if transport_id t.transport == j
          then some t
          else if contains olds j
          then none
          else lookup j m)
  stored olds t m j = rw (lookup-insert, lookup-remove_all) refl

  if-unchanged :
      {A : Type 0} (b : Bool) (f g : Handler x A) (s : Server x)
      → (f s).1 ≡ s
      → (g s).1 ≡ s
      → ((if b then f else g) s).1 ≡ s
  if-unchanged true f g s hf hg = hf
  if-unchanged false f g s hf hg = hg

  finish_transport-unchanged :
      (olds : List String) (t : TransportInMemory x) (e : DbError) (s : Server x)
      → (finish_transport x olds t (inr e) s).1 ≡ s
  unfolding finish_transport reuse_transport
  finish_transport-unchanged olds t (my_sql_error c m) s =
      if-unchanged (eqb c duplicate_entry) (reuse_transport x t.participant_id t.meeting_id t.kind)
        (fail (write_failure x (my_sql_error c m))) s refl refl
  finish_transport-unchanged olds t (generic_error m) s = refl
  finish_transport-unchanged olds t (rollback_error m) s = refl

  -- Both handlers, from the entity that they write and the old transports in their order.
  abbrev creating :
      (String → Dao)
      → List String
      → String
      → String
      → String
      → String
      → Handler x (TransportOptions x)
  creating entity olds kind rid p m = do
    t ← new_transport x rid
    written ← mutate_db x true default_tx_opts (entity (transport_id t) ∷ [])
    finish_transport x olds (in_memory x t m p kind) written

  abbrev refusal_or_row :
      (String → Dao) → WebRtcTransport → Server x → Outcome DbError (String × Bool)
  refusal_or_row entity t s =
      (mutate x.driver (entity (transport_id t) ∷ []) (context x true default_tx_opts s.pool)).0

  -- The server once the database has answered.
  abbrev answered : (String → Dao) → WebRtcTransport → x.World → Server x → Server x
  answered entity t w s = record s {
    world = w;
    pool =
        (mutate x.driver (entity (transport_id t) ∷ []) (context x true default_tx_opts s.pool)).1;
  }

  creating-stored :
      (entity : String → Dao) (olds : List String) (kind rid p m : String) (t : WebRtcTransport)
      (a : String × Bool) (s : Server x) (j : String)
      → (create_transport x rid s).0 ≡ ok t
      → refusal_or_row entity t s ≡ ok a
      → let r = creating entity olds kind rid p m s in
        (r.0 ≡ ok (options_of x t))
        × (lookup j r.1.transport_map ≡ (
            if transport_id t == j
            then some (in_memory x t m p kind)
            else if contains olds j
            then none
            else lookup j s.transport_map))
  unfolding mutate_db on_pool finish_transport
  creating-stored entity olds kind rid p m t a s j made written =
      let (w, new) = new_transport-ok rid t s made in
      let path =
        bind-ok _ _ new
        ∙ bind-ok _ _ (ap (λ o. (answer x o, answered entity t w s)) written)
        ∙ bind-ok _ _ refl in
      (
        ap (λ r. r.0) path,
        ap (λ r. lookup j r.1.transport_map) path
            ∙ stored olds (in_memory x t m p kind) s.transport_map j,
      )

  creating-unchanged :
      (entity : String → Dao) (olds : List String) (kind rid p m : String) (t : WebRtcTransport)
      (e : DbError) (s : Server x)
      → (create_transport x rid s).0 ≡ ok t
      → refusal_or_row entity t s ≡ err e
      → (creating entity olds kind rid p m s).1.transport_map ≡ s.transport_map
  unfolding mutate_db on_pool
  creating-unchanged entity olds kind rid p m t e s made refused =
      let (w, new) = new_transport-ok rid t s made in
      let path =
        bind-ok _ _ new ∙ bind-ok _ _ (ap (λ o. (answer x o, answered entity t w s)) refused) in
      ap (λ r. r.1.transport_map) path
      ∙ ap (λ s. s.transport_map)
          (finish_transport-unchanged olds (in_memory x t m p kind) e (answered entity t w s))

  -- Once its transport is made and written to the database, `create_producer_transport` returns the
  -- options of that transport; and in the map of the transports, whatever the id, stands the new
  -- transport under its own, nothing under the old ones, and what stood there under any other.
  pub create_producer_transport-stored :
      (rid p m : String) (op oc : Option String) (t : WebRtcTransport) (a : String × Bool)
      (s : Server x) (j : String)
      → (create_transport x rid s).0 ≡ ok t
      → (mutate x.driver
          (producer_transport_of x p (transport_id t) ∷ [])
          (context x true default_tx_opts s.pool)).0
        ≡ ok a
      → let r = create_producer_transport x rid p m op oc s in
        (r.0 ≡ ok (options_of x t))
        × (lookup j r.1.transport_map ≡ (
            if transport_id t == j
            then some (in_memory x t m p "producer")
            else if contains (given op (given oc [])) j
            then none
            else lookup j s.transport_map))
  unfolding create_producer_transport
  create_producer_transport-stored rid p m op oc t a s j =
      creating-stored (producer_transport_of x p) (given op (given oc [])) "producer" rid p m t a s
        j

  -- If the database refuses the transport, whatever the error, the map of the transports is as it was
  -- after `create_producer_transport`.
  pub create_producer_transport-unchanged :
      (rid p m : String) (op oc : Option String) (t : WebRtcTransport) (e : DbError) (s : Server x)
      → (create_transport x rid s).0 ≡ ok t
      → (mutate x.driver
          (producer_transport_of x p (transport_id t) ∷ [])
          (context x true default_tx_opts s.pool)).0
        ≡ err e
      → (create_producer_transport x rid p m op oc s).1.transport_map ≡ s.transport_map
  unfolding create_producer_transport
  create_producer_transport-unchanged rid p m op oc t e s =
      creating-unchanged (producer_transport_of x p) (given op (given oc [])) "producer" rid p m t e
        s

  -- Once its transport is made and written to the database, `create_consumer_transport` returns the
  -- options of that transport; and in the map of the transports, whatever the id, stands the new
  -- transport under its own, nothing under the old ones, and what stood there under any other.
  pub create_consumer_transport-stored :
      (rid p m : String) (op oc : Option String) (t : WebRtcTransport) (a : String × Bool)
      (s : Server x) (j : String)
      → (create_transport x rid s).0 ≡ ok t
      → (mutate x.driver
          (consumer_transport_of x p (transport_id t) ∷ [])
          (context x true default_tx_opts s.pool)).0
        ≡ ok a
      → let r = create_consumer_transport x rid p m op oc s in
        (r.0 ≡ ok (options_of x t))
        × (lookup j r.1.transport_map ≡ (
            if transport_id t == j
            then some (in_memory x t m p "consumer")
            else if contains (given oc (given op [])) j
            then none
            else lookup j s.transport_map))
  unfolding create_consumer_transport
  create_consumer_transport-stored rid p m op oc t a s j =
      creating-stored (consumer_transport_of x p) (given oc (given op [])) "consumer" rid p m t a s
        j

  -- If the database refuses the transport, whatever the error, the map of the transports is as it was
  -- after `create_consumer_transport`.
  pub create_consumer_transport-unchanged :
      (rid p m : String) (op oc : Option String) (t : WebRtcTransport) (e : DbError) (s : Server x)
      → (create_transport x rid s).0 ≡ ok t
      → (mutate x.driver
          (consumer_transport_of x p (transport_id t) ∷ [])
          (context x true default_tx_opts s.pool)).0
        ≡ err e
      → (create_consumer_transport x rid p m op oc s).1.transport_map ≡ s.transport_map
  unfolding create_consumer_transport
  create_consumer_transport-unchanged rid p m op oc t e s =
      creating-unchanged (consumer_transport_of x p) (given oc (given op [])) "consumer" rid p m t e
        s
