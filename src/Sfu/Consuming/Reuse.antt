-- ===== src/Sfu/Consuming/Reuse.antt =====
-- What `create_consumer` of src/mediasoupv1/mod.rs leaves alone: the memory where it fails, and
-- everything but the answer where the participant consumes all of its targets already.
use mathlib.Core.Path.{subst}
use doordarshan_media_server.Base.{
  ◌≡◌, ◌≢◌, refl, sym, ap, ◌∙◌, String, Bool, true, Option, none, some, ◌⊎◌, inl, inr, List, [],
  ◌∷◌, Outcome, ok, err, panic, arith,
}
use doordarshan_media_server.Base.Lists.{length, All}
use doordarshan_media_server.Base.Dict.{Dict, lookup, extend}
use doordarshan_media_server.Base.Action.{◌>>=◌, resume, bind-ok, unwrap}
use doordarshan_media_server.Db.{DbError, mutate}
use doordarshan_media_server.Db.Driver.{default_tx_opts}
use doordarshan_media_server.Sfu.Platform.{Platform}
use doordarshan_media_server.Sfu.Server.{
  TransportInMemory, ConsumerInMemory, Server, Handler, context, answer, on_pool, mutate_db,
  get_shard,
}
use doordarshan_media_server.Sfu.Shards.{
  HasShards, shard_of, get_shard-shard_of, write_shard-with_shard, with_shard-same,
}
use doordarshan_media_server.Sfu.Transports.Media.{SameMedia}
use doordarshan_media_server.Sfu.Consuming.{
  values_where, Consumption, Consumed, is_existing, insert_in, consume_found, consume_kinds,
  consume_targets, finish_consuming, write_consumers, consume_all, create_consumer,
}
use doordarshan_media_server.Sfu.Consuming.Twins.{consume_targets-Keeps, HasShards-same}

module _ (x : Platform) where
  open x use {WebRtcTransport, RtpCapabilities, Consumer}

  -- Each target has exactly one consumer of each of its kinds.
  abbrev pub HasEach : Consumption → Dict (ConsumerInMemory x) → Dict (Dict String) → Type 0
  HasEach c existing targets =
      All
        (λ target.
          All (λ kind. length (values_where (is_existing x c target.0 kind.0) existing) ≡ 1)
            target.1)
        targets

  -- Only the answer grows.
  abbrev Reuses : Consumed x → Handler x (Consumed x) → Server x → Type 0
  Reuses a f s = (result : Dict (Dict Consumer)) × (f s ≡ (ok (record a { result = result }), s))

  consume_found-Reuses :
      (c : Consumption) (transport : WebRtcTransport) (caps : RtpCapabilities) (t k pid : String)
      (found : List (ConsumerInMemory x)) (a : Consumed x) (s : Server x)
      → length found ≡ 1
      → Reuses a (consume_found x c transport caps t k pid found a) s
  unfolding consume_found
  consume_found-Reuses c transport caps t k pid [] a s h = absurd (omega (arith, h))
  consume_found-Reuses c transport caps t k pid (v ∷ []) a s h =
      (insert_in t k v.consumer a.result, refl)
  consume_found-Reuses c transport caps t k pid (v ∷ w ∷ vs) a s h = absurd (omega (arith, h))

  consume_kinds-Reuses :
      (c : Consumption) (transport : WebRtcTransport) (caps : RtpCapabilities)
      (existing : Dict (ConsumerInMemory x)) (t : String) (kinds : Dict String) (a : Consumed x)
      (s : Server x)
      → All (λ kind. length (values_where (is_existing x c t kind.0) existing) ≡ 1) kinds
      → Reuses a (consume_kinds x c transport caps existing t kinds a) s
  unfolding consume_kinds
  consume_kinds-Reuses c transport caps existing t [] a s h = (a.result, refl)
  consume_kinds-Reuses c transport caps existing t (entry ∷ kinds) a s (one, h) =
      let (r, here) = consume_found-Reuses c transport caps t entry.0 entry.1 _ a s one in
      let b : Consumed x = record a { result = r } in
      let (r', rest) = consume_kinds-Reuses c transport caps existing t kinds b s h in
      (r', bind-ok _ (consume_kinds x c transport caps existing t kinds) here ∙ rest)

  consume_targets-Reuses :
      (c : Consumption) (transport : WebRtcTransport) (caps : RtpCapabilities)
      (existing : Dict (ConsumerInMemory x)) (targets : Dict (Dict String)) (a : Consumed x)
      (s : Server x)
      → HasEach c existing targets
      → Reuses a (consume_targets x c transport caps existing targets a) s
  unfolding consume_targets
  consume_targets-Reuses c transport caps existing [] a s h = (a.result, refl)
  consume_targets-Reuses c transport caps existing (entry ∷ targets) a s (one, h) =
      let (r, here) = consume_kinds-Reuses c transport caps existing entry.0 entry.1 a s one in
      let b : Consumed x = record a { result = r } in
      let (r', rest) = consume_targets-Reuses c transport caps existing targets b s h in
      (r', bind-ok _ (consume_targets x c transport caps existing targets) here ∙ rest)

  -- Nothing new is written to the memory.
  write_nothing :
      (m : String) (r : Dict (Dict Consumer)) (o : String × Bool) (s : Server x)
      → HasShards x s
      → (mutate x.driver [] (context x true default_tx_opts s.pool)).0 ≡ ok o
      → write_consumers x m (record { temp_consumer_map = []; mysql_entities = []; result = r }) s
        ≡ (ok r, record s { pool = (mutate x.driver [] (context x true default_tx_opts s.pool)).1 })
  unfolding write_consumers mutate_db on_pool finish_consuming extend
  write_nothing m r o s h e =
      let s' : Server x = record s {
        pool = (mutate x.driver [] (context x true default_tx_opts s.pool)).1;
      } in
      bind-ok _ _ (ap (λ o. (answer x o, s')) e)
      ∙ bind-ok _ _ (write_shard-with_shard x m (λ shard. shard) s' h)
      ∙ ap (λ s. (ok r, s)) (with_shard-same x m s' h)

  pub create_consumer-reuses :
      (c : Consumption) (targets : Dict (Dict String)) (caps : RtpCapabilities)
      (t : TransportInMemory x) (o : String × Bool) (s : Server x)
      → HasShards x s
      → lookup c.consumer_transport_id s.transport_map ≡ some t
      → HasEach c (shard_of x c.meeting_id s) targets
      → (mutate x.driver [] (context x true default_tx_opts s.pool)).0 ≡ ok o
      → (r : Dict (Dict Consumer)) × (create_consumer x c targets caps s ≡ (
        ok r,
        record s { pool = (mutate x.driver [] (context x true default_tx_opts s.pool)).1 },
      ))
  unfolding create_consumer consume_all
  create_consumer-reuses c targets caps t o s h known each written =
      let existing = shard_of x c.meeting_id s in
      let nothing : Consumed x = record {
        temp_consumer_map = [];
        mysql_entities = [];
        result = [];
      } in
      let (r, loops) = consume_targets-Reuses c t.transport caps existing targets nothing s each in
      (
        r,
        bind-ok _ _ refl
            ∙ bind-ok _ _ (ap (λ o. unwrap o s) known)
            ∙ bind-ok _ (consume_all x c targets caps t) (get_shard-shard_of x c.meeting_id s h)
            ∙ bind-ok _ (write_consumers x c.meeting_id) loops
            ∙ write_nothing c.meeting_id r o s h written,
      )

  -- The producers and the consumers are the same, or an answer is returned.
  abbrev Kept : {A : Type 0} → Server x → Outcome String A × Server x → Type 0
  Kept {A} s r = SameMedia x s r.1 ⊎ ((a : A) × (r.0 ≡ ok a))

  finish_consuming-Kept :
      (m : String) (b : Consumed x) (o : Outcome DbError (String × Bool)) (s : Server x)
      → HasShards x s
      → Kept s (resume (finish_consuming x m b) (answer x o, s))
  unfolding finish_consuming
  finish_consuming-Kept m b (ok a) s h =
      let f : Dict (ConsumerInMemory x) → Dict (ConsumerInMemory x) =
        λ shard. extend shard b.temp_consumer_map in
      inr (b.result, ap (λ r. r.0) (bind-ok _ _ (write_shard-with_shard x m f s h)))
  finish_consuming-Kept m b (err e) s h = inl (refl, refl)
  finish_consuming-Kept m b panic s h = inl (refl, refl)

  write_consumers-Kept :
      (m : String) (o : Outcome String (Consumed x)) (s s' : Server x)
      → HasShards x s
      → SameMedia x s s'
      → Kept s (resume (write_consumers x m) (o, s'))
  unfolding write_consumers mutate_db on_pool ◌>>=◌
  write_consumers-Kept m (ok b) s s' h same =
      elim (finish_consuming-Kept m b
        (mutate x.driver b.mysql_entities (context x true default_tx_opts s'.pool)).0
        (record s' {
          pool = (mutate x.driver b.mysql_entities (context x true default_tx_opts s'.pool)).1;
        })
        (HasShards-same x s s' same.1 h)) [
          | inl e ↦ inl (e.0 ∙ same.0, e.1 ∙ same.1)
          | inr r ↦ inr r
        ]
  write_consumers-Kept m (err e) s s' h same = inl same
  write_consumers-Kept m panic s s' h same = inl same

  create_from-Kept :
      (c : Consumption) (targets : Dict (Dict String)) (caps : RtpCapabilities)
      (o : Option (TransportInMemory x)) (s : Server x)
      → HasShards x s
      → Kept s ((unwrap o >>= λ t. get_shard x c.meeting_id >>= consume_all x c targets caps t) s)
  unfolding ◌>>=◌ consume_all
  create_from-Kept c targets caps none s h = inl (refl, refl)
  create_from-Kept c targets caps (some t) s h =
      let existing = shard_of x c.meeting_id s in
      let nothing : Consumed x = record {
        temp_consumer_map = [];
        mysql_entities = [];
        result = [];
      } in
      let r = consume_targets x c t.transport caps existing targets nothing s in
      subst (Kept s)
        (sym (
          bind-ok (get_shard x c.meeting_id) (consume_all x c targets caps t)
            (get_shard-shard_of x c.meeting_id s h)))
        (write_consumers-Kept c.meeting_id r.0 s r.1 h
          (consume_targets-Keeps x c t.transport caps existing targets nothing s))

  -- With at least one shard, unless `create_consumer` returns an answer, be it that its transport is
  -- unknown, that a consumer cannot be made, even after others were, or that the database refuses
  -- them, the producers and the consumers in memory are as they were.
  pub create_consumer-unchanged :
      (c : Consumption) (targets : Dict (Dict String)) (caps : RtpCapabilities) (s : Server x)
      → HasShards x s
      → ((r : Dict (Dict Consumer)) → (create_consumer x c targets caps s).0 ≢ ok r)
      → SameMedia x s (create_consumer x c targets caps s).1
  unfolding create_consumer ◌>>=◌
  create_consumer-unchanged c targets caps s h fails =
      elim (create_from-Kept c targets caps (lookup c.consumer_transport_id s.transport_map) s h) [
        | inl same ↦ same
        | inr (r, e) ↦ absurd (fails r e)
      ]
