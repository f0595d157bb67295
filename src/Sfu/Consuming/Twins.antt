-- ===== src/Sfu/Consuming/Twins.antt =====
-- `create_consumer` of src/mediasoupv1/mod.rs makes no second consumer of what a participant consumes
-- already.
use mathlib.Core.Path.{subst}
use doordarshan_media_server.Base.{
  ℕ, ◌+◌, ◌≤◌, ◌≡◌, refl, sym, ap, String, Bool, Option, none, some, inl, inr, List, [], ◌∷◌,
  Outcome, ok, err, panic, arith, if◌then◌else◌, is_some,
}
use doordarshan_media_server.Base.Dict.{Dict, lookup, extend}
use doordarshan_media_server.Base.Action.{◌>>=◌, resume, bind-ok, unwrap}
use doordarshan_media_server.Db.{DbError}
use doordarshan_media_server.Sfu.Platform.{Platform}
use doordarshan_media_server.Sfu.Server.{
  TransportInMemory, ConsumerInMemory, Server, on_world, on_pool, mutate_db, answer, get_shard,
}
use doordarshan_media_server.Sfu.Shards.{
  HasShards, shard_in, shard_of, with_shard, get_shard-shard_of, write_shard-with_shard,
  shard_of-with_shard_other, HasShards-with_shard,
}
use doordarshan_media_server.Sfu.Transports.Media.{SameMedia, Keeps, Keeps-bind, Keeps-map_err}
use doordarshan_media_server.Sfu.Consuming.{
  values_where, Consumption, Consumed, is_existing, parse_producer_id, consume_found, consume_kinds,
  consume_targets, finish_consuming, write_consumers, consume_all, create_consumer,
}
use doordarshan_media_server.Sfu.Consuming.Counts.{count_where, count_where-extend}
use doordarshan_media_server.Sfu.Consuming.Rounds.{room, Added, AreDistinct, consume_targets-Adds}

module _ (x : Platform) where
  open x use {WebRtcTransport, RtpCapabilities, Consumer}

  -- In the shard of its meeting, no participant's instance has two consumers of the same kind of the
  -- same participant.
  abbrev NoTwinsIn : List (Dict (ConsumerInMemory x)) → Type 0
  NoTwinsIn shards =
      (d : Consumption) (t k : String)
      → count_where (is_existing x d t k) (shard_in x d.meeting_id shards) ≤ 1

  abbrev pub NoTwins : Server x → Type 0
  NoTwins s = NoTwinsIn s.consumer_map_shards

  pub NoTwins-same :
      (s s' : Server x) → s'.consumer_map_shards ≡ s.consumer_map_shards → NoTwins s → NoTwins s'
  NoTwins-same s s' e h = subst NoTwinsIn (sym e) h

  pub HasShards-same :
      (s s' : Server x)
      → s'.consumer_map_shards ≡ s.consumer_map_shards
      → HasShards x s
      → HasShards x s'
  HasShards-same s s' e h = rw e h

  pub NoTwins-with_shard :
      (m : String) (f : Dict (ConsumerInMemory x) → Dict (ConsumerInMemory x)) (s : Server x)
      → HasShards x s
      → ((d : Consumption) (t k : String)
          → count_where (is_existing x d t k) (shard_of x m s) ≤ 1
          → count_where (is_existing x d t k) (f (shard_of x m s)) ≤ 1)
      → NoTwins s
      → NoTwins (with_shard x m f s)
  NoTwins-with_shard m f s h keeps twins d t k =
      elim (shard_of-with_shard_other x m d.meeting_id f s h) [
        | inl (after, before) ↦
            subst (λ shard. count_where (is_existing x d t k) shard ≤ 1) (sym after)
              (keeps d t k
                (subst (λ shard. count_where (is_existing x d t k) shard ≤ 1) before (twins d t k)))
        | inr same ↦
            subst (λ shard. count_where (is_existing x d t k) shard ≤ 1) (sym same) (twins d t k)
      ]

  consume_found-Keeps :
      (c : Consumption) (transport : WebRtcTransport) (caps : RtpCapabilities) (t k pid : String)
      (found : List (ConsumerInMemory x)) (a : Consumed x)
      → Keeps x (consume_found x c transport caps t k pid found a)
  unfolding consume_found parse_producer_id on_world
  consume_found-Keeps c transport caps t k pid [] a =
      Keeps-bind x _ _ (Keeps-map_err x _ _ (λ s. (refl, refl)))
        (λ id. Keeps-bind x _ _ (Keeps-map_err x _ _ (λ s. (refl, refl))) (λ n s. (refl, refl)))
  consume_found-Keeps c transport caps t k pid (v ∷ []) a = λ s. (refl, refl)
  consume_found-Keeps c transport caps t k pid (v ∷ w ∷ vs) a = λ s. (refl, refl)

  consume_kinds-Keeps :
      (c : Consumption) (transport : WebRtcTransport) (caps : RtpCapabilities)
      (existing : Dict (ConsumerInMemory x)) (t : String) (kinds : Dict String) (a : Consumed x)
      → Keeps x (consume_kinds x c transport caps existing t kinds a)
  unfolding consume_kinds
  consume_kinds-Keeps c transport caps existing t [] a = λ s. (refl, refl)
  consume_kinds-Keeps c transport caps existing t (entry ∷ kinds) a =
      Keeps-bind x _ _ (consume_found-Keeps c transport caps t entry.0 entry.1 _ a)
        (consume_kinds-Keeps c transport caps existing t kinds)

  pub consume_targets-Keeps :
      (c : Consumption) (transport : WebRtcTransport) (caps : RtpCapabilities)
      (existing : Dict (ConsumerInMemory x)) (targets : Dict (Dict String)) (a : Consumed x)
      → Keeps x (consume_targets x c transport caps existing targets a)
  unfolding consume_targets
  consume_targets-Keeps c transport caps existing [] a = λ s. (refl, refl)
  consume_targets-Keeps c transport caps existing (entry ∷ targets) a =
      Keeps-bind x _ _ (consume_kinds-Keeps c transport caps existing entry.0 entry.1 a)
        (consume_targets-Keeps c transport caps existing targets)

  -- With at least one shard and no twins.
  abbrev pub IsSound : Server x → Type 0
  IsSound s = HasShards x s × NoTwins s

  abbrev nothing : Consumed x
  nothing = record { temp_consumer_map = []; mysql_entities = []; result = [] }

  -- Of each kind, there is room for what the loops made.
  abbrev Fits : Dict (ConsumerInMemory x) → Consumed x → Type 0
  Fits existing b =
      (d : Consumption) (t k : String)
      → count_where (is_existing x d t k) b.temp_consumer_map ≤ room x d t k existing

  finish_consuming-IsSound :
      (m : String) (b : Consumed x) (o : Outcome DbError (String × Bool)) (s : Server x)
      → Fits (shard_of x m s) b
      → IsSound s
      → IsSound (resume (finish_consuming x m b) (answer x o, s)).1
  unfolding finish_consuming
  finish_consuming-IsSound m b (ok a) s fits (h, twins) =
      let f : Dict (ConsumerInMemory x) → Dict (ConsumerInMemory x) =
        λ shard. extend shard b.temp_consumer_map in
      let after = bind-ok _ _ (write_shard-with_shard x m f s h) in
      subst IsSound (sym (ap (λ r. r.1) after)) (
        HasShards-with_shard x m f s h,
        NoTwins-with_shard m f s h
            (λ d t k one. omega (
              arith,
              one,
              fits d t k,
              count_where-extend (is_existing x d t k) (shard_of x m s) b.temp_consumer_map,
            ))
            twins,
      )
  finish_consuming-IsSound m b (err e) s fits sound = sound
  finish_consuming-IsSound m b panic s fits sound = sound

  write_consumers-IsSound :
      (m : String) (b : Consumed x) (s : Server x)
      → Fits (shard_of x m s) b
      → IsSound s
      → IsSound (write_consumers x m b s).1
  unfolding write_consumers mutate_db on_pool ◌>>=◌
  write_consumers-IsSound m b s fits sound = finish_consuming-IsSound m b _ _ fits sound

  if_le : (b : Bool) (m n : ℕ) → n ≤ 0 + (if b then m else 0) → n ≤ m
  if_le b m n h = ground arith

  resumed-IsSound :
      (m : String) (o : Outcome String (Consumed x)) (s s' : Server x) (visited : String → Bool)
      → SameMedia x s s'
      → ((d : Consumption) (t k : String)
          → Added x d t k nothing (if visited t then room x d t k (shard_of x m s) else 0) o)
      → IsSound s
      → IsSound (resume (write_consumers x m) (o, s')).1
  unfolding values_where
  resumed-IsSound m (ok b) s s' visited same added (h, twins) =
      write_consumers-IsSound m b s'
        (λ d t k.
          subst
            (λ shards.
              count_where (is_existing x d t k) b.temp_consumer_map
              ≤ room x d t k (shard_in x m shards))
            (sym same.1) (if_le (visited t) (room x d t k (shard_of x m s)) _ (added d t k)))
        (HasShards-same s s' same.1 h, NoTwins-same s s' same.1 twins)
  resumed-IsSound m (err e) s s' visited same added (h, twins) =
      (HasShards-same s s' same.1 h, NoTwins-same s s' same.1 twins)
  resumed-IsSound m panic s s' visited same added (h, twins) =
      (HasShards-same s s' same.1 h, NoTwins-same s s' same.1 twins)

  create_from-IsSound :
      (c : Consumption) (targets : Dict (Dict String)) (caps : RtpCapabilities)
      (o : Option (TransportInMemory x)) (s : Server x)
      → AreDistinct x targets
      → IsSound s
      → IsSound
          ((unwrap o >>= λ t. get_shard x c.meeting_id >>= consume_all x c targets caps t) s).1
  unfolding ◌>>=◌ consume_all
  create_from-IsSound c targets caps none s distinct sound = sound
  create_from-IsSound c targets caps (some t) s distinct (h, twins) =
      let existing = shard_of x c.meeting_id s in
      let r = consume_targets x c t.transport caps existing targets nothing s in
      subst IsSound
        (sym (
          ap (λ r. r.1)
            (bind-ok (get_shard x c.meeting_id) (consume_all x c targets caps t)
              (get_shard-shard_of x c.meeting_id s h))))
        (resumed-IsSound c.meeting_id r.0 s r.1 (λ t. is_some (lookup t targets))
          (consume_targets-Keeps c t.transport caps existing targets nothing s)
          (λ d t' k.
            consume_targets-Adds x c d t.transport caps t' k existing targets nothing distinct s)
          (h, twins))

  -- With at least one shard and targets that do not repeat, `create_consumer` keeps the invariant that
  -- no participant's instance has two consumers of the same kind of the same participant in a
  -- meeting's shard, whatever it returns.
  pub create_consumer-IsSound :
      (c : Consumption) (targets : Dict (Dict String)) (caps : RtpCapabilities) (s : Server x)
      → AreDistinct x targets
      → IsSound s
      → IsSound (create_consumer x c targets caps s).1
  unfolding create_consumer ◌>>=◌
  create_consumer-IsSound c targets caps s distinct sound =
      create_from-IsSound c targets caps (lookup c.consumer_transport_id s.transport_map) s distinct
        sound
