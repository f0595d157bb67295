-- ===== src/Sfu/Leaving/Kept.antt =====
-- `leave_meeting` of src/mediasoupv1/mod.rs: what it leaves alone.
use mathlib.Core.Path.{subst}
use doordarshan_media_server.Base.{
  ℕ, suc, ◌≡◌, sym, ap, ◌∙◌, String, true, false, Option, some, List, [], ◌∷◌, arith, Outcome, ok,
  err, panic,
}
use doordarshan_media_server.Base.Lists.{contains, given}
use doordarshan_media_server.Base.Dict.{IsUnique, Dict, lookup, remove_all, lookup-remove_all}
use doordarshan_media_server.Base.Action.{bind-ok}
use doordarshan_media_server.Db.Driver.{default_tx_opts}
use doordarshan_media_server.Db.Single.{delete}
use doordarshan_media_server.Sfu.Platform.{Platform}
use doordarshan_media_server.Sfu.Server.{
  ProducerInMemory, ConsumerInMemory, Server, context, answer, on_pool, delete_db,
}
use doordarshan_media_server.Sfu.Shards.{HasShards, shard_of}
use doordarshan_media_server.Sfu.Queries.{
  consumers_where, producer_of_instance, consumer_of_instance,
}
use doordarshan_media_server.Sfu.Queries.Lookup.{found-test, found-remove_all}
use doordarshan_media_server.Sfu.Leaving.{
  LeaveMeetingResponse, leaving, leave_deleted, leave_meeting,
}
use doordarshan_media_server.Sfu.Leaving.Cleared.{
  found_producers, found_consumers, of_producers, LeftMaps, leave_in_memory-LeftMaps,
}
use doordarshan_media_server.Sfu.Leaving.Leave.{HasKeys}

module _ {V : Type 0} where
  kept :
      (ids : List String) (m : Dict V) (j : String) (v : V)
      → contains ids j ≡ false
      → lookup j m ≡ some v
      → lookup j (remove_all ids m) ≡ some v
  kept ids m j v h e = ground (arith, lookup-remove_all ids m j, h, e)

module _ (x : Platform) where
  -- Where the database deletes the participant, `leave_meeting` runs on the memory as it was.
  leave_meeting-LeftMaps :
      (p m i : String) (pt ct : Option String) (n : ℕ) (s : Server x)
      → HasShards x s
      → (delete x.driver (leaving x p m i ∷ []) (context x true default_tx_opts s.pool)).0
        ≡ ok (suc n)
      → let r = leave_meeting x p m i pt ct s in LeftMaps x p m i s r.0 r.1
  unfolding leave_meeting leave_deleted delete_db on_pool
  leave_meeting-LeftMaps p m i pt ct n s h e =
      let f = delete x.driver (leaving x p m i ∷ []) in
      let s₁ : Server x = record s { pool = (f (context x true default_tx_opts s.pool)).1 } in
      subst (λ r. LeftMaps x p m i s r.0 r.1) (sym (bind-ok _ _ (ap (λ o. (answer x o, s₁)) e)))
        (leave_in_memory-LeftMaps x p m i (given pt (given ct [])) s₁ h)

  -- A participant whom the database knows leaves: with at least one shard, and the producers each
  -- under its own id and no id twice, every producer that is not of the participant's instance in the
  -- meeting is still in memory, whatever is returned.
  pub leave_meeting-keeps_producer :
      (p m i : String) (pt ct : Option String) (n : ℕ) (s : Server x) (j : String)
      (v : ProducerInMemory x)
      → HasShards x s
      → HasKeys x m s
      → IsUnique s.producer_map
      → (delete x.driver (leaving x p m i ∷ []) (context x true default_tx_opts s.pool)).0
        ≡ ok (suc n)
      → lookup j s.producer_map ≡ some v
      → producer_of_instance x p m i v ≡ false
      → lookup j (leave_meeting x p m i pt ct s).1.producer_map ≡ some v
  leave_meeting-keeps_producer p m i pt ct n s j v h keys unique e here other =
      let left = leave_meeting-LeftMaps p m i pt ct n s h e in
      let ids = found_producers x p m i s in
      ap (lookup j) left.0
      ∙ kept ids s.producer_map j v (found-test _ _ s.producer_map j v keys.0 unique here other)
          here

  keeps_in_shard :
      (p m i : String) (s s' : Server x) (o : Outcome String LeaveMeetingResponse) (j : String)
      (v : ConsumerInMemory x)
      → LeftMaps x p m i s o s'
      → contains (found_consumers x p m i s) j ≡ false
      → contains (consumers_where x (of_producers x (found_producers x p m i s)) (shard_of x m s)) j
        ≡ false
      → lookup j (shard_of x m s) ≡ some v
      → lookup j (shard_of x m s') ≡ some v
  keeps_in_shard p m i s s' (ok r) j v (_, (_, ec)) own others here =
      let found = found_consumers x p m i s in
      let shard = remove_all found (shard_of x m s) in
      ap (lookup j) ec
      ∙ kept _ shard j v (found-remove_all _ _ found (shard_of x m s) j others)
          (kept found (shard_of x m s) j v own here)
  keeps_in_shard p m i s s' (err _) j v (_, ec) own others here =
      ap (lookup j) ec ∙ kept (found_consumers x p m i s) (shard_of x m s) j v own here
  keeps_in_shard p m i s s' panic j v (_, ec) own others here =
      ap (lookup j) ec ∙ kept (found_consumers x p m i s) (shard_of x m s) j v own here

  -- A participant whom the database knows leaves: with at least one shard, and the entries each under
  -- its own id and no id twice among the consumers of the meeting's shard, every consumer of the shard
  -- that is not of the participant's instance in the meeting and consumes none of its producers is
  -- still in memory, whatever is returned.
  pub leave_meeting-keeps_consumer :
      (p m i : String) (pt ct : Option String) (n : ℕ) (s : Server x) (j : String)
      (v : ConsumerInMemory x)
      → HasShards x s
      → HasKeys x m s
      → IsUnique (shard_of x m s)
      → (delete x.driver (leaving x p m i ∷ []) (context x true default_tx_opts s.pool)).0
        ≡ ok (suc n)
      → lookup j (shard_of x m s) ≡ some v
      → consumer_of_instance x p m i v ≡ false
      → contains (found_producers x p m i s) v.producer_id ≡ false
      → lookup j (shard_of x m (leave_meeting x p m i pt ct s).1) ≡ some v
  leave_meeting-keeps_consumer p m i pt ct n s j v h keys unique e here own others =
      let r = leave_meeting x p m i pt ct s in
      let shard = shard_of x m s in
      keeps_in_shard p m i s r.1 r.0 j v (leave_meeting-LeftMaps p m i pt ct n s h e)
        (found-test _ _ shard j v keys.1 unique here own)
        (found-test _ _ shard j v keys.1 unique here others) here
