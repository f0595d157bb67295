-- ===== src/Sfu/Reachable/Fresh.antt =====
-- The server that `create_inner` of src/mediasoupv1/mod.rs makes, and those that are reached from it.
use mathlib.Core.Path.{subst}
use doordarshan_media_server.Base.{
  ℕ, zero, suc, ◌≤◌, ◌<◌, ◌≡◌, refl, sym, String, Bool, ◌⊎◌, inl, inr, [], arith, Outcome, ok, err,
  panic,
}
use doordarshan_media_server.Base.Lists.{length, get_elem?}
use doordarshan_media_server.Base.Dict.{Dict}
use doordarshan_media_server.Base.Action.{Action, ◌>>=◌, resume}
use doordarshan_media_server.Db.{DbError}
use doordarshan_media_server.Sfu.Platform.{Platform}
use doordarshan_media_server.Sfu.Server.{SfuConfig, Server, shard_index}
use doordarshan_media_server.Sfu.Shards.{or_empty, shard_of}
use doordarshan_media_server.Sfu.Start.{
  Outside, new_shards, new_server, finish_starting, create_inner,
}
use doordarshan_media_server.Sfu.Consuming.{values_where, Consumption, is_existing}
use doordarshan_media_server.Sfu.Consuming.Counts.{count_where}
use doordarshan_media_server.Sfu.Producing.{Production, is_produced}
use doordarshan_media_server.Sfu.Producing.Doubles.{IsSafe}
use doordarshan_media_server.Sfu.Reachable.{Steps, Steps-IsSafe}

module _ (x : Platform) where
  length-new_shards : (n : ℕ) → length (new_shards x n) ≡ n
  unfolding new_shards
  length-new_shards zero = refl
  length-new_shards (suc n) = omega (arith, length-new_shards n)

  new_shards-empty : (n i : ℕ) → or_empty x (get_elem? (new_shards x n) i) ≡ []
  unfolding new_shards
  new_shards-empty zero i = refl
  new_shards-empty (suc n) zero = refl
  new_shards-empty (suc n) (suc i) = new_shards-empty n i

  new_server-IsSafe :
      (config : SfuConfig) (workers : Dict x.Worker) (o : Outside x)
      → 0 < config.consumer_shard_count
      → IsSafe x (new_server x config workers o)
  unfolding new_server values_where
  new_server-IsSafe config workers o h = (
    (
      omega (arith, h, length-new_shards config.consumer_shard_count),
      λ d t k.
          subst (λ shard. count_where (is_existing x d t k) shard ≤ 1)
            (sym (
              new_shards-empty config.consumer_shard_count
                (shard_index x d.meeting_id (new_shards x config.consumer_shard_count))))
            (omega arith),
    ),
    λ p. omega arith,
  )

  -- Whatever server is made is safe.
  abbrev Makes : Action (Outside x) (Server x) → Type 0
  Makes f = (o : Outside x) (s : Server x) → (f o).0 ≡ ok s → IsSafe x s

  resume-Makes :
      {A : Type 0} (f : A → Action (Outside x) (Server x)) (r : Outcome String A) (o : Outside x)
      (s : Server x)
      → ((a : A) → Makes (f a))
      → (resume f (r, o)).0 ≡ ok s
      → IsSafe x s
  resume-Makes f (ok a) o s h e = h a o s e
  resume-Makes f (err e') o s h e = absurd cc
  resume-Makes f panic o s h e = absurd cc

  Makes-bind :
      {A : Type 0} (m : Action (Outside x) A) (f : A → Action (Outside x) (Server x))
      → ((a : A) → Makes (f a))
      → Makes (m >>= f)
  unfolding ◌>>=◌
  Makes-bind m f h o s = resume-Makes f (m o).0 (m o).1 s h

  finish_starting-Makes :
      (config : SfuConfig) (workers : Dict x.Worker) (r : (String × Bool) ⊎ DbError)
      → 0 < config.consumer_shard_count
      → Makes (finish_starting x config workers r)
  unfolding finish_starting
  finish_starting-Makes config workers (inr e) h = λ o s eq. absurd cc
  finish_starting-Makes config workers (inl a) h = Makes-bind _ _ λ _ o s e.
      let made : new_server x config workers o ≡ s = cc in
      subst (IsSafe x) made (new_server-IsSafe config workers o h)

  created-IsSafe :
      (config : SfuConfig) (boot : ℕ) (ip tenant : String)
      → 0 < config.consumer_shard_count
      → Makes (create_inner x config boot ip tenant)
  unfolding create_inner
  created-IsSafe config boot ip tenant h =
      Makes-bind _ _ λ workers. Makes-bind _ _ λ r. finish_starting-Makes config workers r h

  -- Of a server that `create_inner` made with at least one shard, after any number of calls of its
  -- handlers and of changes in the world outside, in any order, whatever the calls returned: a
  -- participant of a meeting has at most one producer of each kind, and in the shard of a meeting, a
  -- participant's instance has at most one consumer of each kind of each participant, so the loop of
  -- `create_consumer` never finds more than one.
  pub reached-at_most_one :
      (config : SfuConfig) (boot : ℕ) (ip tenant : String) (o : Outside x) (s t : Server x)
      (c : Consumption) (target kind : String) (p : Production)
      → 0 < config.consumer_shard_count
      → (create_inner x config boot ip tenant o).0 ≡ ok s
      → Steps x s t
      → (count_where (is_existing x c target kind) (shard_of x c.meeting_id t) ≤ 1)
        × (count_where (is_produced x p) t.producer_map ≤ 1)
  reached-at_most_one config boot ip tenant o s t c target kind p h made steps =
      let safe = Steps-IsSafe x steps (created-IsSafe config boot ip tenant h o s made) in
      (safe.0.1 c target kind, safe.1 p)
