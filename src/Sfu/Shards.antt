-- ===== src/Sfu/Shards.antt =====
-- The shards of the consumers, `get_shard` of src/mediasoupv1/mod.rs: a meeting's shard, and what a
-- write to it does.
use native.Mathlib.Decide.{ℕ_discrete}
use doordarshan_media_server.Base.{
  ℕ, zero, suc, ◌<◌, ◌≡◌, ◌≢◌, ◌⊎◌, inl, inr, sym, refl, ap, ◌∙◌, unwrap, ◌%◌, String, Option, none,
  some, List, [], ◌∷◌, arith, ok,
}
use doordarshan_media_server.Base.Lists.{length, get_elem?, set}
use doordarshan_media_server.Base.Dict.{Dict}
use doordarshan_media_server.Base.Action.{bind-ok}
use doordarshan_media_server.Sfu.Platform.{Platform}
use doordarshan_media_server.Sfu.Server.{
  ConsumerInMemory, Server, shard_index, find_shard, get_shard, write_shard,
}

module _ {ℓ} {A : Type ℓ} where
  get_elem?-some : (l : List A) (i : ℕ) → i < length l → (a : A) × (get_elem? l i ≡ some a)
  get_elem?-some [] i h = absurd (omega (arith, h))
  get_elem?-some (a ∷ l) zero h = (a, refl)
  get_elem?-some (a ∷ l) (suc i) h = get_elem?-some l i (omega (arith, h))

  get_elem?-set : (l : List A) (i : ℕ) (a : A) → i < length l → get_elem? (set l i a) i ≡ some a
  get_elem?-set [] i a h = absurd (omega (arith, h))
  get_elem?-set (b ∷ l) zero a h = refl
  get_elem?-set (b ∷ l) (suc i) a h = get_elem?-set l i a (omega (arith, h))

  get_elem?-set_other :
      (l : List A) (i j : ℕ) (a : A) → i ≢ j → get_elem? (set l i a) j ≡ get_elem? l j
  get_elem?-set_other [] i j a h = refl
  get_elem?-set_other (b ∷ l) zero zero a h = absurd (h refl)
  get_elem?-set_other (b ∷ l) zero (suc j) a h = refl
  get_elem?-set_other (b ∷ l) (suc i) zero a h = refl
  get_elem?-set_other (b ∷ l) (suc i) (suc j) a h = get_elem?-set_other l i j a (λ e. h (ap suc e))

  set-same : (l : List A) (i : ℕ) (a : A) → get_elem? l i ≡ some a → set l i a ≡ l
  set-same [] i a e = refl
  set-same (b ∷ l) zero a e = ground (arith, e)
  set-same (b ∷ l) (suc i) a e = ap (λ r. b ∷ r) (set-same l i a e)

  length-set : (l : List A) (i : ℕ) (a : A) → length (set l i a) ≡ length l
  length-set [] i a = refl
  length-set (b ∷ l) zero a = refl
  length-set (b ∷ l) (suc i) a = ground (arith, length-set l i a)

module _ (x : Platform) where
  abbrev pub or_empty : Option (Dict (ConsumerInMemory x)) → Dict (ConsumerInMemory x)
  or_empty none = []
  or_empty (some shard) = shard

  abbrev pub shard_in : String → List (Dict (ConsumerInMemory x)) → Dict (ConsumerInMemory x)
  shard_in meeting_id shards = or_empty (get_elem? shards (shard_index x meeting_id shards))

  -- The consumers in a meeting's shard.
  abbrev pub shard_of : String → Server x → Dict (ConsumerInMemory x)
  shard_of meeting_id s = shard_in meeting_id s.consumer_map_shards

  -- `create_inner` makes at least one shard.
  abbrev pub HasShards : Server x → Type 0
  HasShards s = 0 < length s.consumer_map_shards

  -- The server after a write to a meeting's shard.
  abbrev pub with_shard :
      String → (Dict (ConsumerInMemory x) → Dict (ConsumerInMemory x)) → Server x → Server x
  with_shard meeting_id f s = record s {
    consumer_map_shards =
        set s.consumer_map_shards (shard_index x meeting_id s.consumer_map_shards)
          (f (shard_of meeting_id s));
  }

  index_lt :
      (m : String) (l : List (Dict (ConsumerInMemory x)))
      → 0 < length l
      → shard_index x m l < length l
  unfolding shard_index
  index_lt m l h = omega (arith, h)

  shard_in-found :
      (m : String) (l : List (Dict (ConsumerInMemory x)))
      → 0 < length l
      → get_elem? l (shard_index x m l) ≡ some (shard_in m l)
  shard_in-found m l h = let (a, e) = get_elem?-some l (shard_index x m l) (index_lt m l h) in cc

  find_shard-shard_in :
      (m : String) (l : List (Dict (ConsumerInMemory x)))
      → 0 < length l
      → find_shard x m l ≡ ok (shard_in m l)
  unfolding find_shard
  find_shard-shard_in m [] h = absurd (omega (arith, h))
  find_shard-shard_in m (d ∷ ds) h = ap unwrap (shard_in-found m (d ∷ ds) h)

  -- With at least one shard, the index is in bounds: `get_shard` returns the meeting's shard.
  pub get_shard-shard_of :
      (m : String) (s : Server x) → HasShards s → get_shard x m s ≡ (ok (shard_of m s), s)
  unfolding get_shard
  get_shard-shard_of m s h = rw (find_shard-shard_in m s.consumer_map_shards h)

  pub write_shard-with_shard :
      (m : String) (f : Dict (ConsumerInMemory x) → Dict (ConsumerInMemory x)) (s : Server x)
      → HasShards s
      → write_shard x m f s ≡ (ok tt, with_shard m f s)
  unfolding write_shard
  write_shard-with_shard m f s h = bind-ok _ _ (get_shard-shard_of m s h)

  pub HasShards-with_shard :
      (m : String) (f : Dict (ConsumerInMemory x) → Dict (ConsumerInMemory x)) (s : Server x)
      → HasShards s
      → HasShards (with_shard m f s)
  HasShards-with_shard m f s h = omega (arith, h, length-set s.consumer_map_shards _ _)

  index-set :
      (m : String) (l : List (Dict (ConsumerInMemory x))) (i : ℕ) (d : Dict (ConsumerInMemory x))
      → shard_index x m (set l i d) ≡ shard_index x m l
  unfolding shard_index
  index-set m l i d = ap (λ n. x.hash m % n) (length-set l i d)

  shard_in-set :
      (m : String) (l : List (Dict (ConsumerInMemory x))) (d : Dict (ConsumerInMemory x))
      → 0 < length l
      → shard_in m (set l (shard_index x m l) d) ≡ d
  shard_in-set m l d h =
      ap (λ i. or_empty (get_elem? (set l (shard_index x m l) d) i))
        (index-set m l (shard_index x m l) d)
      ∙ ap or_empty (get_elem?-set l (shard_index x m l) d (index_lt m l h))

  pub shard_of-with_shard :
      (m : String) (f : Dict (ConsumerInMemory x) → Dict (ConsumerInMemory x)) (s : Server x)
      → HasShards s
      → shard_of m (with_shard m f s) ≡ f (shard_of m s)
  shard_of-with_shard m f s h =
      let l = s.consumer_map_shards in shard_in-set m l (f (shard_of m s)) h

  -- A write that changes nothing.
  pub with_shard-same :
      (m : String) (s : Server x) → HasShards s → with_shard m (λ shard. shard) s ≡ s
  with_shard-same m s h =
      let l = s.consumer_map_shards in
      ap (λ shards. record s { consumer_map_shards = shards })
        (set-same l (shard_index x m l) (shard_in m l) (shard_in-found m l h))

  -- After a write to a meeting's shard, another meeting has that shard, or its own as it was.
  pub shard_of-with_shard_other :
      (m n : String) (f : Dict (ConsumerInMemory x) → Dict (ConsumerInMemory x)) (s : Server x)
      → HasShards s
      → ((shard_of n (with_shard m f s) ≡ f (shard_of m s)) × (shard_of n s ≡ shard_of m s))
        ⊎ (shard_of n (with_shard m f s) ≡ shard_of n s)
  shard_of-with_shard_other m n f s h =
      let l = s.consumer_map_shards in
      let i = shard_index x m l in
      let j = shard_index x n l in
      let index = index-set n l i (f (shard_of m s)) in
      elim (ℕ_discrete i j) [
        | yes e ↦ inl (
          ap (λ k. or_empty (get_elem? (set l i (f (shard_of m s))) k)) (index ∙ sym e)
              ∙ ap or_empty (get_elem?-set l i (f (shard_of m s)) (index_lt m l h)),
          ap (λ k. or_empty (get_elem? l k)) (sym e),
        )
        | no d ↦ inr (
            ap (λ k. or_empty (get_elem? (set l i (f (shard_of m s))) k)) index
            ∙ ap or_empty (get_elem?-set_other l i j (f (shard_of m s)) d))
      ]
