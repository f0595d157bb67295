-- ===== src/Sfu/Consuming/Rounds.antt =====
-- The loops of `create_consumer`, src/mediasoupv1/mod.rs: how many consumers of a kind they make.
use doordarshan_media_server.Base.{
  ℕ, ◌+◌, ◌-◌, ◌≤◌, ◌≡◌, refl, sym, ap, ◌∙◌, String, Bool, true, ◌&&◌, none, List, [], ◌∷◌, Outcome,
  ok, err, panic, arith, eq_iff, if◌then◌else◌, ◌==◌, is_some,
}
use doordarshan_media_server.Base.Lists.{length, All}
use doordarshan_media_server.Base.Dict.{IsUnique, Dict, lookup}
use doordarshan_media_server.Base.Action.{◌>>=◌, resume}
use doordarshan_media_server.Sfu.Platform.{Platform}
use doordarshan_media_server.Sfu.Server.{ConsumerInMemory, Server, Handler}
use doordarshan_media_server.Sfu.Consuming.{
  values_where, Consumption, Consumed, is_existing, consumer_in_memory, add_consumer, consume_found,
  consume_kinds, consume_targets,
}
use doordarshan_media_server.Sfu.Consuming.Counts.{count_where, values_where-eq, count_where-insert}

module _ (x : Platform) where
  open x use {WebRtcTransport, RtpCapabilities, Consumer}

  -- A new consumer that the test of `d`, `t` and `k` accepts has them, so the tests agree.
  existing-agree :
      (c d : Consumption) (t t' k k' pid : String) (n : Consumer)
      → is_existing x d t' k' (consumer_in_memory x c t k pid n) ≡ true
      → (v : ConsumerInMemory x) → is_existing x c t k v ≡ is_existing x d t' k' v
  existing-agree c d t t' k k' pid n h v = ground (
    arith,
    h,
    eq_iff c.participant_id d.participant_id,
    eq_iff t t',
    eq_iff k k',
    eq_iff c.meeting_id d.meeting_id,
    eq_iff c.instance_id d.instance_id,
  )

  existing-same :
      (c d : Consumption) (t t' k k' pid : String) (n : Consumer)
      → is_existing x d t' k' (consumer_in_memory x c t k pid n) ≡ true
      → (t == t') && (k == k') ≡ true
  existing-same c d t t' k k' pid n h = ground (arith, h)

  -- How many more may be made: one if there is none.
  abbrev pub room : Consumption → String → String → Dict (ConsumerInMemory x) → ℕ
  room d t' k' existing = 1 - count_where (is_existing x d t' k') existing

  -- Of the consumers of `d`, `t` and `k`, at most so many were added.
  abbrev pub Added :
      Consumption → String → String → Consumed x → ℕ → Outcome String (Consumed x) → Type 0
  Added d t' k' a n (ok b) =
      let test = is_existing x d t' k' in
      count_where test b.temp_consumer_map ≤ count_where test a.temp_consumer_map + n
  Added d t' k' a n (err e) = Unit
  Added d t' k' a n panic = Unit

  add_consumer-Added :
      (c d : Consumption) (t t' k k' pid : String) (n : Consumer)
      (existing : Dict (ConsumerInMemory x)) (a : Consumed x)
      → values_where (is_existing x c t k) existing ≡ []
      → let test = is_existing x d t' k' in
        count_where test (add_consumer x c t k pid n a).temp_consumer_map
        ≤ count_where test a.temp_consumer_map
          + (if (t == t') && (k == k') then room d t' k' existing else 0)
  unfolding add_consumer
  add_consumer-Added c d t t' k k' pid n existing a e =
      let test = is_existing x d t' k' in
      let new = consumer_in_memory x c t k pid n in
      let none_exists : test new ≡ true → count_where test existing ≡ 0 = λ h.
        ap length (sym (values_where-eq _ _ existing (existing-agree c d t t' k k' pid n h)) ∙ e) in
      ground (
        arith,
        count_where-insert test (x.consumer_id n) new a.temp_consumer_map,
        existing-same c d t t' k k' pid n,
        none_exists,
      )

  abbrev pub Adds : Consumption → String → String → Consumed x → ℕ → Handler x (Consumed x) → Type 0
  Adds d t' k' a n f = (s : Server x) → Added d t' k' a n (f s).0

  resume-Added :
      {A : Type 0} (d : Consumption) (t' k' : String) (a : Consumed x) (n : ℕ)
      (f : A → Handler x (Consumed x)) (o : Outcome String A) (s : Server x)
      → ((y : A) → Adds d t' k' a n (f y))
      → Added d t' k' a n (resume f (o, s)).0
  resume-Added d t' k' a n f (ok y) s h = h y s
  resume-Added d t' k' a n f (err e) s h = tt
  resume-Added d t' k' a n f panic s h = tt

  -- After a call of something else.
  Adds-after :
      {A : Type 0} (d : Consumption) (t' k' : String) (a : Consumed x) (n : ℕ) (m : Handler x A)
      (f : A → Handler x (Consumed x))
      → ((y : A) → Adds d t' k' a n (f y))
      → Adds d t' k' a n (m >>= f)
  unfolding ◌>>=◌
  Adds-after d t' k' a n m f h s = resume-Added d t' k' a n f (m s).0 (m s).1 h

  Added-more :
      (d : Consumption) (t' k' : String) (a b : Consumed x) (m n : ℕ)
      (o : Outcome String (Consumed x))
      → Added d t' k' a m (ok b)
      → Added d t' k' b n o
      → Added d t' k' a (m + n) o
  Added-more d t' k' a b m n (ok r) h h' = omega (arith, h, h')
  Added-more d t' k' a b m n (err e) h h' = tt
  Added-more d t' k' a b m n panic h h' = tt

  resumed-Added :
      (d : Consumption) (t' k' : String) (a : Consumed x) (m n : ℕ)
      (f : Consumed x → Handler x (Consumed x)) (o : Outcome String (Consumed x)) (s : Server x)
      → Added d t' k' a m o
      → ((b : Consumed x) → Adds d t' k' b n (f b))
      → Added d t' k' a (m + n) (resume f (o, s)).0
  resumed-Added d t' k' a m n f (ok b) s h hf = Added-more d t' k' a b m n (f b s).0 h (hf b s)
  resumed-Added d t' k' a m n f (err e) s h hf = tt
  resumed-Added d t' k' a m n f panic s h hf = tt

  -- One round after another.
  Adds-bind :
      (d : Consumption) (t' k' : String) (a : Consumed x) (m n : ℕ) (g : Handler x (Consumed x))
      (f : Consumed x → Handler x (Consumed x))
      → Adds d t' k' a m g
      → ((b : Consumed x) → Adds d t' k' b n (f b))
      → Adds d t' k' a (m + n) (g >>= f)
  unfolding ◌>>=◌
  Adds-bind d t' k' a m n g f h hf s = resumed-Added d t' k' a m n f (g s).0 (g s).1 (h s) hf

  consume_found-Adds :
      (c d : Consumption) (transport : WebRtcTransport) (caps : RtpCapabilities)
      (t t' k k' pid : String) (existing : Dict (ConsumerInMemory x))
      (found : List (ConsumerInMemory x)) (a : Consumed x)
      → values_where (is_existing x c t k) existing ≡ found
      → Adds d t' k' a
          (if (t == t') && (k == k') then room d t' k' existing else 0)
          (consume_found x c transport caps t k pid found a)
  unfolding consume_found
  consume_found-Adds c d transport caps t t' k k' pid existing [] a e =
      Adds-after d t' k' a _ _ _ λ producer_id.
        Adds-after d t' k' a _ _ _ λ n s. add_consumer-Added c d t t' k k' pid n existing a e
  consume_found-Adds c d transport caps t t' k k' pid existing (v ∷ []) a e = λ s. omega arith
  consume_found-Adds c d transport caps t t' k k' pid existing (v ∷ w ∷ vs) a e = λ s. tt

  Added-le :
      (d : Consumption) (t' k' : String) (a : Consumed x) (m n : ℕ)
      (o : Outcome String (Consumed x))
      → m ≤ n
      → Added d t' k' a m o
      → Added d t' k' a n o
  Added-le d t' k' a m n (ok b) h h' = omega (arith, h, h')
  Added-le d t' k' a m n (err e) h h' = tt
  Added-le d t' k' a m n panic h h' = tt

  Adds-le :
      (d : Consumption) (t' k' : String) (a : Consumed x) (m n : ℕ) (f : Handler x (Consumed x))
      → m ≤ n
      → Adds d t' k' a m f
      → Adds d t' k' a n f
  Adds-le d t' k' a m n f h hf s = Added-le d t' k' a m n (f s).0 h (hf s)

  -- Of two entries with different keys, one is looked for.
  one_of_two :
      {V : Type 0} (b : Bool) (k k' : String) (v : V) (m : Dict V) (n : ℕ)
      → lookup k m ≡ none
      → (if b && (k == k') then n else 0) + (if b && is_some (lookup k' m) then n else 0)
        ≤ (if b && is_some (lookup k' ((k, v) ∷ m)) then n else 0)
  unfolding lookup
  one_of_two b k k' v m n alone = ground (arith, alone, eq_iff k k')

  consume_kinds-Adds :
      (c d : Consumption) (transport : WebRtcTransport) (caps : RtpCapabilities) (t t' k' : String)
      (existing : Dict (ConsumerInMemory x)) (kinds : Dict String) (a : Consumed x)
      → IsUnique kinds
      → Adds d t' k' a
          (if (t == t') && is_some (lookup k' kinds) then room d t' k' existing else 0)
          (consume_kinds x c transport caps existing t kinds a)
  unfolding consume_kinds
  consume_kinds-Adds c d transport caps t t' k' existing [] a unique = λ s. omega arith
  consume_kinds-Adds c d transport caps t t' k' existing ((k, pid) ∷ kinds) a (alone, unique) =
      Adds-le d t' k' a _ _ (consume_kinds x c transport caps existing t ((k, pid) ∷ kinds) a)
        (one_of_two (t == t') k k' pid kinds (room d t' k' existing) alone)
        (Adds-bind d t' k' a _ _ _ (consume_kinds x c transport caps existing t kinds)
          (consume_found-Adds c d transport caps t t' k k' pid existing _ a refl)
          (λ b. consume_kinds-Adds c d transport caps t t' k' existing kinds b unique))

  -- No target stands twice, and for none of them a kind.
  abbrev pub AreDistinct : Dict (Dict String) → Type 0
  AreDistinct targets = IsUnique targets × All (λ entry. IsUnique entry.1) targets

  at_most :
      (t t' k' : String) (kinds : Dict String) (targets : Dict (Dict String)) (n : ℕ)
      → lookup t targets ≡ none
      → (if (t == t') && is_some (lookup k' kinds) then n else 0)
          + (if is_some (lookup t' targets) then n else 0)
        ≤ (if is_some (lookup t' ((t, kinds) ∷ targets)) then n else 0)
  unfolding lookup
  at_most t t' k' kinds targets n alone = ground (arith, alone, eq_iff t t')

  pub consume_targets-Adds :
      (c d : Consumption) (transport : WebRtcTransport) (caps : RtpCapabilities) (t' k' : String)
      (existing : Dict (ConsumerInMemory x)) (targets : Dict (Dict String)) (a : Consumed x)
      → AreDistinct targets
      → Adds d t' k' a
          (if is_some (lookup t' targets) then room d t' k' existing else 0)
          (consume_targets x c transport caps existing targets a)
  unfolding consume_targets
  consume_targets-Adds c d transport caps t' k' existing [] a h = λ s. omega arith
  consume_targets-Adds c d transport caps t' k' existing ((t, kinds) ∷ targets) a
        ((alone, unique), (distinct, rest)) =
      Adds-le d t' k' a _ _ (consume_targets x c transport caps existing ((t, kinds) ∷ targets) a)
        (at_most t t' k' kinds targets (room d t' k' existing) alone)
        (Adds-bind d t' k' a _ _ _ (consume_targets x c transport caps existing targets)
          (consume_kinds-Adds c d transport caps t t' k' existing kinds a distinct)
          (λ b. consume_targets-Adds c d transport caps t' k' existing targets b (unique, rest)))
