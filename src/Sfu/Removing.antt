-- ===== src/Sfu/Removing.antt =====
-- What the handlers of src/mediasoupv1/mod.rs that close, leave, end, recreate, connect, pause and
-- resume do to the producers and the consumers in memory, as a relation on the states.
pub mod Closers
pub mod Leavers
pub mod Others
pub mod Controls
pub mod Makers
use mathlib.Core.Path.{subst}
use doordarshan_media_server.Base.{
  arith, ◌≡◌, refl, sym, ap, ◌∙◌, String, Bool, true, false, List, [], ◌∷◌, Outcome, ok, err, panic,
  unwrap, if◌then◌else◌,
}
use doordarshan_media_server.Base.Dict.{Dict, remove, remove_all}
use doordarshan_media_server.Base.Action.{◌>>=◌, resume, map_err}
use doordarshan_media_server.Sfu.Platform.{Platform}
use doordarshan_media_server.Sfu.Server.{
  ConsumerInMemory, Server, Handler, find_shard, get_shard, write_shard,
}
use doordarshan_media_server.Sfu.Shards.{HasShards, with_shard, write_shard-with_shard}
use doordarshan_media_server.Sfu.Transports.Media.{SameMedia, Keeps}

module _ (x : Platform) where
  -- The second state has the producers and the consumers of the first, less some that were removed.
  pub data Shrinks : Server x → Server x → Type 0 where
    kept : (s s' : Server x) → SameMedia x s s' → Shrinks s s'
    producer_removed :
        (id : String) (s s' : Server x)
        → s'.producer_map ≡ remove id s.producer_map
        → s'.consumer_map_shards ≡ s.consumer_map_shards
        → Shrinks s s'
    consumers_removed :
        (meeting_id : String) (ids : List String) (s s' : Server x)
        → HasShards x s
        → s'.producer_map ≡ s.producer_map
        → s'.consumer_map_shards ≡ (with_shard x meeting_id (remove_all ids) s).consumer_map_shards
        → Shrinks s s'
    after : (s s' s'' : Server x) → Shrinks s s' → Shrinks s' s'' → Shrinks s s''

  abbrev pub Removes : {A : Type 0} → Handler x A → Type 0
  Removes f = (s : Server x) → Shrinks s (f s).1

  resume-Shrinks :
      {A B : Type 0} (f : A → Handler x B) (o : Outcome String A) (s s' : Server x)
      → ((a : A) → Removes (f a))
      → Shrinks s s'
      → Shrinks s (resume f (o, s')).1
  resume-Shrinks f (ok a) s s' h e = Shrinks.after s s' (f a s').1 e (h a s')
  resume-Shrinks f (err e') s s' h e = e
  resume-Shrinks f panic s s' h e = e

  pub Removes-bind :
      {A B : Type 0} (m : Handler x A) (f : A → Handler x B)
      → Removes m
      → ((a : A) → Removes (f a))
      → Removes (m >>= f)
  unfolding ◌>>=◌
  Removes-bind m f hm hf s = resume-Shrinks f (m s).0 s (m s).1 hf (hm s)

  pub Removes-map_err :
      {A : Type 0} (f : String → String) (m : Handler x A) → Removes m → Removes (map_err f m)
  unfolding map_err
  Removes-map_err f m h s = h s

  pub Removes-if :
      {A : Type 0} (b : Bool) (f g : Handler x A)
      → Removes f
      → Removes g
      → Removes (if b then f else g)
  Removes-if true f g hf hg = hf
  Removes-if false f g hf hg = hg

  pub Keeps-Removes : {A : Type 0} (f : Handler x A) → Keeps x f → Removes f
  Keeps-Removes f h s = Shrinks.kept s (f s).1 (h s)

  pub get_shard-Removes : (m : String) → Removes (get_shard x m)
  unfolding get_shard
  get_shard-Removes m s = Shrinks.kept s s (refl, refl)

  -- With no shards the write panics, and else it removes.
  write_to :
      (m : String) (ids : List String) (shards : List (Dict (ConsumerInMemory x))) (s : Server x)
      → s.consumer_map_shards ≡ shards
      → Shrinks s (write_shard x m (remove_all ids) s).1
  unfolding write_shard get_shard find_shard ◌>>=◌
  write_to m ids [] s e = rw e (Shrinks.kept _ _ (refl, refl))
  write_to m ids (d ∷ ds) s e =
      let h : HasShards x s = rw e (omega arith) in
      subst (λ r. Shrinks s r.1) (sym (write_shard-with_shard x m (remove_all ids) s h))
        (Shrinks.consumers_removed m ids s (with_shard x m (remove_all ids) s) h refl refl)

  pub write_shard-Removes :
      (m : String) (ids : List String) → Removes (write_shard x m (remove_all ids))
  write_shard-Removes m ids s = write_to m ids s.consumer_map_shards s refl
