-- ===== src/Sfu/Creation/Created.antt =====
-- The routers in memory after a meeting was to be created, src/mediasoupv1/mod.rs.
use doordarshan_media_server.Base.{
  ◌≡◌, ◌≢◌, refl, ◌∙◌, String, Bool, true, false, Option, none, some, ◌⊎◌, inl, inr, List, [], ◌∷◌,
  Outcome, ok, err, panic, if◌then◌else◌, eqb,
}
use doordarshan_media_server.Base.Dict.{Dict, lookup}
use doordarshan_media_server.Base.Action.{◌>>=◌, resume, pure, fail, map_err}
use doordarshan_media_server.Db.{
  DbError, my_sql_error, generic_error, rollback_error, duplicate_entry,
}
use doordarshan_media_server.Sfu.Platform.{Platform}
use doordarshan_media_server.Sfu.Server.{
  RouterInMemory, Server, Handler, on_world, on_pool, mutate_db,
}
use doordarshan_media_server.Sfu.Creation.{
  ProducerConsumerCapacity, Allotted, allot, allot_routers, allot_worker, allot_workers,
  meeting_failure, finish_creating, write_meeting, create_meeting_and_routers_on_workers,
}

module _ (x : Platform) where
  -- The routers are the same, or the meeting was created.
  abbrev Kept : Server x → Outcome String String × Server x → Type 0
  Kept s r = (r.1.routers_map ≡ s.routers_map) ⊎ (r.0 ≡ ok "created the required routers")

  abbrev Keeps : {A : Type 0} → Handler x A → Type 0
  Keeps f = (s : Server x) → (f s).1.routers_map ≡ s.routers_map

  resume-Keeps :
      {A B : Type 0} (f : A → Handler x B) (o : Outcome String A) (s s' : Server x)
      → ((a : A) → Keeps (f a))
      → s'.routers_map ≡ s.routers_map
      → (resume f (o, s')).1.routers_map ≡ s.routers_map
  resume-Keeps f (ok a) s s' h e = h a s' ∙ e
  resume-Keeps f (err e') s s' h e = e
  resume-Keeps f panic s s' h e = e

  Keeps-bind :
      {A B : Type 0} (m : Handler x A) (f : A → Handler x B)
      → Keeps m
      → ((a : A) → Keeps (f a))
      → Keeps (m >>= f)
  unfolding ◌>>=◌
  Keeps-bind m f hm hf s = resume-Keeps f (m s).0 s (m s).1 hf (hm s)

  allot_routers-Keeps :
      (m c w : String) (worker : x.Worker) (entities : List ProducerConsumerCapacity)
      (a : Allotted x)
      → Keeps (allot_routers x m c w worker entities a)
  unfolding allot_routers map_err on_world
  allot_routers-Keeps m c w worker [] a = λ s. refl
  allot_routers-Keeps m c w worker (entity ∷ entities) a =
      Keeps-bind _ _ (λ s. refl)
        (λ router. allot_routers-Keeps m c w worker entities (allot x m c w entity router a))

  allot_worker-Keeps :
      (m c w : String) (o : Option x.Worker) (entities : List ProducerConsumerCapacity)
      (a : Allotted x)
      → Keeps (allot_worker x m c w o entities a)
  unfolding allot_worker
  allot_worker-Keeps m c w none entities a = λ s. refl
  allot_worker-Keeps m c w (some worker) entities a = allot_routers-Keeps m c w worker entities a

  allot_workers-Keeps :
      (m c : String) (workers : Dict x.Worker) (entries : Dict (List ProducerConsumerCapacity))
      (a : Allotted x)
      → Keeps (allot_workers x m c workers entries a)
  unfolding allot_workers
  allot_workers-Keeps m c workers [] a = λ s. refl
  allot_workers-Keeps m c workers (entry ∷ entries) a =
      Keeps-bind _ _ (allot_worker-Keeps m c entry.0 (lookup entry.0 workers) entry.1 a)
        (allot_workers-Keeps m c workers entries)

  if-Kept :
      (b : Bool) (f g : Handler x String) (s : Server x)
      → Kept s (f s)
      → Kept s (g s)
      → Kept s ((if b then f else g) s)
  if-Kept true f g s hf hg = hf
  if-Kept false f g s hf hg = hg

  finish_creating-Kept :
      (routers : Dict (RouterInMemory x)) (o : (String × Bool) ⊎ DbError) (s : Server x)
      → Kept s (finish_creating x routers o s)
  unfolding finish_creating ◌>>=◌
  finish_creating-Kept routers (inl a) s = inr refl
  finish_creating-Kept routers (inr (my_sql_error c m)) s =
      if-Kept (eqb c duplicate_entry) (pure "Meeting already exists") (fail (meeting_failure x m)) s
        (inl refl) (inl refl)
  finish_creating-Kept routers (inr (generic_error m)) s = inl refl
  finish_creating-Kept routers (inr (rollback_error m)) s = inl refl

  resume-Kept :
      {A : Type 0} (f : A → Handler x String) (o : Outcome String A) (s s' : Server x)
      → ((a : A) → (t : Server x) → Kept t (f a t))
      → s'.routers_map ≡ s.routers_map
      → Kept s (resume f (o, s'))
  resume-Kept f (ok a) s s' h e = elim (h a s') [ inl e' ↦ inl (e' ∙ e) | inr c ↦ inr c ]
  resume-Kept f (err e') s s' h e = inl e
  resume-Kept f panic s s' h e = inl e

  write_meeting-Kept : (m : String) (a : Allotted x) (s : Server x) → Kept s (write_meeting x m a s)
  unfolding write_meeting mutate_db on_pool ◌>>=◌
  write_meeting-Kept m a s =
      resume-Kept (finish_creating x a.routers) _ s _ (finish_creating-Kept a.routers) refl

  -- Unless `create_meeting_and_routers_on_workers` returns that it created the routers, be it that a
  -- worker is unknown or fails, that the meeting exists already or that the database fails, the
  -- routers in memory are as they were.
  pub create_meeting_and_routers_on_workers-unchanged :
      (entries : Dict (List ProducerConsumerCapacity)) (m c : String) (s : Server x)
      → (create_meeting_and_routers_on_workers x entries m c s).0
        ≢ ok "created the required routers"
      → (create_meeting_and_routers_on_workers x entries m c s).1.routers_map ≡ s.routers_map
  unfolding create_meeting_and_routers_on_workers ◌>>=◌
  create_meeting_and_routers_on_workers-unchanged entries m c s h =
      let a : Allotted x = record { router_workers = []; router_meetings = []; routers = [] } in
      let r = allot_workers x m c s.workers_map entries a s in
      elim (resume-Kept (write_meeting x m) r.0 s r.1 (write_meeting-Kept m)
        (allot_workers-Keeps m c s.workers_map entries a s)) [ inl e ↦ e | inr e ↦ absurd (h e) ]
