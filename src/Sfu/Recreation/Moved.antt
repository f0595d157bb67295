-- ===== src/Sfu/Recreation/Moved.antt =====
-- What recreating a transport clears from the maps in memory, src/mediasoupv1/mod.rs.
use mathlib.Core.Path.{subst}
use doordarshan_media_server.Base.{
  ◌≡◌, refl, sym, ap, ◌∙◌, ◌<◌, String, true, Option, List, [], ◌∷◌, Outcome, ok, err, panic,
}
use doordarshan_media_server.Base.Lists.{length}
use doordarshan_media_server.Base.Dict.{remove_all}
use doordarshan_media_server.Base.Action.{◌>>=◌, ◌>>◌, resume, bind-ok, bind-resume, pure, map_err}
use doordarshan_media_server.Sfu.Platform.{Platform}
use doordarshan_media_server.Sfu.Server.{Server, Handler}
use doordarshan_media_server.Sfu.Shards.{
  HasShards, HasShards-with_shard, shard_in, shard_of, with_shard, get_shard-shard_of,
  write_shard-with_shard, shard_of-with_shard,
}
use doordarshan_media_server.Sfu.Queries.{
  producers_where, consumers_where, producer_excluding_instance, consumer_excluding_instance,
  get_participant_consumers_excluding_instance, get_participant_producers_excluding_instance,
  get_consumers_for_producer_ids,
}
use doordarshan_media_server.Sfu.Queries.Lookup.{ids_where-remove_all, none-remove_all}
use doordarshan_media_server.Sfu.Closing.{
  ProducerDetail, close_all_consumers_in_memory, close_producers_if_any, close_consumers_if_any,
}
use doordarshan_media_server.Sfu.Closing.Maps.{
  close_producers_if_any-Closed, close_consumers_if_any-with_shard,
}
use doordarshan_media_server.Sfu.Leaving.Cleared.{of_producers}
use doordarshan_media_server.Sfu.Leaving.Leave.{HasKeys}
use doordarshan_media_server.Sfu.Transports.{
  TransportOptions, create_producer_transport, create_consumer_transport,
}
use doordarshan_media_server.Sfu.Transports.Media.{
  SameMedia, Keeps, resume-SameMedia, Keeps-bind, Keeps-map_err, create_producer_transport-Keeps,
  create_consumer_transport-Keeps,
}
use doordarshan_media_server.Base.Texts.{format}
use doordarshan_media_server.Sfu.Recreation.{
  recreation_failure, RecreateProducerTransportResponse, close_old, recreate_producer_transport,
  recreate_consumer_transport,
}

module _ (x : Platform) where
  -- A participant has nothing in a meeting, in memory, on any instance but this.
  abbrev pub MovedTo : String → String → String → Server x → Type 0
  MovedTo p m i s =
      (producers_where x (producer_excluding_instance x p m i) s.producer_map ≡ [])
      × (consumers_where x (consumer_excluding_instance x p m i) (shard_of x m s) ≡ [])

  MovedTo-SameMedia :
      (p m i : String) (s s' : Server x) → SameMedia x s s' → MovedTo p m i s → MovedTo p m i s'
  MovedTo-SameMedia p m i s s' same moved = (
    ap (producers_where x (producer_excluding_instance x p m i)) same.0 ∙ moved.0,
    ap (λ l. consumers_where x (consumer_excluding_instance x p m i) (shard_in x m l)) same.1
        ∙ moved.1,
  )

  -- The entries on other instances, and the server when the producers among them are closed.
  abbrev old_producers : String → String → String → Server x → List String
  old_producers p m i s = producers_where x (producer_excluding_instance x p m i) s.producer_map

  abbrev old_consumers : String → String → String → Server x → List String
  old_consumers p m i s = consumers_where x (consumer_excluding_instance x p m i) (shard_of x m s)

  abbrev before_producers : String → String → String → Server x → Server x
  before_producers p m i s = with_shard x m (remove_all (old_consumers p m i s)) s

  abbrev dependents : String → String → String → Server x → List String
  dependents p m i s =
      consumers_where x (of_producers x (old_producers p m i s))
        (shard_of x m (before_producers p m i s))

  abbrev after_producers :
      List String → String → List ProducerDetail → Handler x (List ProducerDetail)
  after_producers ids m details = do close_consumers_if_any x ids m; pure details

  close_old-before :
      (p m i : String) (s : Server x)
      → HasShards x s
      → close_old x p m i s
        ≡ resume (after_producers (dependents p m i s) m) (
            close_producers_if_any x
              (p ∷ [])
              (old_producers p m i s)
              m
              true
              (before_producers p m i s))
  unfolding close_old get_participant_consumers_excluding_instance close_all_consumers_in_memory
      get_participant_producers_excluding_instance get_consumers_for_producer_ids
  close_old-before p m i s h =
      let s₂ = before_producers p m i s in
      let h₂ = HasShards-with_shard x m (remove_all (old_consumers p m i s)) s h in
      bind-ok _ _ (bind-ok _ _ (get_shard-shard_of x m s h))
      ∙ bind-ok _ _ (write_shard-with_shard x m (remove_all (old_consumers p m i s)) s h)
      ∙ bind-ok _ _ refl
      ∙ bind-ok _ _ (bind-ok _ _ (get_shard-shard_of x m s₂ h₂))
      ∙ bind-resume _ _ s₂

  resume-MovedTo :
      (p m i : String) (ids : List String) (o : Outcome String (List ProducerDetail)) (s : Server x)
      → HasShards x s
      → MovedTo p m i s
      → MovedTo p m i (resume (after_producers ids m) (o, s)).1
  resume-MovedTo p m i ids (ok details) s h moved =
      subst (λ r. MovedTo p m i r.1)
        (sym (bind-ok _ _ (close_consumers_if_any-with_shard x ids m s h)))
        (
          moved.0,
          ap (consumers_where x (consumer_excluding_instance x p m i))
                (shard_of-with_shard x m (remove_all ids) s h)
              ∙ none-remove_all _ _ ids (shard_of x m s) moved.1,
        )
  resume-MovedTo p m i ids (err e) s h moved = moved
  resume-MovedTo p m i ids panic s h moved = moved

  close_old-MovedTo :
      (p m i : String) (s : Server x)
      → HasShards x s
      → HasKeys x m s
      → MovedTo p m i (close_old x p m i s).1
  close_old-MovedTo p m i s h (kp, kc) =
      let s₂ = before_producers p m i s in
      let r = close_producers_if_any x (p ∷ []) (old_producers p m i s) m true s₂ in
      let closed = close_producers_if_any-Closed x p [] (old_producers p m i s) m true s₂ in
      let h₂ = HasShards-with_shard x m (remove_all (old_consumers p m i s)) s h in
      subst (λ r. MovedTo p m i r.1) (sym (close_old-before p m i s h))
        (resume-MovedTo p m i (dependents p m i s) r.0 r.1
          (subst (λ l. 0 < length l) (sym closed.1) h₂)
          (
            ap (producers_where x (producer_excluding_instance x p m i)) closed.0
                ∙ ids_where-remove_all _ _ s.producer_map kp,
            ap (λ l. consumers_where x (consumer_excluding_instance x p m i) (shard_in x m l))
                  closed.1
                ∙ ap (consumers_where x (consumer_excluding_instance x p m i))
                    (shard_of-with_shard x m (remove_all (old_consumers p m i s)) s h)
                ∙ ids_where-remove_all _ _ (shard_of x m s) kc,
          ))

  abbrev creating :
      String
      → String
      → Option String
      → Option String
      → String
      → List ProducerDetail
      → Handler x (RecreateProducerTransportResponse x)
  creating p m op oc rid details = do
    options ← map_err recreation_failure (create_producer_transport x rid p m op oc)
    pure (record { transport_options = options; closed_producer_details = details })

  creating-Keeps :
      (p m : String) (op oc : Option String) (rid : String) (details : List ProducerDetail)
      → Keeps x (creating p m op oc rid details)
  creating-Keeps p m op oc rid details =
      Keeps-bind x (map_err recreation_failure (create_producer_transport x rid p m op oc))
        (λ options.
          pure (record { transport_options = options; closed_producer_details = details }))
        (Keeps-map_err x recreation_failure (create_producer_transport x rid p m op oc)
          (create_producer_transport-Keeps x rid p m op oc))
        (λ _ s. (refl, refl))

  pub recreate_producer_transport-MovedTo :
      (p m : String) (op oc : Option String) (rid i : String) (s : Server x)
      → HasShards x s
      → HasKeys x m s
      → MovedTo p m i (recreate_producer_transport x p m op oc rid i s).1
  unfolding recreate_producer_transport ◌>>=◌
  recreate_producer_transport-MovedTo p m op oc rid i s h keys =
      let r = close_old x p m i s in
      MovedTo-SameMedia p m i r.1 (resume (creating p m op oc rid) r).1
        (resume-SameMedia x (creating p m op oc rid) r.0 r.1 r.1 (creating-Keeps p m op oc rid)
          (refl, refl))
        (close_old-MovedTo p m i s h keys)

  abbrev consumer_failure : String → String
  consumer_failure e = format ("Failed to create consumer transport " ∷ e ∷ [])

  pub recreate_consumer_transport-MovedTo :
      (p rid m i : String) (op oc : Option String) (s : Server x)
      → HasShards x s
      → HasKeys x m s
      → MovedTo p m i (recreate_consumer_transport x p rid m i op oc s).1
  unfolding recreate_consumer_transport ◌>>=◌
  recreate_consumer_transport-MovedTo p rid m i op oc s h keys =
      let r = close_old x p m i s in
      let rest : List ProducerDetail → Handler x (TransportOptions x) =
        λ _. map_err consumer_failure (create_consumer_transport x rid p m op oc) in
      MovedTo-SameMedia p m i r.1 (resume rest r).1
        (resume-SameMedia x rest r.0 r.1 r.1
          (λ _.
            Keeps-map_err x consumer_failure (create_consumer_transport x rid p m op oc)
              (create_consumer_transport-Keeps x rid p m op oc))
          (refl, refl))
        (close_old-MovedTo p m i s h keys)
