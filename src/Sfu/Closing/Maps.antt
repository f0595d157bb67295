-- ===== src/Sfu/Closing/Maps.antt =====
-- What the loops of src/mediasoupv1/mod.rs that close producers and consumers leave in the maps.
use doordarshan_media_server.Base.{
  ◌≡◌, refl, sym, ap, ◌∙◌, String, Bool, true, false, Option, none, some, List, [], ◌∷◌, ok, panic,
  if◌then◌else◌,
}
use doordarshan_media_server.Base.Outcomes
use doordarshan_media_server.Base.Lists.{given}
use doordarshan_media_server.Base.Dict.{Dict, lookup, remove, remove_all, remove-none}
use doordarshan_media_server.Base.Action.{bind-ok, bind-panic, bind-state, pure, map_err}
use doordarshan_media_server.Sfu.Recording.{Gstreamer}
use doordarshan_media_server.Sfu.Platform.{Platform}
use doordarshan_media_server.Sfu.Server.{ProducerInMemory, Server}
use doordarshan_media_server.Sfu.Shards.{
  HasShards, with_shard, with_shard-same, write_shard-with_shard,
}
use doordarshan_media_server.Sfu.Closing.{
  ProducerDetail, close_failure, without_producer, close_found, close_one, close_each, detach_found,
  detach_from_pipeline, close_all_producers_in_memory, close_all_consumers_in_memory,
  close_producers_if_any, close_consumers_if_any,
}

module _ (x : Platform) where
  -- The detail of a closed producer, and the server without it.
  abbrev detail : String → String → Option (ProducerInMemory x) → Option ProducerDetail
  detail p id none = none
  detail p id (some v) = some (record { participant_id = p; producer_id = id; kind = v.kind })

  abbrev without_found : String → Option (ProducerInMemory x) → Server x → Server x
  without_found id none s = s
  without_found id (some v) s = without_producer x id s

  -- One detail for each id that has a producer, all under the same participant.
  unfoldable pub details : String → List String → Dict (ProducerInMemory x) → List ProducerDetail
  details p [] m = []
  details p (id ∷ ids) m = given (detail p id (lookup id m)) (details p ids (remove id m))

  -- The fields that closing producers leaves alone.
  abbrev pub SameElsewhere : Server x → Server x → Type 0
  SameElsewhere s s' =
      (s'.consumer_map_shards ≡ s.consumer_map_shards)
      × (s'.pipeline_map ≡ s.pipeline_map)
      × (s'.transport_map ≡ s.transport_map)
      × (s'.routers_map ≡ s.routers_map)
      × (s'.events ≡ s.events)

  found-without :
      (p : String) (ps : List String) (id : String) (o : Option (ProducerInMemory x)) (s : Server x)
      → close_found x (p ∷ ps) id o s ≡ (ok (detail p id o), without_found id o s)
  unfolding close_found
  found-without p ps id none s = refl
  found-without p ps id (some v) s = refl

  without_found-producers :
      (id : String) (o : Option (ProducerInMemory x)) (s : Server x)
      → lookup id s.producer_map ≡ o
      → (without_found id o s).producer_map ≡ remove id s.producer_map
  without_found-producers id none s e = sym (remove-none id s.producer_map e)
  without_found-producers id (some v) s e = refl

  without_found-SameElsewhere :
      (id : String) (o : Option (ProducerInMemory x)) (s : Server x)
      → SameElsewhere s (without_found id o s)
  without_found-SameElsewhere id none s = (refl, refl, refl, refl, refl)
  without_found-SameElsewhere id (some v) s = (refl, refl, refl, refl, refl)

  SameElsewhere-trans :
      (s s' s'' : Server x) → SameElsewhere s s' → SameElsewhere s' s'' → SameElsewhere s s''
  SameElsewhere-trans s s' s'' f g = (g.0 ∙ f.0, g.1 ∙ f.1, g.2 ∙ f.2, g.3 ∙ f.3, g.4 ∙ f.4)

  -- With a participant id, the loop over the producers returns a detail for each id that has a
  -- producer, takes all of the ids out of the producers, and leaves the consumers, the recordings,
  -- the transports, the routers and the events alone.
  pub close_each-details :
      (p : String) (ps ids : List String) (s : Server x)
      → (s' : Server x) × (close_each x (p ∷ ps) ids s ≡ (ok (details p ids s.producer_map), s'))
        × (s'.producer_map ≡ remove_all ids s.producer_map)
        × SameElsewhere s s'
  unfolding close_each close_one details remove_all
  close_each-details p ps [] s = (s, refl, refl, (refl, refl, refl, refl, refl))
  close_each-details p ps (id ∷ ids) s =
      let o = lookup id s.producer_map in
      let s₁ = without_found id o s in
      let without = without_found-producers id o s refl in
      let (s', e, m, same) = close_each-details p ps ids s₁ in
      (
        s',
        bind-ok _ _ (found-without p ps id o s)
            ∙ bind-ok _ _ e
            ∙ ap (λ d. (ok (given (detail p id o) (details p ids d)), s')) without,
        m ∙ ap (remove_all ids) without,
        SameElsewhere-trans s s₁ s' (without_found-SameElsewhere id o s) same,
      )

  -- What closing some producers leaves: they are gone, whatever it returns.
  abbrev pub Closed : List String → Server x → Server x → Type 0
  Closed ids s s' =
      (s'.producer_map ≡ remove_all ids s.producer_map)
      × (s'.consumer_map_shards ≡ s.consumer_map_shards)
      × (s'.transport_map ≡ s.transport_map)
      × (s'.routers_map ≡ s.routers_map)
      × (s'.events ≡ s.events)

  found-Closed :
      (ids : List String) (m : String) (o : Option (Option (Gstreamer x))) (s : Server x)
      → Closed [] s (detach_found x ids m o s).1
  unfolding detach_found remove_all
  found-Closed ids m none s = (refl, refl, refl, refl, refl)
  found-Closed ids m (some none) s = (refl, refl, refl, refl, refl)
  found-Closed ids m (some (some g)) s = (refl, refl, refl, refl, refl)

  detach-Closed :
      (flag : Bool) (ids : List String) (m : String) (s : Server x)
      → Closed [] s ((if flag then detach_from_pipeline x ids m else pure tt) s).1
  unfolding detach_from_pipeline remove_all
  detach-Closed true ids m s = found-Closed ids m (lookup m s.pipeline_map) s
  detach-Closed false ids m s = (refl, refl, refl, refl, refl)

  -- With a participant id, and whether a recording fails or not: the producers are gone.
  pub close_all_producers-Closed :
      (p : String) (ps ids : List String) (m : String) (flag : Bool) (s : Server x)
      → Closed ids s (close_all_producers_in_memory x (p ∷ ps) ids m flag s).1
  unfolding close_all_producers_in_memory remove_all
  close_all_producers-Closed p ps ids m flag s =
      let (s', e, gone, (shards, _, transports, routers, events)) = close_each-details p ps ids s in
      let rest = detach-Closed flag (p ∷ ps) m s' in
      let state = ap (λ r. r.1) (bind-ok _ _ e) ∙ bind-state _ _ s' in
      (
        ap (λ r. r.producer_map) state ∙ rest.0 ∙ gone,
        ap (λ r. r.consumer_map_shards) state ∙ rest.1 ∙ shards,
        ap (λ r. r.transport_map) state ∙ rest.2 ∙ transports,
        ap (λ r. r.routers_map) state ∙ rest.3 ∙ routers,
        ap (λ r. r.events) state ∙ rest.4 ∙ events,
      )

  pub close_producers_if_any-Closed :
      (p : String) (ps ids : List String) (m : String) (flag : Bool) (s : Server x)
      → Closed ids s (close_producers_if_any x (p ∷ ps) ids m flag s).1
  unfolding close_producers_if_any remove_all map_err
  close_producers_if_any-Closed p ps [] m flag s = (refl, refl, refl, refl, refl)
  close_producers_if_any-Closed p ps (id ∷ ids) m flag s =
      close_all_producers-Closed p ps (id ∷ ids) m flag s

  -- A meeting without a recording, or a handler that leaves it alone: closing returns the details.
  pub close_producers_if_any-ok :
      (p : String) (ps ids : List String) (m : String) (s : Server x)
      → (close_producers_if_any x (p ∷ ps) ids m false s).0 ≡ ok (details p ids s.producer_map)
  unfolding close_producers_if_any close_all_producers_in_memory map_err details
  close_producers_if_any-ok p ps [] m s = refl
  close_producers_if_any-ok p ps (id ∷ ids) m s =
      let (_, e, _, _) = close_each-details p ps (id ∷ ids) s in
      ap (λ r. Outcomes.map_err close_failure r.0) (bind-ok _ _ e ∙ bind-ok _ _ refl)

  -- And it leaves the recordings alone.
  pub close_producers_if_any-pipeline_map :
      (p : String) (ps ids : List String) (m : String) (s : Server x)
      → (close_producers_if_any x (p ∷ ps) ids m false s).1.pipeline_map ≡ s.pipeline_map
  unfolding close_producers_if_any close_all_producers_in_memory map_err
  close_producers_if_any-pipeline_map p ps [] m s = refl
  close_producers_if_any-pipeline_map p ps (id ∷ ids) m s =
      let (_, e, _, same) = close_each-details p ps (id ∷ ids) s in
      ap (λ r. r.1.pipeline_map) (bind-ok _ _ e ∙ bind-ok _ _ refl) ∙ same.1

  -- Closing consumers takes them out of the meeting's shard, and writes nothing else.
  pub close_consumers_if_any-with_shard :
      (ids : List String) (m : String) (s : Server x)
      → HasShards x s
      → close_consumers_if_any x ids m s ≡ (ok tt, with_shard x m (remove_all ids) s)
  unfolding close_consumers_if_any close_all_consumers_in_memory remove_all
  close_consumers_if_any-with_shard [] m s h = sym (ap (λ r. (ok tt, r)) (with_shard-same x m s h))
  close_consumers_if_any-with_shard (id ∷ ids) m s h =
      write_shard-with_shard x m (remove_all (id ∷ ids)) s h

  -- Without a participant id, the first producer that is in memory ends it.
  pub close_producers_if_any-panic :
      (id : String) (ids : List String) (m : String) (flag : Bool) (v : ProducerInMemory x)
      (s : Server x)
      → lookup id s.producer_map ≡ some v
      → close_producers_if_any x [] (id ∷ ids) m flag s
        ≡ (panic, record s { producer_map = remove id s.producer_map })
  unfolding close_producers_if_any close_all_producers_in_memory map_err close_each close_one
      close_found
  close_producers_if_any-panic id ids m flag v s e =
      let one = ap (λ o. close_found x [] id o s) e in
      ap (λ r. (Outcomes.map_err close_failure r.0, r.1)) (bind-panic _ _ (bind-panic _ _ one))

  detach_from_pipeline-none :
      (flag : Bool) (ids : List String) (m : String) (s : Server x)
      → lookup m s.pipeline_map ≡ none
      → (if flag then detach_from_pipeline x ids m else pure tt) s ≡ (ok tt, s)
  unfolding detach_from_pipeline detach_found
  detach_from_pipeline-none true ids m s e = ap (λ o. detach_found x ids m o s) e
  detach_from_pipeline-none false ids m s e = refl

  -- In a meeting without a recording, closing producers cannot fail.
  pub close_producers_if_any-unrecorded :
      (p : String) (ps ids : List String) (m : String) (flag : Bool) (s : Server x)
      → lookup m s.pipeline_map ≡ none
      → (close_producers_if_any x (p ∷ ps) ids m flag s).0 ≡ ok (details p ids s.producer_map)
  unfolding close_producers_if_any close_all_producers_in_memory map_err details
  close_producers_if_any-unrecorded p ps [] m flag s h = refl
  close_producers_if_any-unrecorded p ps (id ∷ ids) m flag s h =
      let (s', e, _, same) = close_each-details p ps (id ∷ ids) s in
      let unrecorded = ap (lookup m) same.1 ∙ h in
      ap (λ r. Outcomes.map_err close_failure r.0)
        (bind-ok _ _ e ∙ bind-ok _ _ (detach_from_pipeline-none flag (p ∷ ps) m s' unrecorded))
