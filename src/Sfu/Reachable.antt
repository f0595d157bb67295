-- ===== src/Sfu/Reachable.antt =====
-- The SFU of src/mediasoupv1/mod.rs as a machine: its handlers are the steps, one after another, in
-- any order. What holds of every state that they reach.
pub mod Fresh
use mathlib.Core.Path.{subst}
use doordarshan_media_server.Base.{
  sym, ℕ, ◌≤◌, ◌<◌, ◌≡◌, refl, String, Option, List, [], ◌∷◌, arith,
}
use doordarshan_media_server.Base.Lists.{length, All}
use doordarshan_media_server.Base.Dict.{Dict, remove_all}
use doordarshan_media_server.Sfu.Platform.{Platform}
use doordarshan_media_server.Sfu.Server.{Server, ConsumerInMemory}
use doordarshan_media_server.Sfu.Start.{heartbeat}
use doordarshan_media_server.Sfu.Shards.{HasShards, HasShards-with_shard, shard_of, with_shard}
use doordarshan_media_server.Sfu.Closing.{close_producer, close_consumer}
use doordarshan_media_server.Sfu.Leaving.{leave_meeting, end_meeting}
use doordarshan_media_server.Sfu.Joining.{
  remove_and_add_participant_to_meeting, get_producers_of_meeting,
}
use doordarshan_media_server.Sfu.Transports.{create_producer_transport, create_consumer_transport}
use doordarshan_media_server.Sfu.Recreation.{
  recreate_producer_transport_helper, recreate_consumer_transport_helper,
}
use doordarshan_media_server.Sfu.Control.{
  connect_transport, restart_ice, resume_consumer, pause_consumer, resume_producer, pause_producer,
}
use doordarshan_media_server.Sfu.Creation.{
  ProducerConsumerCapacity, create_meeting_and_routers_on_workers,
}
use doordarshan_media_server.Sfu.Batch.{MeetingPayload, batch_create_router_on_worker}
use doordarshan_media_server.Sfu.Consuming.{Consumption, is_existing, create_consumer}
use doordarshan_media_server.Sfu.Consuming.Counts.{
  count_where, count_where-remove, count_where-remove_all,
}
use doordarshan_media_server.Sfu.Consuming.Rounds.{AreDistinct}
use doordarshan_media_server.Sfu.Consuming.Twins.{
  HasShards-same, NoTwins-same, NoTwins-with_shard, create_consumer-IsSound,
}
use doordarshan_media_server.Sfu.Consuming.Producers.{create_consumer-producer_map}
use doordarshan_media_server.Sfu.Producing.{Production, is_produced, create_producer}
use doordarshan_media_server.Sfu.Producing.Doubles.{IsSafe, IsSafe-same, create_producer-IsSafe}
use doordarshan_media_server.Sfu.Removing.{
  Shrinks, kept, producer_removed, consumers_removed, after,
}
use doordarshan_media_server.Sfu.Removing.Closers.{close_producer-Removes, close_consumer-Removes}
use doordarshan_media_server.Sfu.Removing.Leavers.{leave_meeting-Removes, end_meeting-Removes}
use doordarshan_media_server.Sfu.Removing.Others.{
  create_producer_transport-Removes, create_consumer_transport-Removes,
  remove_and_add_participant_to_meeting-Removes, get_producers_of_meeting-Removes,
  recreate_producer_transport_helper-Removes, recreate_consumer_transport_helper-Removes,
}
use doordarshan_media_server.Sfu.Removing.Controls.{
  connect_transport-Removes, restart_ice-Removes, resume_consumer-Removes, pause_consumer-Removes,
  resume_producer-Removes, pause_producer-Removes,
}
use doordarshan_media_server.Sfu.Removing.Makers.{
  create_meeting_and_routers_on_workers-Removes, batch_create_router_on_worker-Removes,
  heartbeat-Removes,
}

module _ (x : Platform) where
  -- One call of a handler, whatever it returns, or a change outside of the server.
  pub data Step : Server x → Server x → Type 0 where
    beats : (container_id : String) (s : Server x) → Step s (heartbeat x container_id s).1
    batch_creates :
        (entries : Dict MeetingPayload) (s : Server x)
        → Step s (batch_create_router_on_worker x entries s).1
    creates_meeting :
        (entries : Dict (List ProducerConsumerCapacity)) (m c : String) (s : Server x)
        → Step s (create_meeting_and_routers_on_workers x entries m c s).1
    joins :
        (p m i : String) (pr cr : Option String) (s : Server x)
        → Step s (remove_and_add_participant_to_meeting x p m i pr cr s).1
    goes_on : (w : x.World) (s : Server x) → Step s (record s { world = w })
    lists_producers : (m : String) (s : Server x) → Step s (get_producers_of_meeting x m s).1
    creates_producer_transport :
        (r p m : String) (op oc : Option String) (s : Server x)
        → Step s (create_producer_transport x r p m op oc s).1
    creates_consumer_transport :
        (r p m : String) (op oc : Option String) (s : Server x)
        → Step s (create_consumer_transport x r p m op oc s).1
    recreates_producer_transport :
        (p m i r : String) (op oc : Option String) (s : Server x)
        → Step s (recreate_producer_transport_helper x p m i r op oc s).1
    recreates_consumer_transport :
        (p m i r : String) (op oc : Option String) (s : Server x)
        → Step s (recreate_consumer_transport_helper x p m i r op oc s).1
    connects :
        (t : String) (d : x.DtlsParameters) (s : Server x) → Step s (connect_transport x t d s).1
    restarts : (ids : List String) (s : Server x) → Step s (restart_ice x ids s).1
    consumes :
        (c : Consumption) (targets : Dict (Dict String)) (caps : x.RtpCapabilities) (s : Server x)
        → AreDistinct x targets
        → Step s (create_consumer x c targets caps s).1
    produces :
        (p : Production) (rtp : x.RtpParameters) (s : Server x)
        → Step s (create_producer x p rtp s).1
    resumes_consumers :
        (ids : List String) (m : String) (s : Server x) → Step s (resume_consumer x ids m s).1
    pauses_consumers :
        (ids : List String) (m : String) (s : Server x) → Step s (pause_consumer x ids m s).1
    resumes_producers :
        (p : String) (ids : Dict String) (s : Server x) → Step s (resume_producer x p ids s).1
    pauses_producers :
        (p : String) (ids : Dict String) (s : Server x) → Step s (pause_producer x p ids s).1
    closes_producers :
        (p m : String) (kinds : Dict String) (s : Server x)
        → Step s (close_producer x p m kinds s).1
    closes_consumers :
        (ids : List String) (m : String) (s : Server x) → Step s (close_consumer x ids m s).1
    leaves :
        (p m i : String) (pt ct : Option String) (s : Server x)
        → Step s (leave_meeting x p m i pt ct s).1
    ends :
        (m : String) (rs ts ps : List String) (s : Server x) → Step s (end_meeting x m rs ts ps s).1

  -- Any number of calls, one after another.
  pub data Steps (s : Server x) : Server x → Type 0 where
    none_yet : Steps s s
    then : {t u : Server x} → Steps s t → Step t u → Steps s u

  Shrinks-IsSafe : {s t : Server x} → Shrinks x s t → IsSafe x s → IsSafe x t
  Shrinks-IsSafe (kept s t same) safe = IsSafe-same x s t same safe
  Shrinks-IsSafe (producer_removed id s t producers same) ((h, twins), doubles) = (
    (HasShards-same x s t same h, NoTwins-same x s t same twins),
    λ p.
        subst (λ m. count_where (is_produced x p) m ≤ 1) (sym producers)
          (omega (arith, doubles p, count_where-remove (is_produced x p) id s.producer_map)),
  )
  Shrinks-IsSafe (consumers_removed m ids s t _ producers e) ((h, twins), doubles) =
      let f : Dict (ConsumerInMemory x) → Dict (ConsumerInMemory x) = remove_all ids in
      IsSafe-same x (with_shard x m f s) t (producers, e)
        (
          (
            HasShards-with_shard x m f s h,
            NoTwins-with_shard x m f s h
                (λ d t k one.
                  omega
                    (arith, one, count_where-remove_all (is_existing x d t k) ids (shard_of x m s)))
                twins,
          ),
          doubles,
        )
  Shrinks-IsSafe (after s t u first second) safe = Shrinks-IsSafe second (Shrinks-IsSafe first safe)

  Step-IsSafe : {s t : Server x} → Step s t → IsSafe x s → IsSafe x t
  Step-IsSafe (beats i s) = Shrinks-IsSafe (heartbeat-Removes x i s)
  Step-IsSafe (batch_creates es s) = Shrinks-IsSafe (batch_create_router_on_worker-Removes x es s)
  Step-IsSafe (creates_meeting es m c s) =
      Shrinks-IsSafe (create_meeting_and_routers_on_workers-Removes x es m c s)
  Step-IsSafe (joins p m i pr cr s) =
      Shrinks-IsSafe (remove_and_add_participant_to_meeting-Removes x p m i pr cr s)
  Step-IsSafe (goes_on w s) = Shrinks-IsSafe (Shrinks.kept s (record s { world = w }) (refl, refl))
  Step-IsSafe (lists_producers m s) = Shrinks-IsSafe (get_producers_of_meeting-Removes x m s)
  Step-IsSafe (creates_producer_transport r p m op oc s) =
      Shrinks-IsSafe (create_producer_transport-Removes x r p m op oc s)
  Step-IsSafe (creates_consumer_transport r p m op oc s) =
      Shrinks-IsSafe (create_consumer_transport-Removes x r p m op oc s)
  Step-IsSafe (recreates_producer_transport p m i r op oc s) =
      Shrinks-IsSafe (recreate_producer_transport_helper-Removes x p m i r op oc s)
  Step-IsSafe (recreates_consumer_transport p m i r op oc s) =
      Shrinks-IsSafe (recreate_consumer_transport_helper-Removes x p m i r op oc s)
  Step-IsSafe (connects t d s) = Shrinks-IsSafe (connect_transport-Removes x t d s)
  Step-IsSafe (restarts ids s) = Shrinks-IsSafe (restart_ice-Removes x ids s)
  Step-IsSafe (consumes c targets caps s distinct) = λ safe. (
    create_consumer-IsSound x c targets caps s distinct safe.0,
    λ p.
        subst (λ m. count_where (is_produced x p) m ≤ 1)
          (sym (create_consumer-producer_map x c targets caps s)) (safe.1 p),
  )
  Step-IsSafe (produces p rtp s) = create_producer-IsSafe x p rtp s
  Step-IsSafe (resumes_consumers ids m s) = Shrinks-IsSafe (resume_consumer-Removes x ids m s)
  Step-IsSafe (pauses_consumers ids m s) = Shrinks-IsSafe (pause_consumer-Removes x ids m s)
  Step-IsSafe (resumes_producers p ids s) = Shrinks-IsSafe (resume_producer-Removes x p ids s)
  Step-IsSafe (pauses_producers p ids s) = Shrinks-IsSafe (pause_producer-Removes x p ids s)
  Step-IsSafe (closes_producers p m kinds s) = Shrinks-IsSafe (close_producer-Removes x p m kinds s)
  Step-IsSafe (closes_consumers ids m s) = Shrinks-IsSafe (close_consumer-Removes x ids m s)
  Step-IsSafe (leaves p m i pt ct s) = Shrinks-IsSafe (leave_meeting-Removes x p m i pt ct s)
  Step-IsSafe (ends m rs ts ps s) = Shrinks-IsSafe (end_meeting-Removes x m rs ts ps s)

  pub Steps-IsSafe : {s t : Server x} → Steps s t → IsSafe x s → IsSafe x t
  Steps-IsSafe none_yet sound = sound
  Steps-IsSafe (then steps step) sound = Step-IsSafe step (Steps-IsSafe steps sound)
