-- ===== src/Sfu/Removing/Leavers.antt =====
-- `leave_meeting` and `end_meeting` of src/mediasoupv1/mod.rs only remove producers and consumers
-- from the memory.
use doordarshan_media_server.Base.{
  ℕ, zero, suc, refl, String, Option, none, some, ◌⊎◌, inl, inr, List, [], ◌∷◌, true, false, Bool,
}
use doordarshan_media_server.Base.Dict.{lookup}
use doordarshan_media_server.Db.{DbError}
use doordarshan_media_server.Sfu.Platform.{Platform}
use doordarshan_media_server.Sfu.Recording.{Gstreamer}
use doordarshan_media_server.Sfu.Queries.{
  get_participant_consumers_for_instance_in_meeting,
  get_participant_producers_for_instance_in_meeting, get_consumers_for_producer_ids,
  get_all_producers_for_meeting, get_all_consumers_for_meeting,
}
use doordarshan_media_server.Sfu.Leaving.{
  push_user_session_event, finish_leaving, leave_in_memory, leave_deleted, leave_meeting, set_null,
  stop_found, stop_pipeline, finish_ending, end_in_memory, end_deleted, end_meeting,
}
use doordarshan_media_server.Sfu.Removing.{Shrinks, Removes, Removes-bind, get_shard-Removes}
use doordarshan_media_server.Sfu.Removing.Closers.{
  nothing, close_all_consumers_in_memory-Removes, close_producers_if_any-Removes,
  close_consumers_if_any-Removes, mutate_db-Removes, delete_db-Removes,
}

module _ (x : Platform) where
  pub push_user_session_event-Removes :
      (p m e i : String) → Removes x (push_user_session_event x p m e i)
  unfolding push_user_session_event
  push_user_session_event-Removes p m e i s = Shrinks.kept s _ (refl, refl)

  pub get_consumers_for_producer_ids-Removes :
      (ids : List String) (m : String) → Removes x (get_consumers_for_producer_ids x ids m)
  unfolding get_consumers_for_producer_ids
  get_consumers_for_producer_ids-Removes ids m =
      Removes-bind x _ _ (get_shard-Removes x m) (λ shard. nothing x)

  finish_leaving-Removes :
      (p m i : String) (ids : List String) → Removes x (finish_leaving x p m i ids)
  unfolding finish_leaving
  finish_leaving-Removes p m i ids =
      Removes-bind x _ _ (get_consumers_for_producer_ids-Removes ids m) λ found.
        Removes-bind x _ _ (close_consumers_if_any-Removes x found m)
          λ _. Removes-bind x _ _ (push_user_session_event-Removes p m "LEAVE" i) λ _. nothing x

  leave_in_memory-Removes :
      (p m i : String) (ts : List String) → Removes x (leave_in_memory x p m i ts)
  unfolding leave_in_memory get_participant_consumers_for_instance_in_meeting
      get_participant_producers_for_instance_in_meeting
  leave_in_memory-Removes p m i ts =
      Removes-bind x _ _ (λ s. Shrinks.kept s _ (refl, refl))
        λ _.
          Removes-bind x _ _ (Removes-bind x _ _ (get_shard-Removes x m) (λ shard. nothing x))
            λ found. Removes-bind x _ _ (close_all_consumers_in_memory-Removes x found m) λ _.
              Removes-bind x _ _ (nothing x) λ ids.
                Removes-bind x _ _ (close_producers_if_any-Removes x (p ∷ []) ids m true)
                  λ _. finish_leaving-Removes p m i ids

  leave_deleted-Removes :
      (p m i : String) (ts : List String) (o : ℕ ⊎ DbError) → Removes x (leave_deleted x p m i ts o)
  unfolding leave_deleted
  leave_deleted-Removes p m i ts (inr e) = nothing x
  leave_deleted-Removes p m i ts (inl zero) = nothing x
  leave_deleted-Removes p m i ts (inl (suc n)) = leave_in_memory-Removes p m i ts

  pub leave_meeting-Removes :
      (p m i : String) (pt ct : Option String) → Removes x (leave_meeting x p m i pt ct)
  unfolding leave_meeting
  leave_meeting-Removes p m i pt ct =
      Removes-bind x _ _ (delete_db-Removes x _ _ _) (leave_deleted-Removes p m i _)

  set_null-Removes : (o : Option x.Pipeline) → Removes x (set_null x o)
  unfolding set_null
  set_null-Removes none s = nothing x s
  set_null-Removes (some p) s = Shrinks.kept s _ (refl, refl)

  stop_found-Removes : (o : Option (Option (Gstreamer x))) → Removes x (stop_found x o)
  unfolding stop_found
  stop_found-Removes none s = nothing x s
  stop_found-Removes (some none) s = nothing x s
  stop_found-Removes (some (some g)) s = set_null-Removes g.pipeline s

  end_in_memory-Removes :
      (m : String) (rs ts ps : List String) → Removes x (end_in_memory x m rs ts ps)
  unfolding end_in_memory get_all_consumers_for_meeting get_all_producers_for_meeting finish_ending
      stop_pipeline
  end_in_memory-Removes m rs ts ps =
      Removes-bind x _ _ (λ s. Shrinks.kept s _ (refl, refl))
        λ _.
          Removes-bind x _ _ (λ s. Shrinks.kept s _ (refl, refl))
            λ _.
              Removes-bind x _ _ (Removes-bind x _ _ (get_shard-Removes x m) (λ shard. nothing x))
                λ found. Removes-bind x _ _ (close_all_consumers_in_memory-Removes x found m) λ _.
                  Removes-bind x _ _ (nothing x) λ ids.
                    Removes-bind x _ _ (close_producers_if_any-Removes x ps ids m false) λ _.
                      Removes-bind x _ _ (λ s. stop_found-Removes (lookup m s.pipeline_map) s)
                        (λ _. nothing x)

  end_deleted-Removes :
      (m : String) (rs ts ps : List String) (o : (String × Bool) ⊎ DbError)
      → Removes x (end_deleted x m rs ts ps o)
  unfolding end_deleted
  end_deleted-Removes m rs ts ps (inr e) = nothing x
  end_deleted-Removes m rs ts ps (inl r) = end_in_memory-Removes m rs ts ps

  pub end_meeting-Removes :
      (m : String) (rs ts ps : List String) → Removes x (end_meeting x m rs ts ps)
  unfolding end_meeting
  end_meeting-Removes m rs ts ps =
      Removes-bind x _ _ (mutate_db-Removes x _ _ _) (end_deleted-Removes m rs ts ps)
