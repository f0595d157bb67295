-- ===== src/Sfu/Removing/Others.antt =====
-- The handlers of src/mediasoupv1/mod.rs that make transports and let participants join
-- add no producer and no consumer to the memory.
use doordarshan_media_server.Base.{refl, String, Bool, true, Option, ◌⊎◌, inl, inr, List, [], ◌∷◌}
use doordarshan_media_server.Db.{DbError}
use doordarshan_media_server.Db.Driver.{MySqlDriver}
use doordarshan_media_server.Sfu.Platform.{Platform}
use doordarshan_media_server.Sfu.Server.{query_db}
use doordarshan_media_server.Sfu.Queries.{
  get_participant_consumers_excluding_instance, get_participant_producers_excluding_instance,
}
use doordarshan_media_server.Sfu.Transports.{create_producer_transport, create_consumer_transport}
use doordarshan_media_server.Sfu.Transports.Media.{
  create_producer_transport-Keeps, create_consumer_transport-Keeps,
}
use doordarshan_media_server.Sfu.Joining.{
  finish_joining, remove_and_add_participant_to_meeting, producers_found,
  get_producers_of_meeting_excluding_participant, get_producers_of_meeting,
}
use doordarshan_media_server.Sfu.Recreation.{
  close_old, recreate_producer_transport, recreate_consumer_transport, ensure_lock,
  recreate_producer_transport_helper, recreate_consumer_transport_helper,
}
use doordarshan_media_server.Sfu.Removing.{
  Shrinks, Removes, Removes-bind, Removes-map_err, Keeps-Removes, get_shard-Removes,
}
use doordarshan_media_server.Sfu.Removing.Closers.{
  nothing, close_all_consumers_in_memory-Removes, close_producers_if_any-Removes,
  close_consumers_if_any-Removes, mutate_db-Removes,
}
use doordarshan_media_server.Sfu.Removing.Leavers.{
  push_user_session_event-Removes, get_consumers_for_producer_ids-Removes,
}

module _ (x : Platform) where
  close_old-Removes : (p m i : String) → Removes x (close_old x p m i)
  unfolding close_old get_participant_consumers_excluding_instance
      get_participant_producers_excluding_instance
  close_old-Removes p m i =
      Removes-bind x _ _ (Removes-bind x _ _ (get_shard-Removes x m) (λ shard. nothing x)) λ found.
        Removes-bind x _ _ (close_all_consumers_in_memory-Removes x found m) λ _.
          Removes-bind x _ _ (nothing x) λ ids.
            Removes-bind x _ _ (get_consumers_for_producer_ids-Removes x ids m) λ consumers.
              Removes-bind x _ _ (close_producers_if_any-Removes x (p ∷ []) ids m true) λ details.
                Removes-bind x _ _ (close_consumers_if_any-Removes x consumers m) λ _. nothing x

  pub create_producer_transport-Removes :
      (r p m : String) (op oc : Option String) → Removes x (create_producer_transport x r p m op oc)
  create_producer_transport-Removes r p m op oc =
      Keeps-Removes x (create_producer_transport x r p m op oc)
        (create_producer_transport-Keeps x r p m op oc)

  pub create_consumer_transport-Removes :
      (r p m : String) (op oc : Option String) → Removes x (create_consumer_transport x r p m op oc)
  create_consumer_transport-Removes r p m op oc =
      Keeps-Removes x (create_consumer_transport x r p m op oc)
        (create_consumer_transport-Keeps x r p m op oc)

  pub recreate_producer_transport-Removes :
      (p m : String) (op oc : Option String) (r i : String)
      → Removes x (recreate_producer_transport x p m op oc r i)
  unfolding recreate_producer_transport
  recreate_producer_transport-Removes p m op oc r i =
      Removes-bind x _ _ (close_old-Removes p m i) λ details.
        Removes-bind x _ _ (Removes-map_err x _ _ (create_producer_transport-Removes r p m op oc))
          (λ t. nothing x)

  pub recreate_consumer_transport-Removes :
      (p r m i : String) (op oc : Option String)
      → Removes x (recreate_consumer_transport x p r m i op oc)
  unfolding recreate_consumer_transport
  recreate_consumer_transport-Removes p r m i op oc =
      Removes-bind x _ _ (close_old-Removes p m i)
        λ details. Removes-map_err x _ _ (create_consumer_transport-Removes r p m op oc)

  finish_joining-Removes :
      (p m i : String) (o : (String × Bool) ⊎ DbError) → Removes x (finish_joining x p m i o)
  unfolding finish_joining
  finish_joining-Removes p m i (inl r) =
      Removes-bind x _ _ (push_user_session_event-Removes x p m "JOIN" i) (λ _. nothing x)
  finish_joining-Removes p m i (inr e) = nothing x

  pub remove_and_add_participant_to_meeting-Removes :
      (p m i : String) (pr cr : Option String)
      → Removes x (remove_and_add_participant_to_meeting x p m i pr cr)
  unfolding remove_and_add_participant_to_meeting
  remove_and_add_participant_to_meeting-Removes p m i pr cr =
      Removes-bind x _ _ (mutate_db-Removes x _ _ _) (finish_joining-Removes p m i)

  producers_found-Removes :
      (o : List (MySqlDriver.Row x.driver) ⊎ DbError) → Removes x (producers_found x o)
  unfolding producers_found
  producers_found-Removes (inl rows) = nothing x
  producers_found-Removes (inr e) = nothing x

  pub recreate_producer_transport_helper-Removes :
      (p m i r : String) (op oc : Option String)
      → Removes x (recreate_producer_transport_helper x p m i r op oc)
  unfolding recreate_producer_transport_helper ensure_lock
  recreate_producer_transport_helper-Removes p m i r op oc =
      Removes-bind x _ _ (λ s. Shrinks.kept s _ (refl, refl))
        λ _.
          Removes-bind x _ _
            (Removes-map_err x _ _ (remove_and_add_participant_to_meeting-Removes p m i _ _))
            λ added. recreate_producer_transport-Removes p m _ _ r i

  pub get_producers_of_meeting-Removes : (m : String) → Removes x (get_producers_of_meeting x m)
  unfolding get_producers_of_meeting query_db
  get_producers_of_meeting-Removes m = Removes-bind x _ _ (nothing x) producers_found-Removes

  pub recreate_consumer_transport_helper-Removes :
      (p m i r : String) (op oc : Option String)
      → Removes x (recreate_consumer_transport_helper x p m i r op oc)
  unfolding recreate_consumer_transport_helper ensure_lock query_db
      get_producers_of_meeting_excluding_participant
  recreate_consumer_transport_helper-Removes p m i r op oc =
      Removes-bind x _ _ (λ s. Shrinks.kept s _ (refl, refl))
        λ _.
          Removes-bind x _ _
            (Removes-map_err x _ _ (remove_and_add_participant_to_meeting-Removes p m i _ _))
            λ added.
              Removes-bind x _ _
                (Removes-map_err x _ _ (recreate_consumer_transport-Removes p r m i _ _))
                λ options.
                  Removes-bind x _ _
                    (Removes-map_err x _ _ (Removes-bind x _ _ (nothing x) producers_found-Removes))
                    (λ details. nothing x)
