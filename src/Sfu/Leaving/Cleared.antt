-- ===== src/Sfu/Leaving/Cleared.antt =====
-- What `leave_meeting` and `end_meeting` of src/mediasoupv1/mod.rs clear from the maps in memory.
use mathlib.Core.Path.{subst}
use doordarshan_media_server.Base.{
  ◌≡◌, none, refl, sym, ◌<◌, ap, ◌∙◌, String, Bool, true, List, [], ◌∷◌, Outcome, ok, err, panic,
}
use doordarshan_media_server.Base.Lists.{contains, length}
use doordarshan_media_server.Base.Dict.{lookup, remove_all}
use doordarshan_media_server.Base.Action.{resume, bind-ok, bind-resume}
use doordarshan_media_server.Sfu.Platform.{Platform}
use doordarshan_media_server.Sfu.Server.{ConsumerInMemory, Server}
use doordarshan_media_server.Sfu.Shards.{
  HasShards, shard_in, shard_of, with_shard, get_shard-shard_of, write_shard-with_shard,
  shard_of-with_shard, HasShards-with_shard,
}
use doordarshan_media_server.Sfu.Queries.{
  producers_where, consumers_where, producer_of_instance, consumer_of_instance,
  get_participant_consumers_for_instance_in_meeting,
  get_participant_producers_for_instance_in_meeting, get_consumers_for_producer_ids,
}
use doordarshan_media_server.Sfu.Closing.{
  ProducerDetail, close_all_consumers_in_memory, close_producers_if_any,
}
use doordarshan_media_server.Sfu.Closing.Maps.{
  close_producers_if_any-unrecorded, close_producers_if_any-Closed,
  close_consumers_if_any-with_shard,
}
use doordarshan_media_server.Sfu.Leaving.{
  LeaveMeetingResponse, left_response, push_user_session_event, finish_leaving, leave_in_memory,
}

module _ (x : Platform) where
  -- The consumers of any of the producers.
  abbrev pub of_producers : List String → ConsumerInMemory x → Bool
  of_producers ids v = contains ids v.producer_id

  abbrev consumers_left : List String → String → Server x → Server x
  consumers_left ids m s =
      with_shard x m (remove_all (consumers_where x (of_producers ids) (shard_of x m s))) s

  finish_leaving-left :
      (p m i : String) (ids : List String) (s : Server x)
      → HasShards x s
      → finish_leaving x p m i ids s ≡ (
        ok (left_response x),
        (push_user_session_event x p m "LEAVE" i (consumers_left ids m s)).1,
      )
  unfolding finish_leaving get_consumers_for_producer_ids push_user_session_event
  finish_leaving-left p m i ids s h =
      bind-ok _ _ (bind-ok _ _ (get_shard-shard_of x m s h))
      ∙ bind-ok _ _ (close_consumers_if_any-with_shard x _ m s h)
      ∙ bind-ok _ _ refl

  -- The consumers and the producers that leaving finds.
  abbrev pub found_consumers : String → String → String → Server x → List String
  found_consumers p m i s = consumers_where x (consumer_of_instance x p m i) (shard_of x m s)

  abbrev pub found_producers : String → String → String → Server x → List String
  found_producers p m i s = producers_where x (producer_of_instance x p m i) s.producer_map

  -- The server when leaving closes the producers.
  abbrev before_producers : String → String → String → List String → Server x → Server x
  before_producers p m i ts s =
      with_shard x m (remove_all (found_consumers p m i s))
        (record s { transport_map = remove_all ts s.transport_map })

  leave_in_memory-before :
      (p m i : String) (ts : List String) (s : Server x)
      → HasShards x s
      → leave_in_memory x p m i ts s
        ≡ resume
            (λ _. finish_leaving x p m i (found_producers p m i s))
            (close_producers_if_any x
              (p ∷ [])
              (found_producers p m i s)
              m
              true
              (before_producers p m i ts s))
  unfolding leave_in_memory get_participant_consumers_for_instance_in_meeting
      get_participant_producers_for_instance_in_meeting close_all_consumers_in_memory
  leave_in_memory-before p m i ts s h =
      let s₁ : Server x = record s { transport_map = remove_all ts s.transport_map } in
      bind-ok _ _ refl
      ∙ bind-ok _ _ (bind-ok _ _ (get_shard-shard_of x m s₁ h))
      ∙ bind-ok _ _ (write_shard-with_shard x m (remove_all (found_consumers p m i s)) s₁ h)
      ∙ bind-ok _ _ refl
      ∙ bind-resume _ _ (before_producers p m i ts s)

  -- What leaving makes of the maps, from what it returns.
  abbrev pub LeftMaps :
      String → String → String → Server x → Outcome String LeaveMeetingResponse → Server x → Type 0
  LeftMaps p m i s o s' =
      let ids = found_producers p m i s in
      let shard = remove_all (found_consumers p m i s) (shard_of x m s) in
      (s'.producer_map ≡ remove_all ids s.producer_map) × (elim o [
        | ok r ↦
            (r ≡ left_response x)
            × (shard_of x m s' ≡ remove_all (consumers_where x (of_producers ids) shard) shard)
        | _ ↦ shard_of x m s' ≡ shard
      ])

  resume-LeftMaps :
      (p m i : String) (s s' : Server x) (o : Outcome String (List ProducerDetail))
      → HasShards x s'
      → s'.producer_map ≡ remove_all (found_producers p m i s) s.producer_map
      → shard_of x m s' ≡ remove_all (found_consumers p m i s) (shard_of x m s)
      → let r = resume (λ _. finish_leaving x p m i (found_producers p m i s)) (o, s') in
        LeftMaps p m i s r.0 r.1
  unfolding push_user_session_event
  resume-LeftMaps p m i s s' (ok a) h ep ec =
      let ids = found_producers p m i s in
      subst (λ r. LeftMaps p m i s r.0 r.1) (sym (finish_leaving-left p m i ids s' h))
        (
          ep,
          (
            refl,
            shard_of-with_shard x m
                  (remove_all (consumers_where x (of_producers ids) (shard_of x m s'))) s' h
                ∙ ap (λ c. remove_all (consumers_where x (of_producers ids) c) c) ec,
          ),
        )
  resume-LeftMaps p m i s s' (err e) h ep ec = (ep, ec)
  resume-LeftMaps p m i s s' panic h ep ec = (ep, ec)

  HasShards-closed :
      (p m i : String) (ts : List String) (s : Server x)
      → HasShards x s
      → HasShards x
          (close_producers_if_any x
            (p ∷ [])
            (found_producers p m i s)
            m
            true
            (before_producers p m i ts s)).1
  HasShards-closed p m i ts s h =
      let s₂ = before_producers p m i ts s in
      let closed = close_producers_if_any-Closed x p [] (found_producers p m i s) m true s₂ in
      subst (λ l. 0 < length l) (sym closed.1)
        (HasShards-with_shard x m (remove_all (found_consumers p m i s)) s h)

  pub leave_in_memory-LeftMaps :
      (p m i : String) (ts : List String) (s : Server x)
      → HasShards x s
      → let r = leave_in_memory x p m i ts s in LeftMaps p m i s r.0 r.1
  leave_in_memory-LeftMaps p m i ts s h =
      let s₂ = before_producers p m i ts s in
      let r = close_producers_if_any x (p ∷ []) (found_producers p m i s) m true s₂ in
      let closed = close_producers_if_any-Closed x p [] (found_producers p m i s) m true s₂ in
      subst (λ r. LeftMaps p m i s r.0 r.1) (sym (leave_in_memory-before p m i ts s h))
        (resume-LeftMaps p m i s r.1 r.0 (HasShards-closed p m i ts s h) closed.0 (
          ap (shard_in x m) closed.1
          ∙ shard_of-with_shard x m (remove_all (found_consumers p m i s)) s h))

  -- In a meeting without a recording, leaving cannot fail.
  pub leave_in_memory-left :
      (p m i : String) (ts : List String) (s : Server x)
      → HasShards x s
      → lookup m s.pipeline_map ≡ none
      → (leave_in_memory x p m i ts s).0 ≡ ok (left_response x)
  leave_in_memory-left p m i ts s h unrecorded =
      let ids = found_producers p m i s in
      let s₂ = before_producers p m i ts s in
      let s₃ = (close_producers_if_any x (p ∷ []) ids m true s₂).1 in
      ap (λ r. r.0)
        (leave_in_memory-before p m i ts s h
          ∙ ap (λ o. resume (λ _. finish_leaving x p m i ids) (o, s₃))
              (close_producers_if_any-unrecorded x p [] ids m true s₂ unrecorded)
          ∙ finish_leaving-left p m i ids s₃ (HasShards-closed p m i ts s h))
