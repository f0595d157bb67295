-- ===== src/Sfu/Leaving/Leave.antt =====
-- `leave_meeting` of src/mediasoupv1/mod.rs: what it clears, and what it returns.
use mathlib.Core.Path.{subst}
use doordarshan_media_server.Base.{
  ℕ, zero, suc, ◌≡◌, ◌≢◌, refl, sym, ap, ◌∙◌, String, Option, none, List, [], ◌∷◌, Outcome, ok, err,
  panic, true,
}
use doordarshan_media_server.Base.Lists.{given}
use doordarshan_media_server.Base.Dict.{lookup, remove_all}
use doordarshan_media_server.Base.Action.{◌>>=◌, bind-ok, resume}
use doordarshan_media_server.Db.{DbError}
use doordarshan_media_server.Db.Driver.{default_tx_opts}
use doordarshan_media_server.Db.Single.{delete}
use doordarshan_media_server.Sfu.Platform.{Platform}
use doordarshan_media_server.Sfu.Server.{Server, context, answer, on_pool, delete_db}
use doordarshan_media_server.Sfu.Shards.{HasShards, shard_of}
use doordarshan_media_server.Sfu.Queries.{
  producers_where, consumers_where, producer_of_instance, consumer_of_instance,
}
use doordarshan_media_server.Sfu.Queries.Lookup.{
  IsKeyed, IsKeyed-remove_all, ids_where-remove_all, none-remove_all,
}
use doordarshan_media_server.Sfu.Leaving.{
  LeaveMeetingResponse, left_response, leaving, leave_deleted, leave_in_memory, leave_meeting,
}
use doordarshan_media_server.Sfu.Leaving.Cleared.{
  found_producers, found_consumers, of_producers, LeftMaps, leave_in_memory-LeftMaps,
  leave_in_memory-left,
}

module _ (x : Platform) where
  -- Each producer, and each consumer of a meeting's shard, stands under its own id.
  abbrev pub HasKeys : String → Server x → Type 0
  HasKeys m s =
      IsKeyed (λ v. x.producer_id v.producer) s.producer_map
      × IsKeyed (λ v. x.consumer_id v.consumer) (shard_of x m s)

  -- What a participant's instance may leave behind in a meeting: no producer and no consumer, and if
  -- it could leave, no consumer of its producers either.
  abbrev pub Cleared :
      String
      → String
      → String
      → List String
      → Outcome String LeaveMeetingResponse
      → Server x
      → Type 0
  Cleared p m i ids o s' =
      (producers_where x (producer_of_instance x p m i) s'.producer_map ≡ [])
      × (consumers_where x (consumer_of_instance x p m i) (shard_of x m s') ≡ [])
      × (elim o [
        | ok r ↦
            (r ≡ left_response x) × (consumers_where x (of_producers x ids) (shard_of x m s') ≡ [])
        | _ ↦ Unit {0}
      ])

  LeftMaps-Cleared :
      (p m i : String) (s s' : Server x) (o : Outcome String LeaveMeetingResponse)
      → HasKeys m s
      → LeftMaps x p m i s o s'
      → Cleared p m i (found_producers x p m i s) o s'
  LeftMaps-Cleared p m i s s' (ok r) (kp, kc) (ep, (er, ec)) =
      let ids = found_producers x p m i s in
      let found = found_consumers x p m i s in
      let shard = remove_all found (shard_of x m s) in
      let keyed = IsKeyed-remove_all _ found (shard_of x m s) kc in
      (
        ap (producers_where x _) ep ∙ ids_where-remove_all _ _ s.producer_map kp,
        ap (consumers_where x _) ec
            ∙ none-remove_all _ _ (consumers_where x (of_producers x ids) shard) shard
                (ids_where-remove_all _ _ (shard_of x m s) kc),
        (er, ap (consumers_where x _) ec ∙ ids_where-remove_all _ _ shard keyed),
      )
  LeftMaps-Cleared p m i s s' (err e) (kp, kc) (ep, ec) = (
    ap (producers_where x _) ep ∙ ids_where-remove_all _ _ s.producer_map kp,
    ap (consumers_where x _) ec ∙ ids_where-remove_all _ _ (shard_of x m s) kc,
    tt,
  )
  LeftMaps-Cleared p m i s s' panic (kp, kc) (ep, ec) = (
    ap (producers_where x _) ep ∙ ids_where-remove_all _ _ s.producer_map kp,
    ap (consumers_where x _) ec ∙ ids_where-remove_all _ _ (shard_of x m s) kc,
    tt,
  )

  -- A participant whom the database knows leaves: with at least one shard and every entry under its
  -- id, whatever is returned, none of the instance's producers or consumers of the meeting is in
  -- memory; and if a response is returned, it signals the leave, and no consumer of one of the closed
  -- producers is left.
  pub leave_meeting-Cleared :
      (p m i : String) (pt ct : Option String) (n : ℕ) (s : Server x)
      → HasShards x s
      → HasKeys m s
      → (delete x.driver (leaving x p m i ∷ []) (context x true default_tx_opts s.pool)).0
        ≡ ok (suc n)
      → let r = leave_meeting x p m i pt ct s in Cleared p m i (found_producers x p m i s) r.0 r.1
  unfolding leave_meeting leave_deleted delete_db on_pool
  leave_meeting-Cleared p m i pt ct n s h keys e =
      let f = delete x.driver (leaving x p m i ∷ []) in
      let s₁ : Server x = record s { pool = (f (context x true default_tx_opts s.pool)).1 } in
      let ts = given pt (given ct []) in
      let r = leave_in_memory x p m i ts s₁ in
      subst (λ r. Cleared p m i (found_producers x p m i s) r.0 r.1)
        (sym (bind-ok _ _ (ap (λ o. (answer x o, s₁)) e)))
        (LeftMaps-Cleared p m i s₁ r.1 r.0 keys (leave_in_memory-LeftMaps x p m i ts s₁ h))

  unchanged :
      (p m i : String) (ts : List String) (o : Outcome DbError ℕ) (s : Server x)
      → ((n : ℕ) → o ≢ ok (suc n))
      → (resume (leave_deleted x p m i ts) (answer x o, s)).1 ≡ s
  unfolding leave_deleted
  unchanged p m i ts (ok zero) s h = refl
  unchanged p m i ts (ok (suc n)) s h = absurd (h n refl)
  unchanged p m i ts (err e) s h = refl
  unchanged p m i ts panic s h = refl

  -- Where the database deletes no participant, be it that there is none, that it fails or that it
  -- panics, `leave_meeting` changes nothing in memory.
  pub leave_meeting-unchanged :
      (p m i : String) (pt ct : Option String) (s : Server x)
      → ((n : ℕ)
          → (delete x.driver (leaving x p m i ∷ []) (context x true default_tx_opts s.pool)).0
            ≢ ok (suc n))
      → (leave_meeting x p m i pt ct s).1 ≡ record s {
        pool = (delete x.driver (leaving x p m i ∷ []) (context x true default_tx_opts s.pool)).1;
      }
  unfolding leave_meeting delete_db on_pool ◌>>=◌
  leave_meeting-unchanged p m i pt ct s h = unchanged p m i (given pt (given ct [])) _ _ h

  -- With at least one shard, where the database deletes the participant and the meeting has no
  -- recording, `leave_meeting`
  -- returns the response that signals the leave; it neither fails nor panics.
  pub leave_meeting-left :
      (p m i : String) (pt ct : Option String) (n : ℕ) (s : Server x)
      → HasShards x s
      → lookup m s.pipeline_map ≡ none
      → (delete x.driver (leaving x p m i ∷ []) (context x true default_tx_opts s.pool)).0
        ≡ ok (suc n)
      → (leave_meeting x p m i pt ct s).0 ≡ ok (left_response x)
  unfolding leave_meeting leave_deleted delete_db on_pool
  leave_meeting-left p m i pt ct n s h unrecorded e =
      let f = delete x.driver (leaving x p m i ∷ []) in
      let s₁ : Server x = record s { pool = (f (context x true default_tx_opts s.pool)).1 } in
      ap (λ r. r.0) (bind-ok _ _ (ap (λ o. (answer x o, s₁)) e))
      ∙ leave_in_memory-left x p m i (given pt (given ct [])) s₁ h unrecorded
