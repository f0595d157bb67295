-- ===== src/Service/Capacities.antt =====
-- Which router a worker is given from the payloads of create_meeting and replace_meetings in
-- src/service/v1/mod.rs, and what create_meeting does with an incomplete payload.
use doordarshan_media_server.Base.{
  Bool, true, false, if◌then◌else◌, ◌==◌, ◌&&◌, is_none, is_some, ◌≡◌, refl, ap, ◌∙◌, String,
  Option, none, some, ◌⊎◌, inl, inr, List, [], ◌∷◌, ok, panic,
}
use doordarshan_media_server.Base.Dict.{Dict, lookup, insert, lookup-insert}
use doordarshan_media_server.Base.Action.{◌>>=◌, resume}
use doordarshan_media_server.Sfu.Platform.{Platform}
use doordarshan_media_server.Sfu.Server.{Server}
use doordarshan_media_server.Sfu.Creation.{ProducerConsumerCapacity}
use doordarshan_media_server.Service.Payload.{RouterDetails, CreateMeetingPayload}
use doordarshan_media_server.Service.Answers.{Decoder, with_payload, parse_payload}
use doordarshan_media_server.Service.Meetings.{
  producer_capacity_of, consumer_capacity_of, insert_details, is_rejected, in_vector,
  worker_router_capacity, create_with, create_meeting,
}

-- The second, if there is one.
abbrev later_of : Option RouterDetails → Option RouterDetails → Option RouterDetails
later_of before none = before
later_of before (some r) = some r

-- The last of the details with a worker's id.
unfoldable pub last_of : String → List RouterDetails → Option RouterDetails
last_of w [] = none
last_of w (r ∷ rs) = later_of (if r.worker_id == w then some r else none) (last_of w rs)

-- What a list says of a worker, or else what was said before.
abbrev pub said_by : {V : Type 0} → (RouterDetails → V) → Option RouterDetails → Option V → Option V
said_by f none before = before
said_by f (some r) before = some (f r)

said_by-later_of :
    {V : Type 0} (f : RouterDetails → V) (r : RouterDetails) (before : Option V)
    (o : Option RouterDetails) (b : Bool)
    → said_by f o (if b then some (f r) else before)
      ≡ said_by f (later_of (if b then some r else none) o) before
said_by-later_of f r before none true = refl
said_by-later_of f r before none false = refl
said_by-later_of f r before (some last) b = refl

lookup-insert_details :
    {V : Type 0} (f : RouterDetails → V) (w : String) (rs : List RouterDetails) (workers : Dict V)
    → lookup w (insert_details f rs workers) ≡ said_by f (last_of w rs) (lookup w workers)
unfolding insert_details last_of
lookup-insert_details f w [] workers = refl
lookup-insert_details f w (r ∷ rs) workers =
    lookup-insert_details f w rs (insert r.worker_id (f r) workers)
    ∙ ap (said_by f (last_of w rs)) (lookup-insert r.worker_id (f r) workers w)
    ∙ said_by-later_of f r (lookup w workers) (last_of w rs) (r.worker_id == w)

module _ (x : Platform) where
  -- From lists of routers for producers and of routers for consumers, create_meeting makes a map in
  -- which a worker has one capacity: that of the last router for consumers with the worker's id, or
  -- if there is none, of the last router for producers with it. A worker that stands in both lists,
  -- or twice in one, loses the others; a worker in neither has no entry. The server is unchanged.
  pub worker_router_capacity-lookup :
      (producers consumers : List RouterDetails) (s : Server x)
      → (capacities : Dict (List ProducerConsumerCapacity)) × (worker_router_capacity x none
            (some producers)
            (some consumers)
            s
          ≡ (ok capacities, s))
        × ((w : String)
            → lookup w capacities
              ≡ said_by
                  (in_vector x consumer_capacity_of)
                  (last_of w consumers)
                  (said_by (in_vector x producer_capacity_of) (last_of w producers) none))
  unfolding worker_router_capacity ◌>>=◌ lookup
  worker_router_capacity-lookup producers consumers s = (
    insert_details (in_vector x consumer_capacity_of) consumers
        (insert_details (in_vector x producer_capacity_of) producers []),
    refl,
    λ w.
        lookup-insert_details (in_vector x consumer_capacity_of) w consumers
          (insert_details (in_vector x producer_capacity_of) producers [])
        ∙ ap (said_by (in_vector x consumer_capacity_of) (last_of w consumers))
            (lookup-insert_details (in_vector x producer_capacity_of) w producers []),
  )

  never_rejected :
      (routers : Option RouterDetails) (ps cs : Option (List RouterDetails))
      → (is_none routers && ((is_none ps && is_some cs) && (is_some ps && is_none cs))) ≡ false
  never_rejected (some r) ps cs = refl
  never_rejected none none none = refl
  never_rejected none none (some cs) = refl
  never_rejected none (some ps) cs = refl

  pub is_rejected-false : (p : CreateMeetingPayload) → is_rejected p ≡ false
  unfolding is_rejected
  is_rejected-false p = never_rejected p.routers p.producer_router_details p.consumer_router_details

  without_details :
      (producers consumers : Option (List RouterDetails)) (s : Server x)
      → (producers ≡ none) ⊎ (consumers ≡ none)
      → worker_router_capacity x none producers consumers s ≡ (panic, s)
  unfolding worker_router_capacity ◌>>=◌
  without_details none consumers s h = refl
  without_details (some ps) none s h = refl
  without_details (some ps) (some cs) s (inl e) = absurd cc
  without_details (some ps) (some cs) s (inr e) = absurd cc

  -- A payload with neither a single router nor both of the lists is not rejected: create_meeting
  -- panics, and the server is unchanged.
  pub create_meeting-panics :
      (from_str : Decoder CreateMeetingPayload) (text : String) (p : CreateMeetingPayload)
      (s : Server x)
      → from_str text ≡ inl p
      → p.routers ≡ none
      → (p.producer_router_details ≡ none) ⊎ (p.consumer_router_details ≡ none)
      → create_meeting x from_str text s ≡ (panic, s)
  unfolding create_meeting create_with with_payload parse_payload ◌>>=◌
  create_meeting-panics from_str text p s e single missing = rw e (
      rw (is_rejected-false p)
        (rw single (ap (resume (create_with x p)) (without_details _ _ s missing))))
