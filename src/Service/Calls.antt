-- ===== src/Service/Calls.antt =====
-- The calls of the SFU that handlers of src/service/v1/mod.rs make, as steps of src/mediasoupv1/mod.rs.
use doordarshan_media_server.Base.{
  Bool, true, false, if◌then◌else◌, ◌≡◌, refl, String, Option, none, some, ◌⊎◌, inl, inr, List, [],
  ◌∷◌, Outcome, ok, err, panic,
}
use doordarshan_media_server.Base.Dict.{Dict, lookup}
use doordarshan_media_server.Base.Action.{◌>>=◌, resume, unwrap}
use doordarshan_media_server.Sfu.Platform.{Platform}
use doordarshan_media_server.Sfu.Server.{RouterInMemory, Server, Handler}
use doordarshan_media_server.Sfu.Ports.{get_router_capabilities, capabilities_of}
use doordarshan_media_server.Sfu.Batch.{MeetingPayload}
use doordarshan_media_server.Sfu.Reachable.{Step, Steps}
use doordarshan_media_server.Service.Payload.{
  RouterDetails, ReplaceMeetingPayload, ReplaceMeetingsRequest, CreateMeetingPayload,
}
use doordarshan_media_server.Service.Answers.{
  Response, Decoder, with_payload, parse_payload, respond, or_return, or_bad_request,
}
use doordarshan_media_server.Service.Meetings.{
  is_rejected, create_with, create_meeting, replace_meetings, worker_router_capacity,
  worker_payload, batch_router_payload,
}
use doordarshan_media_server.Service.Transports.{capabilities}
use doordarshan_media_server.Service.Routes.{status_of}

module _ (x : Platform) where
  pub append : {s t u : Server x} → Steps x s t → Steps x t u → Steps x s u
  append first Steps.none_yet = first
  append first (Steps.then rest step) = Steps.then (append first rest) step

  -- Whatever it returns, it has taken steps of the SFU.
  abbrev pub Takes : {A : Type 0} → Handler x A → Type 0
  Takes f = (s : Server x) → Steps x s (f s).1

  pub one : {s t : Server x} → Step x s t → Steps x s t
  one step = Steps.then Steps.none_yet step

  resume-Takes :
      {A B : Type 0} (f : A → Handler x B) (r : Outcome String A) (s t : Server x)
      → Steps x s t
      → ((a : A) → Takes (f a))
      → Steps x s (resume f (r, t)).1
  resume-Takes f (ok a) s t steps h = append steps (h a t)
  resume-Takes f (err e) s t steps h = steps
  resume-Takes f panic s t steps h = steps

  pub Takes-bind :
      {A B : Type 0} (m : Handler x A) (f : A → Handler x B)
      → Takes m
      → ((a : A) → Takes (f a))
      → Takes (m >>= f)
  unfolding ◌>>=◌
  Takes-bind m f h k s = resume-Takes f (m s).0 s (m s).1 (h s) k

  pub respond-Takes :
      {A B : Type 0} (m : Handler x A) (f : A → Response B) (g : String → Response B)
      → Takes m
      → Takes (respond x m f g)
  unfolding respond
  respond-Takes m f g h = h

  or_return-Takes :
      {P B : Type 0} (f : P → Handler x (Response B)) (r : P ⊎ String)
      → ((p : P) → r ≡ inl p → Takes (f p))
      → Takes (or_return x f (or_bad_request r))
  or_return-Takes f (inl p) h = h p refl
  or_return-Takes f (inr e) h = λ s. Steps.none_yet

  -- The handler goes on with the payload, if there is one.
  pub with_payload-Takes :
      {P B : Type 0} (from_str : Decoder P) (text : String) (f : P → Handler x (Response B))
      → ((p : P) → from_str text ≡ inl p → Takes (f p))
      → Takes (with_payload x from_str text f)
  unfolding with_payload parse_payload
  with_payload-Takes from_str text f = or_return-Takes f (from_str text)

  pub status_of-Takes : {B : Type 0} (m : Handler x (Response B)) → Takes m → Takes (status_of x m)
  unfolding status_of
  status_of-Takes m h = Takes-bind m _ h λ r s. Steps.none_yet

  -- A handler that makes one call of the SFU.
  pub calling-Takes :
      {P A B : Type 0} (from_str : Decoder P) (text : String) (m : P → Handler x A)
      (f : P → A → Response B) (g : P → String → Response B)
      → ((p : P) → from_str text ≡ inl p → Takes (m p))
      → Takes (status_of x (with_payload x from_str text λ p. respond x (m p) (f p) (g p)))
  calling-Takes from_str text m f g h =
      status_of-Takes _
        (with_payload-Takes from_str text _ λ p e. respond-Takes (m p) (f p) (g p) (h p e))

  pub unwrap-Takes : {A : Type 0} (o : Option A) → Takes (unwrap {S = Server x} o)
  unwrap-Takes none = λ s. Steps.none_yet
  unwrap-Takes (some a) = λ s. Steps.none_yet

  worker_router_capacity-Takes :
      (r : Option RouterDetails) (ps cs : Option (List RouterDetails))
      → Takes (worker_router_capacity x r ps cs)
  unfolding worker_router_capacity
  worker_router_capacity-Takes (some r) ps cs = λ s. Steps.none_yet
  worker_router_capacity-Takes none ps cs =
      Takes-bind _ _ (unwrap-Takes ps) λ p. Takes-bind _ _ (unwrap-Takes cs) λ c s. Steps.none_yet

  worker_payload-Takes :
      (r : Option RouterDetails) (ps cs : Option (List RouterDetails))
      → Takes (worker_payload x r ps cs)
  unfolding worker_payload
  worker_payload-Takes (some r) ps cs = λ s. Steps.none_yet
  worker_payload-Takes none ps cs =
      Takes-bind _ _ (unwrap-Takes ps) λ p. Takes-bind _ _ (unwrap-Takes cs) λ c s. Steps.none_yet

  batch_router_payload-Takes :
      (ps : List ReplaceMeetingPayload) (batch : Dict MeetingPayload)
      → Takes (batch_router_payload x ps batch)
  unfolding batch_router_payload
  batch_router_payload-Takes [] batch = λ s. Steps.none_yet
  batch_router_payload-Takes (p ∷ ps) batch =
      Takes-bind _ _
        (worker_payload-Takes p.routers p.producer_router_details p.consumer_router_details)
        λ workers. batch_router_payload-Takes ps _

  pub if-Takes :
      {A : Type 0} (b : Bool) (f g : Handler x A) → Takes f → Takes g → Takes (if b then f else g)
  if-Takes true f g h k = h
  if-Takes false f g h k = k

  pub create_meeting-Takes :
      (from_str : Decoder CreateMeetingPayload) (text : String)
      → Takes (create_meeting x from_str text)
  unfolding create_meeting create_with
  create_meeting-Takes from_str text = with_payload-Takes from_str text _ λ p _.
      if-Takes (is_rejected p) _ _ (λ s. Steps.none_yet)
        (Takes-bind _ _
          (worker_router_capacity-Takes p.routers p.producer_router_details
            p.consumer_router_details)
          λ capacities.
            respond-Takes _ _ _
              (λ s. one (Step.creates_meeting capacities p.meeting_id p.container_id s)))

  pub replace_meetings-Takes :
      (from_str : Decoder ReplaceMeetingsRequest) (text : String)
      → Takes (replace_meetings x from_str text)
  unfolding replace_meetings
  replace_meetings-Takes from_str text = with_payload-Takes from_str text _ λ p _.
      Takes-bind _ _ (batch_router_payload-Takes p.replace_meeting_requests [])
        λ batch. respond-Takes _ _ _ (λ s. one (Step.batch_creates batch s))

  capabilities_of-Takes : (o : Option (RouterInMemory x)) → Takes (capabilities_of x o)
  capabilities_of-Takes none = λ s. Steps.none_yet
  capabilities_of-Takes (some router) = λ s. Steps.none_yet

  get_router_capabilities-Takes : (r : String) → Takes (get_router_capabilities x r)
  unfolding get_router_capabilities
  get_router_capabilities-Takes r =
      Takes-bind _ _ (λ s. Steps.none_yet) λ routers. capabilities_of-Takes (lookup r routers)

  pub capabilities-Takes : (p c : String) → Takes (capabilities x p c)
  unfolding capabilities
  capabilities-Takes p c =
      Takes-bind _ _ (get_router_capabilities-Takes p)
        λ a. Takes-bind _ _ (get_router_capabilities-Takes c) λ b s. Steps.none_yet
