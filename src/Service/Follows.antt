-- ===== src/Service/Follows.antt =====
-- The handlers of src/service/v1/mod.rs and what their routes promise, up to the status.
use doordarshan_media_server.Base.{
  ℕ, ◌≡◌, refl, ap, ◌∙◌, String, Bool, true, false, if◌then◌else◌, Option, none, some, ◌⊎◌, inl,
  inr, List, [], ◌∷◌, Outcome, ok, err, panic,
}
use doordarshan_media_server.Base.Dict.{Dict, insert}
use doordarshan_media_server.Base.Action.{◌>>=◌, pure, resume}
use doordarshan_media_server.Sfu.Platform.{Platform}
use doordarshan_media_server.Sfu.Server.{Server, Handler}
use doordarshan_media_server.Sfu.Ports.{get_router_capabilities}
use doordarshan_media_server.Sfu.Creation.{create_meeting_and_routers_on_workers}
use doordarshan_media_server.Sfu.Batch.{MeetingPayload, batch_create_router_on_worker}
use doordarshan_media_server.Service.Payload.{
  CapabilitiesResponse, RouterDetails, ReplaceMeetingPayload, CreateMeetingPayload,
}
use doordarshan_media_server.Service.Answers.{
  Response, Decoder, accepted, failed, with_payload, parse_payload, or_return, or_bad_request,
  respond, response_of,
}
use doordarshan_media_server.Service.Meetings.{
  in_vector, create_with, worker_router_capacity, worker_payload, batch_router_payload,
  meeting_error,
}
use doordarshan_media_server.Service.Transports.{capabilities}
use doordarshan_media_server.Service.Routes.{status_of}
use doordarshan_media_server.Service.Plans.{
  Plan, status_from, run, decoded, or_crash, routers_of, replacing, replace_each,
}

module _ (x : Platform) where
  -- The status of a handler and the state after it are those of a plan.
  abbrev pub Follows : {B : Type 0} → Handler x (Response B) → Plan x → Type 0
  Follows f q = (s : Server x) → status_of x f s ≡ run x q s

  payload_or_not :
      {P B : Type 0} (r : P ⊎ String) (f : P → Handler x (Response B)) (q : P → Plan x)
      → ((p : P) → Follows (f p) (q p))
      → Follows (or_return x f (or_bad_request r)) (decoded x q r)
  unfolding status_of ◌>>=◌ run
  payload_or_not (inl p) f q h = h p
  payload_or_not (inr e) f q h = λ s. refl

  pub with_payload-Follows :
      {P B : Type 0} (from_str : Decoder P) (text : String) (f : P → Handler x (Response B))
      (q : P → Plan x)
      → ((p : P) → Follows (f p) (q p))
      → Follows (with_payload x from_str text f) (decoded x q (from_str text))
  unfolding with_payload parse_payload
  with_payload-Follows from_str text = payload_or_not (from_str text)

  responded :
      {A B : Type 0} (f : A → Response B) (g : String → Response B) (k : ℕ) (o : Outcome String A)
      (s : Server x)
      → ((a : A) → (f a).status ≡ 200)
      → ((e : String) → (g e).status ≡ k)
      → resume (λ r. pure r.status) (response_of f g o, s) ≡ (status_from x k o, s)
  responded f g k (ok a) s good bad = ap (λ n. (ok n, s)) (good a)
  responded f g k (err e) s good bad = ap (λ n. (ok n, s)) (bad e)
  responded f g k panic s good bad = refl

  pub respond-Follows :
      {A B : Type 0} (m : Handler x A) (f : A → Response B) (g : String → Response B) (k : ℕ)
      → ((a : A) → (f a).status ≡ 200)
      → ((e : String) → (g e).status ≡ k)
      → Follows (respond x m f g) (Plan.acts m k)
  unfolding respond status_of ◌>>=◌ run
  respond-Follows m f g k good bad s = responded f g k (m s).0 (m s).1 good bad

  resume-Follows :
      {A B : Type 0} (f : A → Handler x (Response B)) (q : Plan x) (o : Outcome String A)
      (s : Server x)
      → ((a : A) → Follows (f a) q)
      → resume (λ r. pure r.status) (resume f (o, s)) ≡ resume (λ _. run x q) (o, s)
  unfolding status_of ◌>>=◌
  resume-Follows f q (ok a) s h = h a s
  resume-Follows f q (err e) s h = refl
  resume-Follows f q panic s h = refl

  -- A handler that goes on from a query.
  pub bind-Follows :
      {A B : Type 0} (m : Handler x A) (f : A → Handler x (Response B)) (q : Plan x)
      → ((a : A) → Follows (f a) q)
      → Follows (m >>= f) (Plan.reads m q)
  unfolding status_of ◌>>=◌ run
  bind-Follows m f q h s = resume-Follows f q (m s).0 (m s).1 h

  resume-resume :
      {A B C : Type 0} (f : A → Handler x B) (g : B → Handler x C) (o : Outcome String A)
      (s : Server x)
      → resume g (resume f (o, s)) ≡ resume (λ a. f a >>= g) (o, s)
  unfolding ◌>>=◌
  resume-resume f g (ok a) s = refl
  resume-resume f g (err e) s = refl
  resume-resume f g panic s = refl

  bind-bind :
      {A B C : Type 0} (m : Handler x A) (f : A → Handler x B) (g : B → Handler x C) (s : Server x)
      → ((m >>= f) >>= g) s ≡ (m >>= λ a. f a >>= g) s
  unfolding ◌>>=◌
  bind-bind m f g s = resume-resume f g (m s).0 (m s).1

  -- The same of a query that is the first of several.
  nested-Follows :
      {A B C : Type 0} (m : Handler x A) (f : A → Handler x B) (g : B → Handler x (Response C))
      (q : Plan x)
      → ((a : A) → Follows (f a >>= g) q)
      → Follows ((m >>= f) >>= g) (Plan.reads m q)
  unfolding status_of ◌>>=◌
  nested-Follows m f g q h s =
      ap (resume λ r. pure r.status) (bind-bind m f g s) ∙ bind-Follows m (λ a. f a >>= g) q h s

  pub pure-Follows : {B : Type 0} (r : Response B) → r.status ≡ 200 → Follows (pure r) Plan.answers
  unfolding status_of ◌>>=◌ run
  pure-Follows r e s = ap (λ n. (ok n, s)) e

  -- A handler that makes one call of the SFU.
  pub calling-Follows :
      {P A B : Type 0} (from_str : Decoder P) (text : String) (m : P → Handler x A)
      (f : P → A → Response B) (g : P → String → Response B) (k : ℕ)
      → ((p : P) (a : A) → (f p a).status ≡ 200)
      → ((p : P) (e : String) → (g p e).status ≡ k)
      → Follows
          (with_payload x from_str text λ p. respond x (m p) (f p) (g p))
          (decoded x (λ p. Plan.acts (m p) k) (from_str text))
  calling-Follows from_str text m f g k good bad =
      with_payload-Follows from_str text _ _
        λ p. respond-Follows (m p) (f p) (g p) k (good p) (bad p)

  pure-bind-Follows :
      {A B : Type 0} (a : A) (f : A → Handler x (Response B)) (q : Plan x)
      → Follows (f a) q
      → Follows (pure a >>= f) q
  unfolding status_of ◌>>=◌
  pure-bind-Follows a f q h = h

  -- Both queries for capabilities, and what comes after them.
  pub capabilities-Follows :
      {B : Type 0} (producer_router_id consumer_router_id : String)
      (f : CapabilitiesResponse x → Handler x (Response B)) (q : Plan x)
      → ((c : CapabilitiesResponse x) → Follows (f c) q)
      → Follows (capabilities x producer_router_id consumer_router_id >>= f) (
          Plan.reads
            (get_router_capabilities x producer_router_id)
            (Plan.reads (get_router_capabilities x consumer_router_id) q))
  unfolding capabilities
  capabilities-Follows pr cr f q h =
      nested-Follows _ _ f _ λ a. nested-Follows _ _ f q λ b. pure-bind-Follows _ f q (h _)

  pub rejecting-Follows :
      {B : Type 0} (b : Bool) (f g : Handler x (Response B)) (q : Plan x)
      → b ≡ false
      → Follows g q
      → Follows (if b then f else g) q
  rejecting-Follows false f g q e h = h
  rejecting-Follows true f g q e h = absurd cc

  pub create_meeting-Follows :
      (p : CreateMeetingPayload) (o : Option RouterDetails) (ps cs : Option (List RouterDetails))
      → Follows (worker_router_capacity x o ps cs >>= create_with x p) (
          or_crash x
            (λ routers.
              Plan.acts
                (create_meeting_and_routers_on_workers x routers p.meeting_id p.container_id)
                500)
            (routers_of x (in_vector x) o ps cs))
  unfolding worker_router_capacity routers_of create_with status_of ◌>>=◌ run insert
  create_meeting-Follows p (some r) ps cs s =
      respond-Follows (create_meeting_and_routers_on_workers x _ p.meeting_id p.container_id) _ _
        500 (λ a. refl) (λ e. refl) s
  create_meeting-Follows p none none cs s = refl
  create_meeting-Follows p none (some ps) none s = refl
  create_meeting-Follows p none (some ps) (some cs) s =
      respond-Follows (create_meeting_and_routers_on_workers x _ p.meeting_id p.container_id) _ _
        500 (λ a. refl) (λ e. refl) s

  replace_next :
      (p : ReplaceMeetingPayload) (ps : List ReplaceMeetingPayload) (batch : Dict MeetingPayload)
      (o : Option RouterDetails) (producers consumers : Option (List RouterDetails))
      → ((b : Dict MeetingPayload)
          → Follows
              (batch_router_payload x ps b >>= λ b.
                respond x
                  (batch_create_router_on_worker x b)
                  accepted
                  (λ e. failed (meeting_error e)))
              (replace_each x ps b))
      → Follows
          ((worker_payload x o producers consumers >>= λ workers.
              batch_router_payload x ps (insert p.meeting_id (replacing x p workers) batch))
            >>= λ b.
                respond x
                  (batch_create_router_on_worker x b)
                  accepted
                  (λ e. failed (meeting_error e)))
          (or_crash x
            (λ workers. replace_each x ps (insert p.meeting_id (replacing x p workers) batch))
            (routers_of x (λ f. f) o producers consumers))
  unfolding worker_payload routers_of status_of ◌>>=◌ run insert
  replace_next p ps batch (some r) producers consumers h s = h _ s
  replace_next p ps batch none none consumers h s = refl
  replace_next p ps batch none (some producers) none h s = refl
  replace_next p ps batch none (some producers) (some consumers) h s = h _ s

  pub replace_from :
      (ps : List ReplaceMeetingPayload) (batch : Dict MeetingPayload)
      → Follows
          (batch_router_payload x ps batch >>= λ b.
            respond x (batch_create_router_on_worker x b) accepted (λ e. failed (meeting_error e)))
          (replace_each x ps batch)
  unfolding batch_router_payload replace_each
  replace_from [] batch =
      pure-bind-Follows batch _ _
        (respond-Follows (batch_create_router_on_worker x batch) _ _ 500 (λ a. refl) (λ e. refl))
  replace_from (p ∷ ps) batch =
      replace_next p ps batch p.routers p.producer_router_details p.consumer_router_details
        (replace_from ps)
