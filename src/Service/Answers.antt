-- ===== src/Service/Answers.antt =====
-- How the handlers of src/service/v1/mod.rs begin and end: the payload is decoded, and the result of
-- the SFU's call becomes a response. The state of the server is the SFU's with its pool, both of
-- which src/main.rs sets before it serves.
use doordarshan_media_server.Base.{ℕ, String, ◌⊎◌, inl, inr, Outcome, ok, err, panic}
use doordarshan_media_server.Sfu.Platform.{Platform}
use doordarshan_media_server.Sfu.Server.{Handler}

-- What a response carries: a value or a text as JSON, `{"error": text}`, or a plain text.
pub data Body (B : Type 0) : Type 0 where
  json : B → Body B
  message : String → Body B
  error : String → Body B
  plain : String → Body B

pub record Response (B : Type 0) : Type 0 where
  pub status : ℕ
  pub body : Body B

-- `serde_json::from_str`, of another crate: a payload, or the text of an error.
abbrev pub Decoder : Type 0 → Type 0
Decoder P = String → P ⊎ String

abbrev pub accepted : {B : Type 0} → B → Response B
accepted b = record { status = 200; body = json b }

abbrev pub failed : {B : Type 0} → String → Response B
failed e = record { status = 500; body = message e }

-- A text that is a response by itself has the status 200.
abbrev pub told_plainly : {B : Type 0} → String → Response B
told_plainly e = record { status = 200; body = plain e }

abbrev pub or_bad_request : {P B : Type 0} → P ⊎ String → P ⊎ Response B
or_bad_request (inl payload) = inl payload
or_bad_request (inr e) = inr (record { status = 400; body = error e })

unfoldable pub parse_payload : {P B : Type 0} → Decoder P → String → P ⊎ Response B
parse_payload from_str request_payload = or_bad_request (from_str request_payload)

abbrev pub response_of :
    {A B : Type 0}
    → (A → Response B)
    → (String → Response B)
    → Outcome String A
    → Outcome String (Response B)
response_of on_ok on_err (ok a) = ok (on_ok a)
response_of on_ok on_err (err e) = ok (on_err e)
response_of on_ok on_err panic = panic

module _ (x : Platform) where
  abbrev pub or_return :
      {P B : Type 0} → (P → Handler x (Response B)) → P ⊎ Response B → Handler x (Response B)
  or_return f (inl payload) = f payload
  or_return f (inr response) = λ s. (ok response, s)

  -- The payload, or the end of the handler.
  unfoldable pub with_payload :
      {P B : Type 0} → Decoder P → String → (P → Handler x (Response B)) → Handler x (Response B)
  with_payload from_str request_payload f = or_return f (parse_payload from_str request_payload)

  -- The `match` on the result of a call.
  unfoldable pub respond :
      {A B : Type 0}
      → Handler x A
      → (A → Response B)
      → (String → Response B)
      → Handler x (Response B)
  respond m on_ok on_err s = (response_of on_ok on_err (m s).0, (m s).1)
