-- ===== src/Http.antt =====
-- The interface of internal/port/http.go, over which queue/manager.go and channel/rest.go send their
-- requests, with the auth manager's headers and the JSON codec that they rely on.
use qpub_go.Prelude.{Option, none, some, List, [], ◌∷◌, ◌⊎◌, inl, inr}
use qpub_go.Prelude.Text.{Text}
use qpub_go.Prelude.Dict.{Dict}
use qpub_go.Options.{Options}
use qpub_go.Options.Itoa.{build_rest_base_url}
use qpub_go.Protocol.Json.{Json}
use qpub_go.Protocol.Messages.{RestPublishRequest}
use qpub_go.Protocol.QueueWire.{
  EnqueueJobRequestWire, EnqueueJobResponseWire, QueueJobWire, JobsResponseWire,
  PullJobsRequestWire, AckJobRequestWire, NackJobRequestWire, QueueConfigWire,
  UpdateQueueConfigRequestWire, RegisterWorkerRequestWire, WorkerResponseWire, HeartbeatRequestWire,
}

-- A Go `error` is its text.
abbrev pub Error : Type 0
Error = Text

-- The values that are passed to be sent as JSON.
pub data Body : Type 0 where
  no_body empty_object : Body
  enqueue_body : EnqueueJobRequestWire → Body
  update_body : UpdateQueueConfigRequestWire → Body
  register_body : RegisterWorkerRequestWire → Body
  heartbeat_body : HeartbeatRequestWire → Body
  pull_body : PullJobsRequestWire → Body
  ack_body : AckJobRequestWire → Body
  nack_body : NackJobRequestWire → Body
  publish_body : RestPublishRequest → Body

pub data Method : Type 0 where
  get post put delete : Method

pub record Request : Type 0 where
  pub method : Method
  pub url : Text
  pub body : Body
  pub headers : Dict Text

-- What the callers of the HTTP client look at: the body or nil, and the error or nil.
pub record Reply : Type 0 where
  pub body : Option Text
  pub error : Option Error

pub record Port (S : Type 0) : Type 0 where
  pub opts : Options
  pub worker_id : Text
  pub get_auth_headers : S → (Error ⊎ Dict Text) × S
  pub request : Request → S → Reply × S
  pub marshal : Json → Error ⊎ Text
  pub enqueue_response : Text → Error ⊎ EnqueueJobResponseWire
  pub job : Text → Error ⊎ QueueJobWire
  pub jobs : Text → Error ⊎ JobsResponseWire
  pub config : Text → Error ⊎ QueueConfigWire
  pub worker : Text → Error ⊎ WorkerResponseWire

-- The state of what is called, and the requests sent, the newest first.
pub record World (S : Type 0) : Type 0 where
  pub state : S
  pub sent : List Request

-- A call returns a value or an error, or panics where the base URL does.
pub data Result (A : Type 0) : Type 0 where
  value : A → Result A
  error : Error → Result A
  panic : Result A

abbrev pub Q : Type 0 → Type 0 → Type 0
Q S A = World S → Result A × World S

abbrev pub of_sum : {A : Type 0} → Error ⊎ A → Result A
of_sum (inl e) = error e
of_sum (inr a) = value a

abbrev pub of_option : Option Text → Result Text
of_option none = panic
of_option (some s) = value s

-- The callers that drop the body of an answer with an error.
abbrev pub body_or_error : Reply → Error ⊎ Text
body_or_error r = elim r.error [
  | some e ↦ inl e
  | none ↦ elim r.body [ none ↦ inr [] | some b ↦ inr b ]
]

-- A function that returns a body and an error: an earlier error comes without a body.
abbrev pub with_error : Result Reply → Result Reply
with_error (value r) = value r
with_error (error e) = value (record { body = none; error = some e })
with_error panic = panic

module _ {S : Type 0} where
  abbrev pub pure : {A : Type 0} → A → Q S A
  pure a w = (value a, w)

  abbrev pub and_then : {A B : Type 0} → Result A × World S → (A → Q S B) → Result B × World S
  and_then (value a, w) f = f a w
  and_then (error e, w) f = (error e, w)
  and_then (panic, w) f = (panic, w)

  infixl 5 ◌>>=◌
  abbrev pub ◌>>=◌ : {A B : Type 0} → Q S A → (A → Q S B) → Q S B
  ◌>>=◌ m f w = and_then (m w) f

  abbrev pub lift : {A : Type 0} → Error ⊎ A → Q S A
  lift r w = (of_sum r, w)

  abbrev pub auth_headers : Port S → Q S (Dict Text)
  auth_headers port w =
      let r = port.get_auth_headers w.state in (of_sum r.0, record w { state = r.1 })

  abbrev pub base_url : Port S → Q S Text
  base_url port w = (of_option (build_rest_base_url port.opts), w)

  -- The body and the error of one request.
  abbrev pub exchange : Port S → Request → Q S Reply
  exchange port r w =
      let answer = port.request r w.state in
      (value answer.0, record { state = answer.1; sent = r ∷ w.sent })

  abbrev pub send : Port S → Request → Q S Text
  send port r w =
      let answer = port.request r w.state in
      (of_sum (body_or_error answer.0), record { state = answer.1; sent = r ∷ w.sent })

  abbrev pub replying : Q S Reply → Q S Reply
  replying m w = let out = m w in (with_error out.0, out.1)
