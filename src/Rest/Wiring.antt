-- ===== src/Rest/Wiring.antt =====
-- What `NewRest` of rest.go hands to its managers: the HTTP client of transport/httpclient/client.go
-- behind internal/port/http.go, with the auth manager whose headers the requests carry. The codecs are
-- those of encoding/json.
use qpub_go.Prelude.{some, ◌⊎◌, inl, inr}
use qpub_go.Prelude.Text.{Text, codes}
use qpub_go.Prelude.Dict.{Dict}
use qpub_go.Protocol.Json.{Json}
use qpub_go.Protocol.QueueWire.{
  EnqueueJobResponseWire, QueueJobWire, JobsResponseWire, QueueConfigWire, WorkerResponseWire,
}
use qpub_go.Jwt.Base64.{std_encode}
use qpub_go.Auth.Types
use qpub_go.Auth.Types.{Env, Manager}
use qpub_go.Auth.Tokens.{get_auth_headers}
use qpub_go.Transport.{Library, Answer, get_json, post_json, put_json, delete_json}
use qpub_go.Http.{Error, Body, Request, Reply, Port, get, post, put, delete}

pub record Codecs : Type 0 where
  pub marshal : Json → Error ⊎ Text
  pub marshal_body : Body → Error ⊎ Text
  pub enqueue_response : Text → Error ⊎ EnqueueJobResponseWire
  pub job : Text → Error ⊎ QueueJobWire
  pub jobs : Text → Error ⊎ JobsResponseWire
  pub config : Text → Error ⊎ QueueConfigWire
  pub worker : Text → Error ⊎ WorkerResponseWire

-- The only error of `GetAuthHeaders`.
abbrev pub told :
    {S : Type 0} → (Types.Error ⊎ Dict Text) × Manager S → (Error ⊎ Dict Text) × Manager S
told (inl e, m) = (inl (codes "No authentication credentials provided"), m)
told (inr hs, m) = (inr hs, m)

module _ {S : Type 0} (lib : Library S) (codecs : Codecs) where
  -- The method of the client that a request names; a body of nil is `get`'s or `delete`'s.
  unfoldable pub call_client : Request → S → Answer × S
  call_client r s = elim r.method [
    | get ↦ get_json lib r.url r.headers s
    | post ↦ post_json lib r.url (some (codecs.marshal_body r.body)) r.headers s
    | put ↦ put_json lib r.url (some (codecs.marshal_body r.body)) r.headers s
    | delete ↦ delete_json lib r.url r.headers s
  ]

  -- The status is dropped by all callers.
  abbrev pub answered : Manager S → Answer × S → Reply × Manager S
  answered m (a, s) = (record { body = a.body; error = a.error }, record m { state = s })

  unfoldable pub wired : Env S → Text → Port (Manager S)
  wired env worker_id = record {
    opts = env.opts;
    worker_id = worker_id;
    get_auth_headers = λ m. told (get_auth_headers env std_encode m);
    request = λ r m. answered m (call_client r m.state);
    marshal = codecs.marshal;
    enqueue_response = codecs.enqueue_response;
    job = codecs.job;
    jobs = codecs.jobs;
    config = codecs.config;
    worker = codecs.worker;
  }
