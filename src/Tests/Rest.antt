-- ===== src/Tests/Rest.antt =====
-- Inputs for the theorems about what a REST client sends.
use qpub_go.Prelude.{ℕ, suc, none, [], ◌++◌, inl, inr}
use qpub_go.Prelude.Text.{codes}
use qpub_go.Protocol.Json.{Json}
use qpub_go.Auth.Types.{Manager}
use qpub_go.Channel.Types.{PublishOptions}
use qpub_go.Transport.{Library}
use qpub_go.Http.{World}
use qpub_go.Rest.{publish}
use qpub_go.Rest.Wiring.{Codecs}
use qpub_go.Rest.Sent.{port}
use qpub_go.Rest.Published.{Outcome, AsksSingle, publish-Outcome}
use qpub_go.Tests.Auth.{env, manager}

-- A server that takes what it gets; the state counts the requests.
abbrev library : Library ℕ
library = record {
  refuses = λ method url. none;
  do_request = λ r s. (inr (record { status = 201; read = inr (codes "{}"); close = none }), suc s);
}

abbrev codecs : Codecs
codecs = record {
  marshal = λ j. inr (codes "null");
  marshal_body = λ b. inr (codes "{}");
  enqueue_response = λ b. inl (codes "EOF");
  job = λ b. inl (codes "EOF");
  jobs = λ b. inl (codes "EOF");
  config = λ b. inl (codes "EOF");
  worker = λ b. inl (codes "EOF");
}

abbrev world : World (Manager ℕ)
world = record { state = manager; sent = [] }

abbrev opts : PublishOptions
opts = record { event = codes "created"; alias = [] }

publish-Outcome_example :
    Outcome library codecs env
      (AsksSingle library codecs env
        (codes "/channel/" ++ codes "room" ++ codes "/messages")
        Json.null
        opts)
      world
      (publish (port library codecs env (codes "w")) (codes "room") Json.null opts world)
publish-Outcome_example =
    publish-Outcome library codecs env (codes "w") (codes "room") Json.null opts world
