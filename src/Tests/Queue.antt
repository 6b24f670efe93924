-- ===== src/Tests/Queue.antt =====
-- Inputs for the theorems about the queue.
use qpub_go.Prelude.{ℕ, suc, pos, true, none, some, List, [], ◌∷◌, ◌≡◌, inl, inr, refl}
use qpub_go.Prelude.Text.{Text, codes}
use qpub_go.Options.{default_option}
use qpub_go.Options.Itoa.{build_rest_base_url}
use qpub_go.Protocol.QueueWire.{QueueJobWire}
use qpub_go.Protocol.Queue.{QueueJob, to_queue_job}
use qpub_go.Http.{Port, World, value}
use qpub_go.Queue.Worker.{opened, new_worker, start, Handler, process_jobs}
use qpub_go.Queue.Settling.{Settled, process_jobs-Settled}

abbrev wire_job : QueueJobWire
wire_job = record {
  id = codes "j1";
  queue_name = codes "mail";
  status = codes "running";
  payload = codes "{}";
  result = [];
  idempotency_key = [];
  attempt = some (pos 1);
  max_attempts = none;
  schedule_at = [];
  started_at = [];
  completed_at = [];
  worker_id = [];
  error_message = [];
  metadata = none;
  created_at = [];
  updated_at = [];
}

-- The server answers nothing that the client can read; the state counts the requests.
abbrev port : Port ℕ
port = record {
  opts = default_option;
  worker_id = codes "rest_worker_1";
  get_auth_headers = λ s. (inr ((codes "Authorization", codes "Bearer t") ∷ []), s);
  request = λ r s. (record { body = some []; error = none }, suc s);
  marshal = λ j. inr (codes "null");
  enqueue_response = λ b. inl (codes "EOF");
  job = λ b. inl (codes "EOF");
  jobs = λ b. inl (codes "EOF");
  config = λ b. inl (codes "EOF");
  worker = λ b. inl (codes "EOF");
}

abbrev world : World ℕ
world = record { state = 0; sent = [] }

abbrev base : Text
base = codes "https://rest.qpub.io/v1"

base_lem : build_rest_base_url port.opts ≡ some base
unfolding build_rest_base_url default_option
base_lem = refl

-- The first job succeeds, and the others fail.
abbrev handler : Handler ℕ
handler job ℕ.zero = (inr none, 0)
handler job (suc n) = (inl (codes "boom"), suc n)

abbrev two_jobs : List QueueJob
two_jobs = to_queue_job wire_job ∷ to_queue_job (record wire_job { id = codes "j2" }) ∷ []

process_jobs-Settled_example :
    ((process_jobs port handler (codes "mail") (codes "w") two_jobs world).0 ≡ value tt)
    × Settled port
        (codes "mail")
        base
        handler
        two_jobs
        []
        (process_jobs port handler (codes "mail") (codes "w") two_jobs world).1.sent
process_jobs-Settled_example =
    process_jobs-Settled port (codes "mail") base base_lem
      (λ s. ((codes "Authorization", codes "Bearer t") ∷ [], refl)) (λ j. (codes "null", refl))
      (codes "w") handler two_jobs world

started : start new_worker ≡ some (record { running = true; stop_ch = opened })
unfolding start
started = refl
