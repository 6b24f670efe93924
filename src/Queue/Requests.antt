-- ===== src/Queue/Requests.antt =====
-- The requests of `Manager` in queue/manager.go.
use qpub_go.Prelude.{
  ℤ, pos, Option, none, some, List, [], ◌++◌, map, if◌then◌else◌, is_zero, ◌⊎◌, inr,
}
use qpub_go.Prelude.Text.{Text, codes, is_empty}
use qpub_go.Prelude.Dict.{Dict}
use qpub_go.Prelude.Url.{query_escape}
use qpub_go.Protocol.Json.{Json}
use qpub_go.Protocol.Queue.{
  QueueJob, EnqueueOptions, EnqueueResult, ListJobsOptions, PullJobsOptions, AckJobOptions,
  NackJobOptions, QueueConfig, UpdateQueueConfigOptions, RegisterWorkerOptions, WorkerRegistration,
  to_queue_job, to_enqueue_result, to_queue_config, to_worker_registration,
}
use qpub_go.Http.{
  Port, Q, pure, ◌>>=◌, lift, auth_headers, base_url, send, Error, Method, get, post, put, delete,
  Body, no_body, empty_object, enqueue_body, update_body, register_body, heartbeat_body, pull_body,
  ack_body, nack_body,
}

abbrev pub or_default : Text → Text → Text
or_default s t = if is_empty s then t else s

abbrev pub or_one : ℤ → ℤ
or_one n = if is_zero n then pos 1 else n

-- An optional value becomes its JSON, and a missing one no bytes.
abbrev marshal_option : {S : Type 0} → Port S → Option Json → Error ⊎ Text
marshal_option port none = inr []
marshal_option port (some j) = port.marshal j

module _ {S : Type 0} (port : Port S) where
  -- The request to a path below the base URL, and the bytes of the answer.
  abbrev pub request : Method → Text → Body → Dict Text → Q S Text
  request method path body headers = do
    base ← base_url port
    send port (record { method = method; url = base ++ path; body = body; headers = headers })

  abbrev pub queue_path : Text → Text
  queue_path name = codes "/queue/" ++ name

  abbrev pub job_path : Text → Text → Text
  job_path name id = queue_path name ++ codes "/jobs/" ++ id

  unfoldable pub enqueue : Text → Option Json → EnqueueOptions → Q S EnqueueResult
  enqueue name payload opts = do
    headers ← auth_headers port
    raw ← lift (marshal_option port payload)
    b ←
        request post (queue_path name ++ codes "/jobs")
          (enqueue_body (record {
            payload = raw;
            delay = opts.delay;
            idempotency_key = opts.idempotency_key;
            schedule_at = opts.schedule_at;
            metadata = opts.metadata;
          }))
          headers
    resp ← lift (port.enqueue_response b)
    pure (to_enqueue_result resp)

  unfoldable pub get_job : Text → Text → Q S QueueJob
  get_job name id = do
    headers ← auth_headers port
    b ← request get (job_path name id) no_body headers
    w ← lift (port.job b)
    pure (to_queue_job w)

  abbrev status_query : Text → Text
  status_query status = if is_empty status then [] else codes "?status=" ++ query_escape status

  unfoldable pub list_jobs : Text → ListJobsOptions → Q S (List QueueJob)
  list_jobs name opts = do
    headers ← auth_headers port
    b ← request get (queue_path name ++ codes "/jobs" ++ status_query opts.status) no_body headers
    resp ← lift (port.jobs b)
    pure (map to_queue_job resp.jobs)

  unfoldable pub cancel_job : Text → Text → Q S (Unit {0})
  cancel_job name id = do
    headers ← auth_headers port
    b ← request delete (job_path name id) no_body headers
    pure tt

  unfoldable pub retry_job : Text → Text → Q S (Unit {0})
  retry_job name id = do
    headers ← auth_headers port
    b ← request post (job_path name id ++ codes "/retry") empty_object headers
    pure tt

  unfoldable pub get_config : Text → Q S QueueConfig
  get_config name = do
    headers ← auth_headers port
    b ← request get (queue_path name) no_body headers
    w ← lift (port.config b)
    pure (to_queue_config w)

  unfoldable pub update_config : Text → UpdateQueueConfigOptions → Q S QueueConfig
  update_config name opts = do
    headers ← auth_headers port
    b ←
        request put (queue_path name)
          (update_body (record {
            execution_profile = opts.execution_profile;
            visibility_timeout = opts.visibility_timeout;
            max_attempts = opts.max_attempts;
            webhook_url = opts.webhook_url;
            webhook_secret = opts.webhook_secret;
          }))
          headers
    w ← lift (port.config b)
    pure (to_queue_config w)

  unfoldable pub register_worker : RegisterWorkerOptions → Q S WorkerRegistration
  register_worker opts = do
    headers ← auth_headers port
    b ←
        request post (codes "/workers/register")
          (register_body (record { name = opts.name; queues = opts.queues })) headers
    w ← lift (port.worker b)
    pure (to_worker_registration w)

  unfoldable pub heartbeat : Text → Q S WorkerRegistration
  heartbeat worker_id = do
    headers ← auth_headers port
    b ←
        request post (codes "/workers/heartbeat")
          (heartbeat_body (record { worker_id = worker_id })) headers
    w ← lift (port.worker b)
    pure (to_worker_registration w)

  unfoldable pub pull : Text → PullJobsOptions → Q S (List QueueJob)
  pull name opts = do
    headers ← auth_headers port
    b ←
        request post (queue_path name ++ codes "/pull")
          (pull_body (record {
            worker_id = or_default opts.worker_id port.worker_id;
            batch_size = or_one opts.batch_size;
            wait = or_default opts.wait (codes "20s");
          }))
          headers
    resp ← lift (port.jobs b)
    pure (map to_queue_job resp.jobs)

  unfoldable pub ack : Text → Text → AckJobOptions → Q S (Unit {0})
  ack name id opts = do
    headers ← auth_headers port
    result ← lift (marshal_option port opts.result)
    b ←
        request post (job_path name id ++ codes "/ack")
          (ack_body (record { worker_id = opts.worker_id; result = result })) headers
    pure tt

  unfoldable pub nack : Text → Text → NackJobOptions → Q S (Unit {0})
  nack name id opts = do
    headers ← auth_headers port
    b ←
        request post (job_path name id ++ codes "/nack")
          (nack_body (record {
            worker_id = opts.worker_id;
            reason = or_default opts.reason (codes "nacked");
            retry_delay = opts.retry_delay;
          }))
          headers
    pure tt
