-- ===== src/Protocol/Queue.antt =====
-- protocol/queue.go: the types of the queue's public interface, and how the wire types become these.
use qpub_go.Prelude.{ℤ, Option, List}
use qpub_go.Prelude.Text.{Text}
use qpub_go.Prelude.Dict.{Dict}
use qpub_go.Protocol.Json.{Json}
use qpub_go.Protocol.QueueWire.{
  EnqueueJobResponseWire, QueueJobWire, QueueConfigWire, WorkerResponseWire,
}

pub record QueueJob : Type 0 where
  pub id : Text
  pub queue_name : Text
  pub status : Text
  pub payload : Text
  pub result : Text
  pub idempotency_key : Text
  pub attempt : Option ℤ
  pub max_attempts : Option ℤ
  pub schedule_at : Text
  pub started_at : Text
  pub completed_at : Text
  pub worker_id : Text
  pub error_message : Text
  pub metadata : Option (Dict Json)
  pub created_at : Text
  pub updated_at : Text

pub record EnqueueOptions : Type 0 where
  pub delay : Text
  pub idempotency_key : Text
  pub schedule_at : Option Text
  pub metadata : Option (Dict Json)

pub record EnqueueResult : Type 0 where
  pub job_id : Text
  pub status : Text

pub record ListJobsOptions : Type 0 where
  pub status : Text

pub record PullJobsOptions : Type 0 where
  pub worker_id : Text
  pub batch_size : ℤ
  pub wait : Text

pub record AckJobOptions : Type 0 where
  pub worker_id : Text
  pub result : Option Json

pub record NackJobOptions : Type 0 where
  pub worker_id : Text
  pub reason : Text
  pub retry_delay : Text

pub record QueueConfig : Type 0 where
  pub name : Text
  pub execution_profile : Text
  pub visibility_timeout : Text
  pub max_attempts : Option ℤ
  pub retention : Text
  pub max_payload_bytes : Option ℤ
  pub webhook_url : Text
  pub webhook_secret : Text
  pub created_at : Text
  pub updated_at : Text

pub record UpdateQueueConfigOptions : Type 0 where
  pub execution_profile : Text
  pub visibility_timeout : Text
  pub max_attempts : Option ℤ
  pub webhook_url : Text
  pub webhook_secret : Text

pub record RegisterWorkerOptions : Type 0 where
  pub name : Text
  pub queues : List Text

pub record WorkerRegistration : Type 0 where
  pub id : Text
  pub name : Text
  pub queues : List Text
  pub last_seen_at : Text
  pub created_at : Text
  pub updated_at : Text

pub record RunWorkerOptions : Type 0 where
  pub worker_id : Text
  pub batch_size : ℤ
  pub poll_interval_ms : ℤ
  pub wait : Text
  pub heartbeat_interval_ms : ℤ

unfoldable pub to_queue_job : QueueJobWire → QueueJob
to_queue_job w = record {
  id = w.id;
  queue_name = w.queue_name;
  status = w.status;
  payload = w.payload;
  result = w.result;
  idempotency_key = w.idempotency_key;
  attempt = w.attempt;
  max_attempts = w.max_attempts;
  schedule_at = w.schedule_at;
  started_at = w.started_at;
  completed_at = w.completed_at;
  worker_id = w.worker_id;
  error_message = w.error_message;
  metadata = w.metadata;
  created_at = w.created_at;
  updated_at = w.updated_at;
}

unfoldable pub to_enqueue_result : EnqueueJobResponseWire → EnqueueResult
to_enqueue_result w = record { job_id = w.job_id; status = w.status }

unfoldable pub to_queue_config : QueueConfigWire → QueueConfig
to_queue_config w = record {
  name = w.name;
  execution_profile = w.execution_profile;
  visibility_timeout = w.visibility_timeout;
  max_attempts = w.max_attempts;
  retention = w.retention;
  max_payload_bytes = w.max_payload_bytes;
  webhook_url = w.webhook_url;
  webhook_secret = w.webhook_secret;
  created_at = w.created_at;
  updated_at = w.updated_at;
}

unfoldable pub to_worker_registration : WorkerResponseWire → WorkerRegistration
to_worker_registration w = record {
  id = w.id;
  name = w.name;
  queues = w.queues;
  last_seen_at = w.last_seen_at;
  created_at = w.created_at;
  updated_at = w.updated_at;
}
