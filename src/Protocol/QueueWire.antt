-- ===== src/Protocol/QueueWire.antt =====
-- protocol/queue.go: the wire types of the queue API. A `json.RawMessage` is its bytes, a missing
-- pointer, map or interface value is `none`.
use qpub_go.Prelude.{ℤ, Option, List}
use qpub_go.Prelude.Text.{Text}
use qpub_go.Prelude.Dict.{Dict}
use qpub_go.Protocol.Json.{Json}

pub record EnqueueJobRequestWire : Type 0 where
  pub payload : Text
  pub idempotency_key : Text
  pub delay : Text
  pub schedule_at : Option Text
  pub metadata : Option (Dict Json)

pub record EnqueueJobResponseWire : Type 0 where
  pub job_id : Text
  pub status : Text

pub record QueueJobWire : Type 0 where
  pub id : Text
  pub queue_name : Text
  pub status : Text
  pub payload : Text
  pub result : Text
  pub idempotency_key : Text
  pub attempt : Option ℤ
  pub max_attempts : Option ℤ
  pub schedule_at : Text
  pub started_at : Text
  pub completed_at : Text
  pub worker_id : Text
  pub error_message : Text
  pub metadata : Option (Dict Json)
  pub created_at : Text
  pub updated_at : Text

pub record JobsResponseWire : Type 0 where
  pub jobs : List QueueJobWire

pub record PullJobsRequestWire : Type 0 where
  pub worker_id : Text
  pub batch_size : ℤ
  pub wait : Text

pub record AckJobRequestWire : Type 0 where
  pub worker_id : Text
  pub result : Text

pub record NackJobRequestWire : Type 0 where
  pub worker_id : Text
  pub reason : Text
  pub retry_delay : Text

pub record QueueConfigWire : Type 0 where
  pub name : Text
  pub execution_profile : Text
  pub visibility_timeout : Text
  pub max_attempts : Option ℤ
  pub retention : Text
  pub max_payload_bytes : Option ℤ
  pub webhook_url : Text
  pub webhook_secret : Text
  pub created_at : Text
  pub updated_at : Text

pub record UpdateQueueConfigRequestWire : Type 0 where
  pub execution_profile : Text
  pub visibility_timeout : Text
  pub max_attempts : Option ℤ
  pub webhook_url : Text
  pub webhook_secret : Text

pub record RegisterWorkerRequestWire : Type 0 where
  pub name : Text
  pub queues : List Text

pub record WorkerResponseWire : Type 0 where
  pub id : Text
  pub name : Text
  pub queues : List Text
  pub last_seen_at : Text
  pub created_at : Text
  pub updated_at : Text

pub record HeartbeatRequestWire : Type 0 where
  pub worker_id : Text
