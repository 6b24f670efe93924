-- ===== src/Protocol/Conversions.antt =====
-- What the conversions of protocol/queue.go keep.
use qpub_go.Prelude.{◌≡◌, ap}
use qpub_go.Protocol.QueueWire.{QueueJobWire}
use qpub_go.Protocol.Queue.{QueueJob, to_queue_job}

abbrev of_queue_job : QueueJob → QueueJobWire
of_queue_job w = record {
  id = w.id;
  queue_name = w.queue_name;
  status = w.status;
  payload = w.payload;
  result = w.result;
  idempotency_key = w.idempotency_key;
  attempt = w.attempt;
  max_attempts = w.max_attempts;
  schedule_at = w.schedule_at;
  started_at = w.started_at;
  completed_at = w.completed_at;
  worker_id = w.worker_id;
  error_message = w.error_message;
  metadata = w.metadata;
  created_at = w.created_at;
  updated_at = w.updated_at;
}

-- No field of a job is lost on the way to the caller.
to_queue_job-injective : (w v : QueueJobWire) → to_queue_job w ≡ to_queue_job v → w ≡ v
unfolding to_queue_job
to_queue_job-injective w v h = ap of_queue_job h
