-- ===== src/Queue/Worker.antt =====
-- `RunWorker`, `StopWorker` and `Reset` of queue/manager.go.
use qpub_go.Prelude.{
  ℕ, ◌-◌, ℤ, pos, Bool, true, false, not, Option, none, some, List, [], ◌∷◌, if◌then◌else◌, is_zero,
  ◌⊎◌, inl, inr,
}
use qpub_go.Prelude.Text.{Text, codes}
use qpub_go.Prelude.Duration.{milliseconds, exceeds}
use qpub_go.Protocol.Json.{Json}
use qpub_go.Protocol.Queue.{QueueJob, PullJobsOptions, RunWorkerOptions}
use qpub_go.Http.{Port, Q, World, Result, value, error, panic, pure, ◌>>=◌, Error}
use qpub_go.Queue.Requests.{or_default, or_one, heartbeat, pull, ack, nack}

-- The fields `running` and `stopCh` of `Manager`: no channel, an open one, or a closed one.
pub data StopChannel : Type 0 where
  no_channel opened closed : StopChannel

pub record Worker : Type 0 where
  pub running : Bool
  pub stop_ch : StopChannel

abbrev pub new_worker : Worker
new_worker = record { running = false; stop_ch = no_channel }

-- The start of `RunWorker`; `none` is the error "worker already running".
unfoldable pub start : Worker → Option Worker
start w = if w.running then none else some (record { running = true; stop_ch = opened })

-- The deferred end of `RunWorker`.
unfoldable pub finish : Worker → Worker
finish w = record w { running = false }

-- Go's panic "close of closed channel" ends the program.
pub data Stop : Type 0 where
  stopped : Worker → Stop
  close_of_closed : Stop

abbrev close : Worker → StopChannel → Stop
close w no_channel = stopped w
close w opened = stopped (record w { stop_ch = closed })
close w closed = close_of_closed

unfoldable pub stop_worker : Worker → Stop
stop_worker w = if w.running then close w w.stop_ch else stopped w

unfoldable pub reset : Worker → Stop
reset w = stop_worker w

-- What a `select` of the loop finds.
pub data Poll : Type 0 where
  goes_on context_done stop_seen : Poll

-- A round of the loop: what its two selects find, and the time before and after a heartbeat.
pub record Round : Type 0 where
  pub head : Poll
  pub now : ℕ
  pub after : ℕ
  pub tail : Poll

-- How the loop ends, if the rounds given reach its end.
pub data End : Type 0 where
  ended_by_context ended_by_stop still_running : End

abbrev default_ms : ℤ → ℤ → ℤ
default_ms d fallback = if is_zero d then fallback else d

abbrev heartbeat_interval : RunWorkerOptions → ℤ
heartbeat_interval opts = default_ms (milliseconds opts.heartbeat_interval_ms) (pos 20000000000)

-- The zero time is more than any interval ago.
abbrev is_due : ℤ → ℕ → Option ℕ → Bool
is_due interval now none = true
is_due interval now (some last) = not (exceeds interval (pos (now - last)))

abbrev pub Handler : Type 0 → Type 0
Handler S = QueueJob → S → (Error ⊎ Option Json) × S

module _ {S : Type 0} where
  abbrev pub ignore_error : {A : Type 0} → Result A × World S → Result (Unit {0}) × World S
  ignore_error (value a, w) = (value tt, w)
  ignore_error (error e, w) = (value tt, w)
  ignore_error (panic, w) = (panic, w)

  abbrev pub ignore : {A : Type 0} → Q S A → Q S (Unit {0})
  ignore m w = ignore_error (m w)

  abbrev pub call : Handler S → QueueJob → Q S (Error ⊎ Option Json)
  call handler job w = let r = handler job w.state in (value r.0, record w { state = r.1 })

  module _ (port : Port S) (handler : Handler S) (name worker_id : Text) where
    abbrev pub settle : QueueJob → Error ⊎ Option Json → Q S (Unit {0})
    settle job (inl e) =
        ignore
          (nack port name job.id (record { worker_id = worker_id; reason = e; retry_delay = [] }))
    settle job (inr result) =
        ignore (ack port name job.id (record { worker_id = worker_id; result = result }))

    unfoldable pub process_job : QueueJob → Q S (Unit {0})
    process_job job = do outcome ← call handler job; settle job outcome

    unfoldable pub process_jobs : List QueueJob → Q S (Unit {0})
    process_jobs [] = pure tt
    process_jobs (job ∷ jobs) = do u ← process_job job; process_jobs jobs

    -- A pull that fails is logged.
    abbrev pub process_pulled : Result (List QueueJob) × World S → Result (Unit {0}) × World S
    process_pulled (value jobs, w) = process_jobs jobs w
    process_pulled (error e, w) = (value tt, w)
    process_pulled (panic, w) = (panic, w)

    unfoldable pub run_rounds : ℤ → PullJobsOptions → Option ℕ → List Round → Q S End
    run_rounds interval opts last [] = pure still_running
    run_rounds interval opts last (r ∷ rounds) = elim r.head [
      | context_done ↦ pure ended_by_context
      | stop_seen ↦ pure ended_by_stop
      | goes_on ↦ do
        let due = is_due interval r.now last
        u ← if due then ignore (heartbeat port worker_id) else pure tt
        v ← λ w. process_pulled (pull port name opts w)
        elim r.tail [
          | context_done ↦ pure ended_by_context
          | stop_seen ↦ pure ended_by_stop
          | goes_on ↦ run_rounds interval opts (if due then some r.after else last) rounds
        ]
    ]

-- `RunWorker` after its start.
unfoldable pub run_worker :
    {S : Type 0} → Port S → Handler S → Text → RunWorkerOptions → List Round → Q S End
run_worker port handler name opts rounds =
    let worker_id = or_default opts.worker_id port.worker_id in
    run_rounds port handler name worker_id (heartbeat_interval opts)
      (record {
        worker_id = worker_id;
        batch_size = or_one opts.batch_size;
        wait = or_default opts.wait (codes "20s");
      })
      none rounds
