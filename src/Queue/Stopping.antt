-- ===== src/Queue/Stopping.antt =====
-- What becomes of a worker that is stopped twice (queue/manager.go).
use qpub_go.Prelude.{true, some, ◌≡◌, arith}
use qpub_go.Queue.Worker.{
  Worker, closed, stopped, close_of_closed, start, finish, stop_worker, reset,
}

-- A second `StopWorker`, or a `Reset`, that comes before `RunWorker` has seen the first one closes
-- the channel again, which ends the program.
stop_twice :
    (w v : Worker)
    → start w ≡ some v
    → (u : Worker) × (stop_worker v ≡ stopped u)
      × (stop_worker u ≡ close_of_closed)
      × (reset u ≡ close_of_closed)
      × (stop_worker (finish u) ≡ stopped (finish u))
unfolding start stop_worker reset finish
stop_twice w v h = (
  record { running = true; stop_ch = closed },
  ground arith,
  ground arith,
  ground arith,
  ground arith,
)
