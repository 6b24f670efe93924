-- ===== src/Queue/Settling.antt =====
-- What becomes of the jobs that a worker pulls (queue/manager.go).
use qpub_go.Prelude.{Option, none, some, List, [], ◌∷◌, ◌++◌, ◌≡◌, ◌⊎◌, inl, inr, refl, arith}
use qpub_go.Prelude.Text.{Text, codes}
use qpub_go.Prelude.Dict.{Dict}
use qpub_go.Options.Itoa.{build_rest_base_url}
use qpub_go.Protocol.Json.{Json}
use qpub_go.Protocol.Queue.{QueueJob}
use qpub_go.Http.{
  Port, World, Request, Result, value, Error, post, nack_body, ack_body, send, pure, ◌>>=◌,
}
use qpub_go.Queue.Requests.{job_path, or_default, ack, nack}
use qpub_go.Queue.Worker.{Handler, ignore, settle, process_job, process_jobs}

abbrev verb : Error ⊎ Option Json → Text
verb (inl e) = codes "/nack"
verb (inr result) = codes "/ack"

module _ {S : Type 0} (port : Port S) (name : Text) where
  -- The request answers for the job: it acknowledges the job if the handler succeeded, and gives it
  -- back if that failed.
  abbrev Settles : Text → QueueJob → Error ⊎ Option Json → Request → Type 0
  Settles base job outcome r =
      (r.method ≡ post) × (r.url ≡ base ++ (job_path port name job.id ++ verb outcome))

  -- From one list of requests sent to a later one, each job is answered for once, in order, by what
  -- the handler made of it in some state.
  pub data Settled (base : Text) (handler : Handler S)
      : List QueueJob → List Request → List Request → Type 0 where
    none_left : {sent : List Request} → Settled base handler [] sent sent
    settled :
        {job : QueueJob} {jobs : List QueueJob} {r : Request} {sent sent' : List Request} (s : S)
        → Settles base job (handler job s).0 r
        → Settled base handler jobs (r ∷ sent) sent'
        → Settled base handler (job ∷ jobs) sent sent'

  -- One request is sent for a job, whatever its answer.
  abbrev Answered :
      Text → QueueJob → Error ⊎ Option Json → World S → Result (Unit {0}) × World S → Type 0
  Answered base job outcome w out =
      (out.0 ≡ value tt) × ((r : Request) × Settles base job outcome r × (out.1.sent ≡ r ∷ w.sent))

  send-Answered :
      (base : Text) (job : QueueJob) (outcome : Error ⊎ Option Json) (r : Request) (s : S)
      (w : World S)
      → Settles base job outcome r
      → Answered base job outcome w (ignore (send port r >>= λ b. pure tt) (record w { state = s }))
  send-Answered base job outcome r s w settles = (ground arith, (r, settles, ground arith))

  module _ (base : Text) (base_lem : build_rest_base_url port.opts ≡ some base)
      (authorized : (s : S) → (hs : Dict Text) × ((port.get_auth_headers s).0 ≡ inr hs))
      (marshalled : (j : Json) → (t : Text) × (port.marshal j ≡ inr t)) where
    settle-Answered :
        (worker_id : Text) (handler : Handler S) (job : QueueJob) (outcome : Error ⊎ Option Json)
        (w : World S)
        → Answered base job outcome w (settle port handler name worker_id job outcome w)
    unfolding ack nack
    settle-Answered worker_id handler job (inl e) w =
        let (hs, known) = authorized w.state in
        rw (known, base_lem)
          (send-Answered base job (inl e)
            (record {
              method = post;
              url = base ++ (job_path port name job.id ++ codes "/nack");
              body = nack_body (record {
                worker_id = worker_id;
                reason = or_default e (codes "nacked");
                retry_delay = [];
              });
              headers = hs;
            })
            (port.get_auth_headers w.state).1 w (refl, refl))
    settle-Answered worker_id handler job (inr none) w =
        let (hs, known) = authorized w.state in
        rw (known, base_lem)
          (send-Answered base job (inr none)
            (record {
              method = post;
              url = base ++ (job_path port name job.id ++ codes "/ack");
              body = ack_body (record { worker_id = worker_id; result = [] });
              headers = hs;
            })
            (port.get_auth_headers w.state).1 w (refl, refl))
    settle-Answered worker_id handler job (inr (some j)) w =
        let (hs, known) = authorized w.state in
        let (t, text) = marshalled j in
        rw (known, text, base_lem)
          (send-Answered base job (inr (some j))
            (record {
              method = post;
              url = base ++ (job_path port name job.id ++ codes "/ack");
              body = ack_body (record { worker_id = worker_id; result = t });
              headers = hs;
            })
            (port.get_auth_headers w.state).1 w (refl, refl))

    process_job-Answered :
        (worker_id : Text) (handler : Handler S) (job : QueueJob) (w : World S)
        → Answered base job
            (handler job w.state).0
            w
            (process_job port handler name worker_id job w)
    unfolding process_job
    process_job-Answered worker_id handler job w =
        settle-Answered worker_id handler job (handler job w.state).0
          (record w { state = (handler job w.state).1 })

    -- If the base URL can be written, the auth manager has headers, and results can be encoded, then
    -- the jobs of a pull are each answered for by one request, in their order: an acknowledgement of a
    -- job that the handler dealt with, and the opposite for one on which it failed. This holds
    -- whatever the server answers, and the worker goes on.
    pub process_jobs-Settled :
        (worker_id : Text) (handler : Handler S) (jobs : List QueueJob) (w : World S)
        → ((process_jobs port handler name worker_id jobs w).0 ≡ value tt)
          × Settled base handler jobs w.sent
              (process_jobs port handler name worker_id jobs w).1.sent
    unfolding process_jobs
    process_jobs-Settled worker_id handler [] w = (refl, none_left)
    process_jobs-Settled worker_id handler (job ∷ jobs) w =
        let (done, (r, settles, sent)) = process_job-Answered worker_id handler job w in
        let w' = (process_job port handler name worker_id job w).1 in
        let (ih_done, ih) = process_jobs-Settled worker_id handler jobs w' in
        rw (done) (ih_done, settled w.state settles (rw sent at ih))
