-- ===== src/Queue/Queries.antt =====
-- The query of `ListJobs` in queue/manager.go.
use qpub_go.Prelude.{◌<◌, some, [], ◌∷◌, ◌++◌, ◌≡◌, ◌≢◌, ◌⊎◌, inr, refl, arith, All}
use qpub_go.Prelude.Text.{Text, codes}
use qpub_go.Prelude.Dict.{Dict}
use qpub_go.Prelude.Url.{query_escape, query_unescape, query_unescape-escape}
use qpub_go.Options.Itoa.{build_rest_base_url}
use qpub_go.Http.{Port, World, Request, get, no_body, Error, and_then, send, lift, pure, ◌>>=◌}
use qpub_go.Queue.Requests.{queue_path, list_jobs}

-- What is done with the answer sends nothing more.
sent_once :
    {S X Y : Type 0} (port : Port S) (r : Request) (w : World S) (read : Text → Error ⊎ X)
    (f : X → Y)
    → (and_then (send port r w) (λ b. lift (read b) >>= λ x. pure (f x))).1.sent ≡ r ∷ w.sent
sent_once port r w read f = ground arith

module _ {S : Type 0} (port : Port S) (name : Text) where
  -- If there are a base URL and headers, `ListJobs` with a status sends one `GET` of the queue's
  -- jobs, and the server that decodes the query finds the status as it was given, whatever bytes it
  -- has.
  list_jobs_lem :
      (base : Text) (hs : Dict Text) (status : Text) (w : World S)
      → build_rest_base_url port.opts ≡ some base
      → (port.get_auth_headers w.state).0 ≡ inr hs
      → status ≢ []
      → All (λ c. c < 256) status
      → (r : Request) × (q : Text) × ((list_jobs port name (record { status = status }) w).1.sent
          ≡ r ∷ w.sent)
        × (r.method ≡ get)
        × (r.url ≡ base ++ (queue_path port name ++ codes "/jobs" ++ (codes "?status=" ++ q)))
        × (query_unescape q ≡ status)
  unfolding list_jobs
  list_jobs_lem base hs [] w base_lem known nonempty bytes = absurd (nonempty refl)
  list_jobs_lem base hs (c ∷ s) w base_lem known nonempty bytes =
      let q = query_escape (c ∷ s) in
      let r : Request = record {
        method = get;
        url = base ++ (queue_path port name ++ codes "/jobs" ++ (codes "?status=" ++ q));
        body = no_body;
        headers = hs;
      } in
      (
        r,
        q,
        rw (known, base_lem) (sent_once port r _ port.jobs _),
        refl,
        refl,
        query_unescape-escape (c ∷ s) bytes,
      )
