-- ===== src/Rest/Sent.antt =====
-- One POST through the HTTP client of transport/httpclient/client.go, as channel/rest.go sends its
-- requests, and what the caller is told.
use qpub_go.Prelude.{
  ℕ, ap, Option, none, some, List, ◌∷◌, ◌++◌, ◌≡◌, ◌⊎◌, inl, inr, refl, leb, if◌then◌else◌,
}
use qpub_go.Prelude.Text.{Text}
use qpub_go.Prelude.Dict.{Dict}
use qpub_go.Options.Itoa.{build_rest_base_url}
use qpub_go.Auth.Types.{Env, Manager}
use qpub_go.Transport.{
  Error, Method, Request, Response, Library, read_and_close, do_json, post_json, http_error,
  exchange, finished, received, Answer,
}
use qpub_go.Http
use qpub_go.Http.{Result, Reply, World, value, error, panic, with_error, of_option}
use qpub_go.Rest.Wiring.{Codecs, wired, call_client}
use qpub_go.Rest.Carried.{posted}

module _ {S : Type 0} (lib : Library S) (codecs : Codecs) (env : Env S) where
  -- What the caller is told of a response: the body, with an error from 400 on, or the error of reading or
  -- of closing it.
  abbrev pub reply_of : ℕ → Error ⊎ Text → Option Error → Reply
  reply_of status (inl e) close = record { body = none; error = some e }
  reply_of status (inr b) (some e) = record { body = none; error = some e }
  reply_of status (inr b) none = record {
    body = some b;
    error = if leb 400 status then some (http_error status b) else none;
  }

  abbrev pub reply_to : Error ⊎ Response → Reply
  reply_to (inl e) = record { body = none; error = some e }
  reply_to (inr r) = reply_of r.status r.read r.close

  -- The caller gets an error without a body, or a panic.
  abbrev pub IsFailure : Result Reply → Type 0
  IsFailure r =
      (r ≡ panic) ⊎ ((e : Error) × (with_error r ≡ value (record { body = none; error = some e })))

  abbrev pub port : Text → Http.Port (Manager S)
  port worker_id = wired lib codecs env worker_id

  -- The JSON of a value that is posted.
  abbrev pub Encodes : Http.Body → Option Text → Type 0
  Encodes body sent = (json : Text) × (codecs.marshal_body body ≡ inr json) × (sent ≡ some json)

  -- Nothing was sent, and the call failed, or one POST of the request that is wanted.
  abbrev pub Sent : (Request → Type 0) → S → Dict Text → Result Reply × World (Manager S) → Type 0
  Sent IsWanted s hs out =
      (IsFailure out.0 × (out.1.state.state ≡ s))
      ⊎ ((r : Request) × (r.method ≡ Method.post)
          × IsWanted r
          × (r.headers ≡ posted lib env hs)
          × (out.0 ≡ value (reply_to (lib.do_request r s).0))
          × (out.1.state.state ≡ (lib.do_request r s).1))

  pub Sent-implies :
      (P Q : Request → Type 0) (s : S) (hs : Dict Text) (out : Result Reply × World (Manager S))
      → ((r : Request) → P r → Q r)
      → Sent P s hs out
      → Sent Q s hs out
  Sent-implies P Q s hs out f (inl none_sent) = inl none_sent
  Sent-implies P Q s hs out f (inr (r, p, y, h, a, b)) = inr (r, p, f r y, h, a, b)

  abbrev reply : Answer → Reply
  reply a = record { body = a.body; error = a.error }

  reply-finished :
      (status : ℕ) (read : Error ⊎ Text) (close : Option Error)
      → let r : Response = record { status = status; read = read; close = close } in
        reply (finished status (read_and_close r)) ≡ reply_of status read close
  unfolding read_and_close
  reply-finished status (inl e) close = refl
  reply-finished status (inr b) none = refl
  reply-finished status (inr b) (some e) = refl

  reply-received : (x : (Error ⊎ Response) × S) → reply (received x).0 ≡ reply_to x.0
  reply-received (inl e, s) = refl
  reply-received (inr r, s) = reply-finished r.status r.read r.close

  received_state : (x : (Error ⊎ Response) × S) → (received x).1 ≡ x.1
  received_state (inl e, s) = refl
  received_state (inr r, s) = refl

  abbrev told_of :
      World (Manager S) → List Http.Request → Answer × S → Result Reply × World (Manager S)
  told_of w sent a =
      (value (reply a.0), record { state = record w.state { state = a.1 }; sent = sent })

  exchange-Sent :
      (refusal : Option Error) (r : Request) (hs : Dict Text) (w : World (Manager S))
      (sent : List Http.Request) (IsWanted : Request → Type 0)
      → r.method ≡ Method.post
      → r.headers ≡ posted lib env hs
      → IsWanted r
      → Sent IsWanted w.state.state hs (told_of w sent (exchange lib refusal r w.state.state))
  exchange-Sent (some e) r hs w sent IsWanted p h y = inl (inr (e, refl), refl)
  exchange-Sent none r hs w sent IsWanted p h y = inr (
    r,
    p,
    y,
    h,
    ap value (reply-received (lib.do_request r w.state.state)),
    received_state (lib.do_request r w.state.state),
  )

  -- The request to a path below the base URL, with this body.
  abbrev pub Asks : Text → Http.Body → Request → Type 0
  Asks path body r =
      ((base : Text) × (build_rest_base_url env.opts ≡ some base) × (r.url ≡ base ++ path))
      × Encodes body r.body

  marshalled-Sent :
      (base path : Text) (body : Http.Body) (json : Error ⊎ Text) (hs : Dict Text)
      (w : World (Manager S)) (sent : List Http.Request)
      → build_rest_base_url env.opts ≡ some base
      → codecs.marshal_body body ≡ json
      → Sent
          (Asks path body)
          w.state.state
          hs
          (told_of w sent (do_json lib Method.post (base ++ path) (some json) hs w.state.state))
  unfolding do_json
  marshalled-Sent base path body (inl e) hs w sent h g = inl (inr (e, refl), refl)
  marshalled-Sent base path body (inr json) hs w sent h g =
      exchange-Sent (lib.refuses Method.post (base ++ path)) _ hs w sent (Asks path body) refl refl
        ((base, h, refl), (json, g, refl))

  asked-Sent :
      (worker_id base path : Text) (body : Http.Body) (hs : Dict Text) (w : World (Manager S))
      → build_rest_base_url env.opts ≡ some base
      → Sent (Asks path body) w.state.state hs (
          Http.exchange
            (port worker_id)
            (record { method = Http.post; url = base ++ path; body = body; headers = hs })
            w)
  unfolding wired call_client post_json
  asked-Sent worker_id base path body hs w h =
      marshalled-Sent base path body (codecs.marshal_body body) hs w
        (record { method = Http.post; url = base ++ path; body = body; headers = hs } ∷ w.sent) h
        refl

  abbrev pub post_below : Text → Text → Http.Body → Dict Text → Http.Q (Manager S) Reply
  post_below worker_id path body hs w = Http.and_then (Http.base_url (port worker_id) w) (λ base.
      Http.exchange (port worker_id)
        (record { method = Http.post; url = base ++ path; body = body; headers = hs }))

  -- The request to a path, after the headers are known.
  pub below-Sent :
      (worker_id path : Text) (body : Http.Body) (hs : Dict Text) (w : World (Manager S))
      (url : Option Text)
      → build_rest_base_url env.opts ≡ url
      → Sent (Asks path body) w.state.state hs (
          Http.and_then
            (of_option url, w)
            (λ base.
              Http.exchange
                (port worker_id)
                (record { method = Http.post; url = base ++ path; body = body; headers = hs })))
  below-Sent worker_id path body hs w none h = inl (inl refl, refl)
  below-Sent worker_id path body hs w (some base) h = asked-Sent worker_id base path body hs w h
