-- ===== src/Rest/Published.antt =====
-- What `Publish` and `PublishBatch` of channel/rest.go put on the wire, through the auth manager
-- (auth/manager.go) and the HTTP client (transport/httpclient/client.go).
use qpub_go.Prelude.{ap, none, some, List, [], ◌∷◌, ◌++◌, ◌≡◌, ◌⊎◌, inl, inr, refl, sym}
use qpub_go.Prelude.Text.{Text, codes}
use qpub_go.Prelude.Dict.{Dict, lookup}
use qpub_go.Protocol.Json.{Json}
use qpub_go.Protocol.Messages.{DataMessagePayload}
use qpub_go.Channel.Types.{PublishOptions}
use qpub_go.Options.Itoa.{build_rest_base_url}
use qpub_go.Jwt.Base64.{std_encode}
use qpub_go.Auth.Types
use qpub_go.Auth.Types.{Env, Manager}
use qpub_go.Auth.Tokens.{get_auth_headers}
use qpub_go.Transport.{Method, Request, Library}
use qpub_go.Http
use qpub_go.Http.{Error, Result, Reply, World, value, error, panic, with_error, of_sum, of_option}
use qpub_go.Rest.{publish, publish_batch}
use qpub_go.Rest.Carried.{Authorized, Carried, Granted, posted, state_kept, headers-Granted}
use qpub_go.Rest.Sent.{reply_to, IsFailure, Sent, Asks, below-Sent, Sent-implies, port, post_below}
use qpub_go.Rest.Wiring.{Codecs, wired, told}

module _ {S : Type 0} (lib : Library S) (codecs : Codecs) (env : Env S) where
  -- The caller gets an error without a body, or a panic.
  abbrev pub IsRefused : Result Reply → Type 0
  IsRefused r = (r ≡ panic) ⊎ ((e : Error) × (r ≡ value (record { body = none; error = some e })))

  -- Nothing was sent, or one POST of JSON that is wanted, with the credentials.
  abbrev pub Outcome :
      (Request → Type 0) → World (Manager S) → Result Reply × World (Manager S) → Type 0
  Outcome IsWanted w out =
      (IsRefused out.0 × (out.1.state.state ≡ w.state.state))
      ⊎ ((r : Request) × (r.method ≡ Method.post)
          × IsWanted r
          × Authorized lib env w.state r.headers
          × (lookup (codes "Content-Type") r.headers ≡ some (codes "application/json"))
          × (out.0 ≡ value (reply_to lib codecs env (lib.do_request r w.state.state).0))
          × (out.1.state.state ≡ (lib.do_request r w.state.state).1))

  abbrev replied : Result Reply × World (Manager S) → Result Reply × World (Manager S)
  replied out = (with_error out.0, out.1)

  failure-IsRefused : (r : Result Reply) → IsFailure lib codecs env r → IsRefused (with_error r)
  failure-IsRefused r (inl e) = inl (ap with_error e)
  failure-IsRefused r (inr h) = inr h

  carried_on :
      (IsWanted : Request → Type 0) (w : World (Manager S)) (hs : Dict Text)
      (out : Result Reply × World (Manager S))
      → Carried lib env w.state (posted lib env hs)
      → Sent lib codecs env IsWanted w.state.state hs out
      → Outcome IsWanted w (replied out)
  carried_on IsWanted w hs out c (inl (failed, same_state)) =
      inl (failure-IsRefused out.0 failed, same_state)
  carried_on IsWanted w hs out c (inr (r, p, u, e, a, b)) =
      inr (r, p, u, rw e c.0, rw e c.1, ap with_error a, b)

  with_headers :
      (IsWanted : Request → Type 0) (w : World (Manager S))
      (k : Dict Text → Http.Q (Manager S) Reply) (x : Types.Error ⊎ Dict Text) (m : Manager S)
      → m.state ≡ w.state.state
      → Granted lib env w.state x
      → ((hs : Dict Text) (w' : World (Manager S))
          → w'.state.state ≡ w.state.state
          → Sent lib codecs env IsWanted w'.state.state hs (k hs w'))
      → Outcome IsWanted w (
          replied (
            Http.and_then
              (of_sum (told (x, m)).0, record { state = (told (x, m)).1; sent = w.sent })
              k))
  with_headers IsWanted w k (inl e) m h c next = inl (inr (_, refl), h)
  with_headers IsWanted w k (inr hs) m h c next =
      let w' : World (Manager S) = record { state = m; sent = w.sent } in
      carried_on IsWanted w hs (k hs w') c (rw (sym h) (next hs w' h))

  -- A call that asks for the headers first, and goes on to a request with them.
  after_headers :
      (worker_id : Text) (IsWanted : Request → Type 0) (w : World (Manager S))
      (k : Dict Text → Http.Q (Manager S) Reply)
      → ((hs : Dict Text) (w' : World (Manager S))
          → w'.state.state ≡ w.state.state
          → Sent lib codecs env IsWanted w'.state.state hs (k hs w'))
      → Outcome IsWanted w
          (replied (Http.and_then (Http.auth_headers (port lib codecs env worker_id) w) k))
  unfolding wired
  after_headers worker_id IsWanted w k next =
      let g = get_auth_headers env std_encode w.state in
      with_headers IsWanted w k g.0 g.1 (state_kept lib env w.state)
        (headers-Granted lib env w.state g.0 refl) next

  abbrev pub batch : List Text → List DataMessagePayload → Http.Body
  batch channels messages = Http.publish_body (record { channels = channels; messages = messages })

  abbrev pub single : PublishOptions → Text → Http.Body
  single opts bytes =
      batch [] (record { alias = opts.alias; event = opts.event; payload = bytes } ∷ [])

  -- The same for a batch, as `publish-Outcome` states below for one message.
  publish_batch-Outcome :
      (worker_id : Text) (channels : List Text) (messages : List DataMessagePayload)
      (w : World (Manager S))
      → Outcome
          (Asks lib codecs env (codes "/channels/messages") (batch channels messages))
          w
          (publish_batch (port lib codecs env worker_id) channels messages w)
  unfolding publish_batch wired
  publish_batch-Outcome worker_id channels messages w =
      let path = codes "/channels/messages" in
      let body = batch channels messages in
      after_headers worker_id (Asks lib codecs env path body) w _ (λ hs w' e.
        below-Sent lib codecs env worker_id path body hs w' (build_rest_base_url env.opts) refl)

  -- The request that publishes one message: its payload has JSON.
  abbrev pub AsksSingle : Text → Json → PublishOptions → Request → Type 0
  AsksSingle path payload opts r =
      (bytes : Text) × (codecs.marshal payload ≡ inr bytes)
      × Asks lib codecs env path (single opts bytes) r

  marshalled :
      (worker_id path : Text) (payload : Json) (opts : PublishOptions) (hs : Dict Text)
      (w : World (Manager S)) (json : Http.Error ⊎ Text)
      → codecs.marshal payload ≡ json
      → Sent lib codecs env (AsksSingle path payload opts) w.state.state hs (
          Http.and_then
            (of_sum json, w)
            (λ bytes. post_below lib codecs env worker_id path (single opts bytes) hs))
  unfolding wired
  marshalled worker_id path payload opts hs w (inl e) h = inl (inr (e, refl), refl)
  marshalled worker_id path payload opts hs w (inr bytes) h =
      let body = single opts bytes in
      Sent-implies lib codecs env (Asks lib codecs env path body) (AsksSingle path payload opts)
        w.state.state hs (post_below lib codecs env worker_id path body hs w) (λ r a. (bytes, h, a))
        (below-Sent lib codecs env worker_id path body hs w (build_rest_base_url env.opts) refl)

  -- `Publish` of a REST client, over any server: it sends nothing, and gives an error without a body or the
  -- panic of a base URL that cannot be written; or it sends one POST of the message's JSON, to its path
  -- below the base URL, with the client's token, which has not expired, or with the API key and the alias,
  -- and returns what came of it: the transport's error, the error of reading the body or of closing it, or
  -- the whole body, together with an error for a status from 400 on.
  pub publish-Outcome :
      (worker_id name : Text) (payload : Json) (opts : PublishOptions) (w : World (Manager S))
      → Outcome
          (AsksSingle (codes "/channel/" ++ name ++ codes "/messages") payload opts)
          w
          (publish (port lib codecs env worker_id) name payload opts w)
  unfolding publish wired
  publish-Outcome worker_id name payload opts w =
      let path = codes "/channel/" ++ name ++ codes "/messages" in
      after_headers worker_id (AsksSingle path payload opts) w _
        (λ hs w' e. marshalled worker_id path payload opts hs w' (codecs.marshal payload) refl)
