-- ===== src/Session/Agrees.antt =====
-- The calls of auth/manager.go with the connection's listener and without it.
use qpub_go.Prelude.{
  ℕ, zero, suc, Bool, true, false, Option, none, some, ◌≡◌, ◌⊎◌, inl, inr, refl, arith, Bool-cases,
}
use qpub_go.Prelude.Text.{Text, is_empty}
use qpub_go.Prelude.Duration.{exceeds}
use qpub_go.Options.{AuthResponse, TokenRequest}
use qpub_go.Options.Itoa.{build_rest_base_url}
use qpub_go.Jwt.Token.{DecodeError, Decoded, decode}
use qpub_go.Auth.Types.{Env, Manager, Post}
use qpub_go.Auth.Tokens
use qpub_go.Auth.Tokens.{refresh_time}
use qpub_go.Auth.Authenticate
use qpub_go.Auth.Authenticate.{Outcome, response, failed, panic, is_last, allowed, auth_post}
use qpub_go.Session.{Ran, returns, panics, ◌>>=◌, Client}
use qpub_go.Session.Tokens.{set_token}
use qpub_go.Session.Authenticate.{
  Reply, post, accept, requested, request_answered, request_at, request_token, expects_request,
  authenticated, auth_answered, authenticate_once, retry, exchange_request, retry_once, attempt,
  attempts, authenticate,
}
use qpub_go.Session.Replies.{IsLasting}

module _ {S C : Type 0} (env : Env S) (again : Client S C → Ran (Client S C)) where
  -- A call of the auth manager alone, as one of the client.
  abbrev pub lift : Client S C → Outcome × Manager S → Ran (Reply env again)
  lift c (response r, m) = returns (inr r, record c { auth = m })
  lift c (failed e, m) = returns (inl e, record c { auth = m })
  lift c (panic, m) = panics

  set_token-lift :
      (token : Text) (d : Decoded) (c : Client S C)
      → decode env.codec token ≡ inr d
      → exceeds (refresh_time d.payload.exp) (env.now c.auth.state) ≡ true
      → set_token env again token c
        ≡ returns (record c { auth = Tokens.set_token env token c.auth })
  unfolding set_token Tokens.set_token Tokens.schedule_refresh
  set_token-lift token d c e lasts = rw (e, lasts) refl

  expects_request-lift :
      (resp : AuthResponse) (o : Option TokenRequest) (c : Client S C)
      → expects_request env again resp o c ≡ lift c (Authenticate.expects_request env resp o c.auth)
  expects_request-lift resp none c = refl
  expects_request-lift resp (some request) c = refl

  -- The rest of the loop, too, is the same.
  abbrev Agree : (Client S C → Ran (Reply env again)) → (Manager S → Outcome × Manager S) → Type 0
  Agree next next' = (c : Client S C) → next c ≡ lift c (next' c.auth)

  retry-lift :
      (last : Bool) (next : Client S C → Ran (Reply env again))
      (next' : Manager S → Outcome × Manager S) (c : Client S C) (r : Outcome × Manager S)
      → Agree next next'
      → (lift c r >>= retry env again last next) ≡ lift c (Authenticate.retry env last next' r)
  retry-lift true next next' c (failed e, m) h = refl
  retry-lift false next next' c (failed e, m) h = h (record c { auth = m })
  retry-lift last next next' c (response r, m) h = refl
  retry-lift last next next' c (panic, m) h = refl

  module _ (lasting : IsLasting env) where
    accept-lift :
        (p : Post) (c : Client S C) (b : Text) (resp : AuthResponse) (r : DecodeError ⊎ Decoded)
        → (env.post p c.auth.state).0 ≡ inr b
        → env.unmarshal_response b ≡ inr resp
        → decode env.codec resp.token ≡ r
        → accept env again resp r (post env again p c).1
          ≡ lift c (Authenticate.accept env resp r (Authenticate.post env p c.auth).1)
    accept-lift p c b resp (inl e) answered read decoded = refl
    accept-lift p c b resp (inr d) answered read decoded =
        let (lasts, _) = lasting p c.auth.state b resp d answered read decoded in
        rw (set_token-lift resp.token d (post env again p c).1 decoded lasts) refl

    requested-lift :
        (p : Post) (c : Client S C) (b : Text) (r : Text ⊎ AuthResponse)
        → (env.post p c.auth.state).0 ≡ inr b
        → env.unmarshal_response b ≡ r
        → requested env again r (post env again p c).1
          ≡ lift c (Authenticate.requested env r (Authenticate.post env p c.auth).1)
    requested-lift p c b (inl e) answered read = refl
    requested-lift p c b (inr resp) answered read = elim (Bool-cases (is_empty resp.token)) [
      | inl e ↦ rw e refl
      | inr e ↦ rw e (accept-lift p c b resp (decode env.codec resp.token) answered read refl)
    ]

    request_answered-lift :
        (p : Post) (c : Client S C) (r : Text ⊎ Text)
        → (env.post p c.auth.state).0 ≡ r
        → request_answered env again (r, (post env again p c).1)
          ≡ lift c (Authenticate.request_answered env (r, (Authenticate.post env p c.auth).1))
    request_answered-lift p c (inl e) answered = refl
    request_answered-lift p c (inr b) answered =
        requested-lift p c b (env.unmarshal_response b) answered refl

    request_at-lift :
        (base : Option Text) (request : TokenRequest) (c : Client S C)
        → request_at env again base request c
          ≡ lift c (Authenticate.request_at env base request c.auth)
    request_at-lift none request c = refl
    request_at-lift (some base) request c = request_answered-lift _ c _ refl

    request_token-lift :
        (request : TokenRequest) (c : Client S C)
        → request_token env again request c ≡ lift c (Authenticate.request_token env request c.auth)
    unfolding request_token Authenticate.request_token
    request_token-lift request c = elim (Bool-cases (is_empty request.aki)) [
      | inl e ↦ rw e refl
      | inr e ↦ rw e (request_at-lift (build_rest_base_url env.opts) request c)
    ]

    authenticated-lift :
        (p : Post) (c : Client S C) (b : Text) (r : Text ⊎ AuthResponse)
        → (env.post p c.auth.state).0 ≡ inr b
        → env.unmarshal_response b ≡ r
        → authenticated env again r (post env again p c).1
          ≡ lift c (Authenticate.authenticated env r (Authenticate.post env p c.auth).1)
    authenticated-lift p c b (inl e) answered read = refl
    authenticated-lift p c b (inr resp) answered read = elim (Bool-cases (is_empty resp.token)) [
      | inl e ↦ rw e (expects_request-lift resp resp.token_request _)
      | inr e ↦ rw e (accept-lift p c b resp (decode env.codec resp.token) answered read refl)
    ]

    auth_answered-lift :
        (p : Post) (c : Client S C) (r : Text ⊎ Text)
        → (env.post p c.auth.state).0 ≡ r
        → auth_answered env again (r, (post env again p c).1)
          ≡ lift c (Authenticate.auth_answered env (r, (Authenticate.post env p c.auth).1))
    auth_answered-lift p c (inl e) answered = refl
    auth_answered-lift p c (inr b) answered =
        authenticated-lift p c b (env.unmarshal_response b) answered refl

    authenticate_once-lift :
        (c : Client S C)
        → authenticate_once env again c ≡ lift c (Authenticate.authenticate_once env c.auth)
    unfolding authenticate_once Authenticate.authenticate_once
    authenticate_once-lift c = elim (Bool-cases (is_empty env.opts.auth_url)) [
      | inl e ↦ ground arith
      | inr e ↦ rw e (auth_answered-lift (auth_post env env.opts env.opts.auth_options) c _ refl)
    ]

    exchange_request-lift :
        (resp : AuthResponse) (o : Option TokenRequest) (c : Client S C)
        → exchange_request env again resp o c
          ≡ lift c (Authenticate.exchange_request env resp o c.auth)
    exchange_request-lift resp none c = refl
    exchange_request-lift resp (some request) c = request_token-lift request c

    retry_once-lift :
        (last : Bool) (next : Client S C → Ran (Reply env again))
        (next' : Manager S → Outcome × Manager S) (c : Client S C) (r : Outcome × Manager S)
        → Agree next next'
        → (lift c r >>= retry_once env again last next)
          ≡ lift c (Authenticate.retry_once env last next' r)
    retry_once-lift last next next' c (failed e, m) h = elim (Bool-cases (env.aborted m.state)) [
      | inl stop ↦ rw stop refl
      | inr goes ↦ rw goes (retry-lift last next next' c (failed e, m) h)
    ]
    retry_once-lift last next next' c (response none, m) h = refl
    retry_once-lift last next next' c (response (some resp), m) h =
        exchange_request-lift resp resp.token_request (record c { auth = m })
    retry_once-lift last next next' c (panic, m) h = refl

    attempt-lift :
        (o : Option TokenRequest) (last : Bool) (next : Client S C → Ran (Reply env again))
        (next' : Manager S → Outcome × Manager S) (c : Client S C)
        → Agree next next'
        → attempt env again o last next c ≡ lift c (Authenticate.attempt env o last next' c.auth)
    attempt-lift (some request) last next next' c h =
        rw (request_token-lift request c) (retry-lift last next next' c _ h)
    attempt-lift none last next next' c h =
        rw (authenticate_once-lift c) (retry_once-lift last next next' c _ h)

    attempts-lift : (n : ℕ) → Agree (attempts env again n) (Authenticate.attempts env n)
    unfolding attempts Authenticate.attempts
    attempts-lift zero c = refl
    attempts-lift (suc n) c = elim (Bool-cases (env.aborted c.auth.state)) [
      | inl stop ↦ rw stop refl
      | inr goes ↦ rw goes (
          attempt-lift env.opts.token_request (is_last n) (attempts env again n)
            (Authenticate.attempts env n) c (attempts-lift n))
    ]

    -- With a server whose tokens last for more than a minute `Authenticate` does the same with the
    -- connection's listener as without it, in each of its results, its requests and its events: the
    -- listener is never called.
    pub authenticate-lift :
        (c : Client S C) → authenticate env again c ≡ lift c (Authenticate.authenticate env c.auth)
    unfolding authenticate Authenticate.authenticate
    authenticate-lift c = ground (arith, attempts-lift (allowed env.opts.authenticate_retries) c)
