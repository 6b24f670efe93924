-- ===== src/Session/Replies.antt =====
-- What the calls of the auth manager (auth/manager.go) end with where the server's tokens last.
use qpub_go.Prelude.{Bool, true, false, Option, none, some, ◌≡◌, ◌⊎◌, inl, inr, refl, Bool-cases}
use qpub_go.Prelude.Text.{Text, is_empty}
use qpub_go.Prelude.Duration.{exceeds}
use qpub_go.Options.{AuthResponse, TokenRequest}
use qpub_go.Options.Itoa.{build_rest_base_url}
use qpub_go.Jwt.Token.{DecodeError, Decoded, decode, is_expired}
use qpub_go.Auth.Types
use qpub_go.Auth.Types.{Manager, Post, Error, token_updated}
use qpub_go.Auth.Tokens.{refresh_time}
use qpub_go.Auth.Authenticate.{auth_post}
use qpub_go.Session.{Ran, returns, panics, runs_on, ◌>>=◌, Client}
use qpub_go.Session.Tokens.{set_token}
use qpub_go.Session.Authenticate.{
  Reply, post, accept, requested, request_answered, request_at, request_token, expects_request,
  authenticated, auth_answered, authenticate_once, retry, exchange_request, retry_once,
}

module _ {S : Type 0} (env : Types.Env S) where
  -- A token of the server that decodes can be used for more than a minute.
  abbrev pub IsLasting : Type 0
  IsLasting =
      (p : Post) (s : S) (b : Text) (resp : AuthResponse) (d : Decoded)
      → (env.post p s).0 ≡ inr b
      → env.unmarshal_response b ≡ inr resp
      → decode env.codec resp.token ≡ inr d
      → (exceeds (refresh_time d.payload.exp) (env.now (env.post p s).1) ≡ true)
        × (is_expired env.codec (env.now (env.post p s).1) resp.token ≡ false)

  module _ {C : Type 0} (again : Client S C → Ran (Client S C)) where
    -- The client has a token that has not expired.
    abbrev pub IsUsable : Client S C → Type 0
    IsUsable c = is_expired env.codec (env.now c.auth.state) c.auth.current_token ≡ false

    -- A call that returned, and where it succeeded left such a token.
    abbrev pub IsDone : Ran (Reply env again) → Type 0
    IsDone panics = Unit
    IsDone runs_on = ⊥
    IsDone (returns (inl e, c)) = Unit
    IsDone (returns (inr r, c)) = IsUsable c

    abbrev Leaves : Option TokenRequest → Client S C → Type 0
    Leaves none c = IsUsable c
    Leaves (some request) c = Unit

    -- A single attempt may also end with a token request, which is not yet exchanged.
    abbrev pub IsTried : Ran (Reply env again) → Type 0
    IsTried panics = Unit
    IsTried runs_on = ⊥
    IsTried (returns (inl e, c)) = Unit
    IsTried (returns (inr none, c)) = ⊥
    IsTried (returns (inr (some resp), c)) = Leaves resp.token_request c

    Leaves-IsUsable : (o : Option TokenRequest) (c : Client S C) → IsUsable c → Leaves o c
    Leaves-IsUsable none c h = h
    Leaves-IsUsable (some request) c h = tt

    -- A token that lasts is kept.
    set_token-kept :
        (token : Text) (d : Decoded) (c : Client S C)
        → decode env.codec token ≡ inr d
        → exceeds (refresh_time d.payload.exp) (env.now c.auth.state) ≡ true
        → (c' : Client S C) × (set_token env again token c ≡ returns c')
          × (c'.auth.current_token ≡ token)
          × (c'.auth.state ≡ c.auth.state)
    unfolding set_token
    set_token-kept token d c e lasts = rw (e, lasts) (_, refl, refl, refl)

    -- After an attempt that is not the last the next one is made.
    abbrev pub Goes : Bool → (Client S C → Ran (Reply env again)) → Type 0
    Goes last next = last ≡ false → (c : Client S C) → IsDone (next c)

    module _ (lasting : IsLasting) where
      accept-shape :
          (p : Post) (c : Client S C) (b : Text) (resp : AuthResponse) (d : Decoded)
          → (env.post p c.auth.state).0 ≡ inr b
          → env.unmarshal_response b ≡ inr resp
          → decode env.codec resp.token ≡ inr d
          → (c' : Client S C) × (accept env again resp (inr d) (post env again p c).1
              ≡ returns (inr (some resp), c'))
            × IsUsable c'
      accept-shape p c b resp d answered read decoded =
          let (lasts, usable) = lasting p c.auth.state b resp d answered read decoded in
          let (c', set, token, state) =
            set_token-kept resp.token d (post env again p c).1 decoded lasts in
          (c', rw set refl, rw (token, state) usable)

      accept-IsDone :
          (p : Post) (c : Client S C) (b : Text) (resp : AuthResponse) (r : DecodeError ⊎ Decoded)
          → (env.post p c.auth.state).0 ≡ inr b
          → env.unmarshal_response b ≡ inr resp
          → decode env.codec resp.token ≡ r
          → IsDone (accept env again resp r (post env again p c).1)
            × IsTried (accept env again resp r (post env again p c).1)
      accept-IsDone p c b resp (inl e) answered read decoded = (tt, tt)
      accept-IsDone p c b resp (inr d) answered read decoded =
          let (c', shape, usable) = accept-shape p c b resp d answered read decoded in
          rw shape (usable, Leaves-IsUsable resp.token_request c' usable)

      requested-IsDone :
          (p : Post) (c : Client S C) (b : Text) (r : Text ⊎ AuthResponse)
          → (env.post p c.auth.state).0 ≡ inr b
          → env.unmarshal_response b ≡ r
          → IsDone (requested env again r (post env again p c).1)
      requested-IsDone p c b (inl e) answered read = tt
      requested-IsDone p c b (inr resp) answered read = elim (Bool-cases (is_empty resp.token)) [
        | inl e ↦ rw e tt
        | inr e ↦ rw e (accept-IsDone p c b resp (decode env.codec resp.token) answered read refl).0
      ]

      request_answered-IsDone :
          (p : Post) (c : Client S C) (r : Text ⊎ Text)
          → (env.post p c.auth.state).0 ≡ r
          → IsDone (request_answered env again (r, (post env again p c).1))
      request_answered-IsDone p c (inl e) answered = tt
      request_answered-IsDone p c (inr b) answered =
          requested-IsDone p c b (env.unmarshal_response b) answered refl

      request_at-IsDone :
          (base : Option Text) (request : TokenRequest) (c : Client S C)
          → IsDone (request_at env again base request c)
      request_at-IsDone none request c = tt
      request_at-IsDone (some base) request c = request_answered-IsDone _ c _ refl

      pub request_token-IsDone :
          (request : TokenRequest) (c : Client S C) → IsDone (request_token env again request c)
      unfolding request_token
      request_token-IsDone request c = elim (Bool-cases (is_empty request.aki)) [
        | inl e ↦ rw e tt
        | inr e ↦ rw e (request_at-IsDone (build_rest_base_url env.opts) request c)
      ]

      expects_request-IsTried :
          (resp : AuthResponse) (o : Option TokenRequest) (c : Client S C)
          → resp.token_request ≡ o
          → IsTried (expects_request env again resp o c)
      expects_request-IsTried resp none c e = tt
      expects_request-IsTried resp (some request) c e = rw e tt

      authenticated-IsTried :
          (p : Post) (c : Client S C) (b : Text) (r : Text ⊎ AuthResponse)
          → (env.post p c.auth.state).0 ≡ inr b
          → env.unmarshal_response b ≡ r
          → IsTried (authenticated env again r (post env again p c).1)
      authenticated-IsTried p c b (inl e) answered read = tt
      authenticated-IsTried p c b (inr resp) answered read =
          elim (Bool-cases (is_empty resp.token)) [
            | inl e ↦ rw e (expects_request-IsTried resp resp.token_request _ refl)
            | inr e ↦
                rw e (accept-IsDone p c b resp (decode env.codec resp.token) answered read refl).1
          ]

      auth_answered-IsTried :
          (p : Post) (c : Client S C) (r : Text ⊎ Text)
          → (env.post p c.auth.state).0 ≡ r
          → IsTried (auth_answered env again (r, (post env again p c).1))
      auth_answered-IsTried p c (inl e) answered = tt
      auth_answered-IsTried p c (inr b) answered =
          authenticated-IsTried p c b (env.unmarshal_response b) answered refl

      pub authenticate_once-IsTried :
          (c : Client S C)
          → is_empty env.opts.auth_url ≡ false
          → IsTried (authenticate_once env again c)
      unfolding authenticate_once
      authenticate_once-IsTried c url =
          rw url (auth_answered-IsTried (auth_post env env.opts env.opts.auth_options) c _ refl)

      pub retry-IsDone :
          (last : Bool) (next : Client S C → Ran (Reply env again)) (r : Ran (Reply env again))
          → Goes last next
          → IsDone r
          → IsDone (r >>= retry env again last next)
      retry-IsDone last next panics h done = tt
      retry-IsDone last next runs_on h done = elim done [ ]
      retry-IsDone true next (returns (inl e, c)) h done = tt
      retry-IsDone false next (returns (inl e, c)) h done = h refl c
      retry-IsDone last next (returns (inr r, c)) h done = done

      exchange_request-IsDone :
          (resp : AuthResponse) (o : Option TokenRequest) (c : Client S C)
          → Leaves o c
          → IsDone (exchange_request env again resp o c)
      exchange_request-IsDone resp none c h = h
      exchange_request-IsDone resp (some request) c h = request_token-IsDone request c

      pub retry_once-IsDone :
          (last : Bool) (next : Client S C → Ran (Reply env again)) (r : Ran (Reply env again))
          → ((s : S) → env.aborted s ≡ false)
          → Goes last next
          → IsTried r
          → IsDone (r >>= retry_once env again last next)
      retry_once-IsDone last next panics a h tried = tt
      retry_once-IsDone last next runs_on a h tried = elim tried [ ]
      retry_once-IsDone last next (returns (inr none, c)) a h tried = elim tried [ ]
      retry_once-IsDone true next (returns (inl e, c)) a h tried = rw (a c.auth.state) tt
      retry_once-IsDone false next (returns (inl e, c)) a h tried = rw (a c.auth.state) (h refl c)
      retry_once-IsDone last next (returns (inr (some resp), c)) a h tried =
          exchange_request-IsDone resp resp.token_request c tried
