-- ===== src/Auth/Authenticate.antt =====
-- `Authenticate`, `authenticateOnce` and `RequestToken` of auth/manager.go. The sleeps between the
-- attempts are left out.
use qpub_go.Prelude.{
  ℕ, zero, suc, ℤ, pos, negsuc, Bool, true, false, Option, none, some, [], ◌∷◌, ◌++◌, ◌⊎◌, inl, inr,
  if◌then◌else◌,
}
use qpub_go.Prelude.Text.{Text, codes, is_empty}
use qpub_go.Options.{Options, AuthOptions, AuthResponse, TokenRequest}
use qpub_go.Options.Itoa.{build_rest_base_url}
use qpub_go.Jwt.Token.{DecodeError, Decoded, decode}
use qpub_go.Auth.Types.{
  Env, Manager, Error, Post, auth_body, request_body, no_credentials, missing_aki, token_not_found,
  unexpected_response, http_error, json_error, bad_token,
}
use qpub_go.Auth.Tokens.{set_token}

-- A call returns a response, perhaps none, or an error, or panics where the base URL does.
pub data Outcome : Type 0 where
  response : Option AuthResponse → Outcome
  failed : Error → Outcome
  panic : Outcome

abbrev pub is_last : ℕ → Bool
is_last zero = true
is_last (suc n) = false

-- The number of attempts: one more than the retries.
abbrev pub allowed : ℤ → ℕ
allowed (pos n) = suc n
allowed (negsuc n) = 0

module _ {S : Type 0} (env : Env S) where
  abbrev pub Call : Type 0
  Call = Outcome × Manager S

  -- `m.http.Post`
  abbrev pub post : Post → Manager S → (Text ⊎ Text) × Manager S
  post p m = let r = env.post p m.state in (r.0, record m { state = r.1; posts = p ∷ m.posts })

  -- A token that does not decode is an error; another one becomes the client's.
  abbrev pub accept : AuthResponse → DecodeError ⊎ Decoded → Manager S → Call
  accept resp (inl e) m = (failed (bad_token e), m)
  accept resp (inr d) m = (response (some resp), set_token env resp.token m)

  abbrev pub requested : Text ⊎ AuthResponse → Manager S → Call
  requested (inl e) m = (failed (json_error e), m)
  requested (inr resp) m =
      if is_empty resp.token
      then (failed token_not_found, m)
      else accept resp (decode env.codec resp.token) m

  abbrev pub request_answered : (Text ⊎ Text) × Manager S → Call
  request_answered (inl e, m) = (failed (http_error e), m)
  request_answered (inr b, m) = requested (env.unmarshal_response b) m

  abbrev pub request_at : Option Text → TokenRequest → Manager S → Call
  request_at none request m = (panic, m)
  request_at (some base) request m = request_answered (
      post
        (record {
          url = base ++ (codes "/key/" ++ request.aki ++ codes "/token/request");
          body = request_body request;
          headers = (codes "Content-Type", codes "application/json") ∷ [];
        })
        m)

  unfoldable pub request_token : TokenRequest → Manager S → Call
  request_token request m =
      if is_empty request.aki
      then (failed missing_aki, m)
      else request_at (build_rest_base_url env.opts) request m

  abbrev pub expects_request : AuthResponse → Option TokenRequest → Manager S → Call
  expects_request resp none m = (failed unexpected_response, m)
  expects_request resp (some request) m = (response (some resp), m)

  abbrev pub authenticated : Text ⊎ AuthResponse → Manager S → Call
  authenticated (inl e) m = (failed (json_error e), m)
  authenticated (inr resp) m =
      if is_empty resp.token
      then expects_request resp resp.token_request m
      else accept resp (decode env.codec resp.token) m

  abbrev pub auth_answered : (Text ⊎ Text) × Manager S → Call
  auth_answered (inl e, m) = (failed (http_error e), m)
  auth_answered (inr b, m) = authenticated (env.unmarshal_response b) m

  abbrev pub auth_post : Options → Option AuthOptions → Post
  auth_post o none = record { url = o.auth_url; body = auth_body none; headers = [] }
  auth_post o (some a) = record {
    url = o.auth_url;
    body = auth_body (some a.body);
    headers = a.headers;
  }

  unfoldable pub authenticate_once : Manager S → Call
  authenticate_once m =
      if is_empty env.opts.auth_url
      then (if is_empty env.opts.api_key then (failed no_credentials, m) else (response none, m))
      else auth_answered (post (auth_post env.opts env.opts.auth_options) m)

  -- After an error: the last attempt returns it, and another is followed by the next.
  abbrev pub retry : Bool → (Manager S → Call) → Call → Call
  retry last again (failed e, m) = if last then (failed e, m) else again m
  retry last again (response r, m) = (response r, m)
  retry last again (panic, m) = (panic, m)

  abbrev pub exchange_request : AuthResponse → Option TokenRequest → Manager S → Call
  exchange_request resp none m = (response (some resp), m)
  exchange_request resp (some request) m = request_token request m

  abbrev pub retry_once : Bool → (Manager S → Call) → Call → Call
  retry_once last again (response none, m) = (response none, m)
  retry_once last again (response (some resp), m) = exchange_request resp resp.token_request m
  retry_once last again (panic, m) = (panic, m)
  retry_once last again (failed e, m) =
      if env.aborted m.state then (response none, m) else if last then (failed e, m) else again m

  abbrev pub attempt : Option TokenRequest → Bool → (Manager S → Call) → Manager S → Call
  attempt (some request) last again m = retry last again (request_token request m)
  attempt none last again m = retry_once last again (authenticate_once m)

  -- The loop with so many attempts left.
  unfoldable pub attempts : ℕ → Manager S → Call
  attempts zero m = (response none, m)
  attempts (suc n) m =
      if env.aborted m.state
      then (response none, m)
      else attempt env.opts.token_request (is_last n) (attempts n) m

  unfoldable pub authenticate : Manager S → Call
  authenticate m =
      if m.resetting then (response none, m) else attempts (allowed env.opts.authenticate_retries) m
