-- ===== src/Session/Authenticate.antt =====
-- `Authenticate`, `authenticateOnce` and `RequestToken` of auth/manager.go, with the connection's
-- listener.
use qpub_go.Prelude.{
  ℕ, zero, suc, Bool, Option, none, some, [], ◌∷◌, ◌++◌, ◌⊎◌, inl, inr, if◌then◌else◌,
}
use qpub_go.Prelude.Text.{Text, codes, is_empty}
use qpub_go.Options.{AuthResponse, TokenRequest}
use qpub_go.Options.Itoa.{build_rest_base_url}
use qpub_go.Jwt.Token.{DecodeError, Decoded, decode}
use qpub_go.Auth.Types.{
  Env, Error, Post, request_body, no_credentials, missing_aki, token_not_found, unexpected_response,
  http_error, json_error, bad_token,
}
use qpub_go.Auth.Authenticate
use qpub_go.Auth.Authenticate.{is_last, allowed, auth_post}
use qpub_go.Session.{Ran, panics, pure, ◌>>=◌, Client}
use qpub_go.Session.Tokens.{set_token}

module _ {S C : Type 0} (env : Env S) (again : Client S C → Ran (Client S C)) where
  abbrev pub Reply : Type 0
  Reply = (Error ⊎ Option AuthResponse) × Client S C

  abbrev pub post : Post → Client S C → (Text ⊎ Text) × Client S C
  post p c = let r = Authenticate.post env p c.auth in (r.0, record c { auth = r.1 })

  abbrev pub accept : AuthResponse → DecodeError ⊎ Decoded → Client S C → Ran Reply
  accept resp (inl e) c = pure (inl (bad_token e), c)
  accept resp (inr d) c = do c' ← set_token env again resp.token c; pure (inr (some resp), c')

  abbrev pub requested : Text ⊎ AuthResponse → Client S C → Ran Reply
  requested (inl e) c = pure (inl (json_error e), c)
  requested (inr resp) c =
      if is_empty resp.token
      then pure (inl token_not_found, c)
      else accept resp (decode env.codec resp.token) c

  abbrev pub request_answered : (Text ⊎ Text) × Client S C → Ran Reply
  request_answered (inl e, c) = pure (inl (http_error e), c)
  request_answered (inr b, c) = requested (env.unmarshal_response b) c

  abbrev pub request_at : Option Text → TokenRequest → Client S C → Ran Reply
  request_at none request c = panics
  request_at (some base) request c = request_answered (
      post
        (record {
          url = base ++ (codes "/key/" ++ request.aki ++ codes "/token/request");
          body = request_body request;
          headers = (codes "Content-Type", codes "application/json") ∷ [];
        })
        c)

  unfoldable pub request_token : TokenRequest → Client S C → Ran Reply
  request_token request c =
      if is_empty request.aki
      then pure (inl missing_aki, c)
      else request_at (build_rest_base_url env.opts) request c

  abbrev pub expects_request : AuthResponse → Option TokenRequest → Client S C → Ran Reply
  expects_request resp none c = pure (inl unexpected_response, c)
  expects_request resp (some request) c = pure (inr (some resp), c)

  abbrev pub authenticated : Text ⊎ AuthResponse → Client S C → Ran Reply
  authenticated (inl e) c = pure (inl (json_error e), c)
  authenticated (inr resp) c =
      if is_empty resp.token
      then expects_request resp resp.token_request c
      else accept resp (decode env.codec resp.token) c

  abbrev pub auth_answered : (Text ⊎ Text) × Client S C → Ran Reply
  auth_answered (inl e, c) = pure (inl (http_error e), c)
  auth_answered (inr b, c) = authenticated (env.unmarshal_response b) c

  unfoldable pub authenticate_once : Client S C → Ran Reply
  authenticate_once c =
      if is_empty env.opts.auth_url
      then (if is_empty env.opts.api_key then pure (inl no_credentials, c) else pure (inr none, c))
      else auth_answered (post (auth_post env env.opts env.opts.auth_options) c)

  abbrev pub retry : Bool → (Client S C → Ran Reply) → Reply → Ran Reply
  retry last next (inl e, c) = if last then pure (inl e, c) else next c
  retry last next (inr r, c) = pure (inr r, c)

  abbrev pub exchange_request : AuthResponse → Option TokenRequest → Client S C → Ran Reply
  exchange_request resp none c = pure (inr (some resp), c)
  exchange_request resp (some request) c = request_token request c

  abbrev pub retry_once : Bool → (Client S C → Ran Reply) → Reply → Ran Reply
  retry_once last next (inr none, c) = pure (inr none, c)
  retry_once last next (inr (some resp), c) = exchange_request resp resp.token_request c
  retry_once last next (inl e, c) =
      if env.aborted c.auth.state
      then pure (inr none, c)
      else if last
      then pure (inl e, c)
      else next c

  abbrev pub attempt :
      Option TokenRequest → Bool → (Client S C → Ran Reply) → Client S C → Ran Reply
  attempt (some request) last next c = request_token request c >>= retry last next
  attempt none last next c = authenticate_once c >>= retry_once last next

  unfoldable pub attempts : ℕ → Client S C → Ran Reply
  attempts zero c = pure (inr none, c)
  attempts (suc n) c =
      if env.aborted c.auth.state
      then pure (inr none, c)
      else attempt env.opts.token_request (is_last n) (attempts n) c

  unfoldable pub authenticate : Client S C → Ran Reply
  authenticate c =
      if c.auth.resetting
      then pure (inr none, c)
      else attempts (allowed env.opts.authenticate_retries) c
