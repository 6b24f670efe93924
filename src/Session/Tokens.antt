-- ===== src/Session/Tokens.antt =====
-- `setToken`, `scheduleRefresh`, `GetToken` and what reads the token through it (auth/manager.go),
-- with the connection's listener.
use qpub_go.Prelude.{Bool, ℤ, Option, none, some, [], ◌⊎◌, inl, inr, if◌then◌else◌}
use qpub_go.Prelude.Text.{Text, is_empty}
use qpub_go.Prelude.Duration.{exceeds}
use qpub_go.Jwt.Token.{DecodeError, Decoded, decode, is_expired}
use qpub_go.Auth.Types.{Env, Error, token_expired, token_updated}
use qpub_go.Auth.Tokens.{emit, expiry, refresh_time, clear_token, query_for, with_query}
use qpub_go.Session.{Ran, pure, ◌>>=◌, Client, on_auth}

module _ {S C : Type 0} (env : Env S) (again : Client S C → Ran (Client S C)) where
  -- The listener is called, and then the token is cleared.
  abbrev pub expire : Option Text → Client S C → Ran (Client S C)
  expire token c = do
    c' ← again (on_auth (emit (token_expired token)) c)
    pure (on_auth clear_token c')

  abbrev pub refresh : ℤ → DecodeError ⊎ Decoded → Client S C → Ran (Client S C)
  refresh now (inl e) c = pure c
  refresh now (inr d) c =
      if exceeds (refresh_time d.payload.exp) now
      then pure (on_auth (λ m. record m { refresh_timer = Bool.true }) c)
      else expire none c

  unfoldable pub set_token : Text → Client S C → Ran (Client S C)
  set_token token c =
      let updated = token_updated token (expiry (decode env.codec token)) in
      let c' = on_auth (λ m. emit updated (record m { current_token = token })) c in
      refresh (env.now c'.auth.state) (decode env.codec token) c'

  unfoldable pub get_token : Client S C → Ran (Text × Client S C)
  get_token c =
      let token = c.auth.current_token in
      if is_empty token
      then pure ([], c)
      else if is_expired env.codec (env.now c.auth.state) token
      then (do c' ← expire (some token) c; pure ([], c'))
      else pure (token, c)

  -- The parameters are made of the token and the options.
  unfoldable pub get_authenticate_url : Text → Client S C → Ran ((Error ⊎ Text) × Client S C)
  get_authenticate_url base c = do
    (token, c') ← get_token c
    pure ((with_query base (query_for env.opts (token, c'.auth))).0, c')
