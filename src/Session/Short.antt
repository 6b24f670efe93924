-- ===== src/Session/Short.antt =====
-- The tokens of a server that last for a minute at most (auth/manager.go, connection/connection.go).
use qpub_go.Prelude.{ℕ, zero, suc, ℤ, pos, true, false, none, ◌≡◌, inr, refl, arith}
use qpub_go.Prelude.Text.{Text, is_empty}
use qpub_go.Prelude.Duration.{exceeds}
use qpub_go.Options.{AuthResponse}
use qpub_go.Ws
use qpub_go.Jwt.Token.{Decoded, decode}
use qpub_go.Auth.Types
use qpub_go.Auth.Types.{Manager, Post, token_expired, token_updated}
use qpub_go.Auth.Tokens
use qpub_go.Auth.Tokens.{refresh_time, expiry}
use qpub_go.Auth.Authenticate.{auth_post}
use qpub_go.Connection.Types.{Env, connecting}
use qpub_go.Connection.Ops.{emit}
use qpub_go.Session.{Ran, runs_on, Client, on_auth}
use qpub_go.Session.Tokens.{refresh, set_token}
use qpub_go.Session.Authenticate.{post, attempts, authenticate, authenticate_once}
use qpub_go.Session.Calls.{connect, call}

module _ {S : Type 0} (env : Types.Env S) where
  -- `Connect` asks the server of `AuthURL`, and nothing stops it.
  abbrev pub AsksServer : ℕ → Type 0
  AsksServer retries =
      (env.opts.auto_authenticate ≡ true)
      × (is_empty env.opts.auth_url ≡ false)
      × (env.opts.token_request ≡ none)
      × (env.opts.authenticate_retries ≡ pos retries)
      × ((s : S) → env.aborted s ≡ false)

  -- Every answer has a token that decodes and expires within a minute.
  abbrev pub IsShort : Type 0
  IsShort =
      (p : Post) (s : S)
      → (b : Text) × (resp : AuthResponse) × (d : Decoded) × ((env.post p s).0 ≡ inr b)
        × (env.unmarshal_response b ≡ inr resp)
        × (is_empty resp.token ≡ false)
        × (decode env.codec resp.token ≡ inr d)
        × (exceeds (refresh_time d.payload.exp) (env.now (env.post p s).1) ≡ false)

  module _ {C : Type 0} where
    -- No reset is under way.
    abbrev IsIdle : Client S C → Type 0
    IsIdle c = (c.resetting ≡ false) × (c.auth.resetting ≡ false)

    abbrev Hangs : (Client S C → Ran (Client S C)) → Type 0
    Hangs again = (c : Client S C) → IsIdle c → again c ≡ runs_on

    refresh-Hangs :
        (again : Client S C → Ran (Client S C)) (now : ℤ) (d : Decoded) (c : Client S C)
        → Hangs again
        → IsIdle c
        → exceeds (refresh_time d.payload.exp) now ≡ false
        → refresh env again now (inr d) c ≡ runs_on
    refresh-Hangs again now d c h idle short =
        rw (short, h (on_auth (Tokens.emit (token_expired none)) c) idle) refl

    set_token-Hangs :
        (again : Client S C → Ran (Client S C)) (token : Text) (d : Decoded) (c : Client S C)
        → Hangs again
        → IsIdle c
        → decode env.codec token ≡ inr d
        → exceeds (refresh_time d.payload.exp) (env.now c.auth.state) ≡ false
        → set_token env again token c ≡ runs_on
    unfolding set_token
    set_token-Hangs again token d c h idle e short = rw e (refresh-Hangs again _ d _ h idle short)

    authenticate_once-Hangs :
        (again : Client S C → Ran (Client S C)) (c : Client S C)
        → is_empty env.opts.auth_url ≡ false
        → IsShort
        → Hangs again
        → IsIdle c
        → authenticate_once env again c ≡ runs_on
    unfolding authenticate_once
    authenticate_once-Hangs again c url short h idle =
        let p = auth_post env env.opts env.opts.auth_options in
        let (b, resp, d, answered, read, token, decoded, soon) = short p c.auth.state in
        let stops = set_token-Hangs again resp.token d (post env again p c).1 h idle decoded soon in
        rw (url, answered, read, token, decoded, stops) refl

    attempts-Hangs :
        (again : Client S C → Ran (Client S C)) (n retries : ℕ) (c : Client S C)
        → AsksServer retries
        → IsShort
        → Hangs again
        → IsIdle c
        → attempts env again (suc n) c ≡ runs_on
    unfolding attempts
    attempts-Hangs again n retries c asks short h idle =
        ground
          (arith, asks.4 c.auth.state, asks.2, authenticate_once-Hangs again c asks.1 short h idle)

    authenticate-Hangs :
        (again : Client S C → Ran (Client S C)) (retries : ℕ) (c : Client S C)
        → AsksServer retries
        → IsShort
        → Hangs again
        → IsIdle c
        → authenticate env again c ≡ runs_on
    unfolding authenticate
    authenticate-Hangs again retries c asks short h idle =
        ground (arith, attempts-Hangs again retries retries c asks short h idle, asks.3)

    module _ (conn : Env (Manager S) C) (describe : Types.Error → Ws.Error) where
      connect-Hangs :
          (again : Client S C → Ran (Client S C)) (retries : ℕ) (c : Client S C)
          → AsksServer retries
          → IsShort
          → Hangs again
          → IsIdle c
          → connect env conn describe again c ≡ runs_on
      unfolding connect
      connect-Hangs again retries c asks short h idle = ground (
        arith,
        authenticate-Hangs again retries (emit (connecting 1) c) asks short h idle,
        asks.0,
      )

      -- With a server whose tokens all expire within a minute a call of `Connect` never returns, however
      -- deep it nests: `setToken` emits the expiry of each token at once, and the listener calls
      -- `Connect`, which asks for the next one.
      pub call_short-runs_on :
          (n retries : ℕ) (c : Client S C)
          → AsksServer retries
          → IsShort
          → IsIdle c
          → call env conn describe n c ≡ runs_on
      unfolding call
      call_short-runs_on zero retries c asks short idle = refl
      call_short-runs_on (suc n) retries c asks short idle =
          rw
            (connect-Hangs (call env conn describe n) retries c asks short
              (λ d. call_short-runs_on n retries d asks short) idle)
            refl
