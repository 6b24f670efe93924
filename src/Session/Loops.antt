-- ===== src/Session/Loops.antt =====
-- Calls of `Connect` that never return, since the connection's listener makes the next one before the
-- token is cleared or replaced (auth/manager.go, connection/connection.go).
use qpub_go.Prelude.{ℕ, zero, suc, true, false, none, some, ◌≡◌, inl, inr, refl, arith, Bool-cases}
use qpub_go.Prelude.Text.{is_empty}
use qpub_go.Ws
use qpub_go.Jwt.Token.{is_expired}
use qpub_go.Auth.Types
use qpub_go.Auth.Types.{Manager, Post, token_expired}
use qpub_go.Auth.Tokens
use qpub_go.Auth.Tokens.{refresh_time}
use qpub_go.Auth.Authenticate.{allowed}
use qpub_go.Connection.Types.{Env, connecting}
use qpub_go.Connection.Ops.{emit}
use qpub_go.Session.{Ran, returns, runs_on, Client, on_auth}
use qpub_go.Session.Tokens.{get_token, get_authenticate_url}
use qpub_go.Session.Authenticate.{attempts, authenticate, authenticate_once}
use qpub_go.Session.Calls.{connect_ready, connect, call}

-- The only credentials are an API key.
abbrev HasKeyOnly : {S : Type 0} → Types.Env S → Type 0
HasKeyOnly env =
    (is_empty env.opts.auth_url ≡ true)
    × (is_empty env.opts.api_key ≡ false)
    × (env.opts.token_request ≡ none)

module _ {S C : Type 0} (env : Types.Env S) where
  -- The client's token has expired.
  abbrev IsStale : Client S C → Type 0
  IsStale c =
      (c.resetting ≡ false)
      × (is_empty c.auth.current_token ≡ false)
      × (is_expired env.codec (env.now c.auth.state) c.auth.current_token ≡ true)

  -- A call that does not return for such a client.
  abbrev Hangs : (Client S C → Ran (Client S C)) → Type 0
  Hangs again = (c : Client S C) → IsStale c → again c ≡ runs_on

  pub get_token-Hangs :
      (again : Client S C → Ran (Client S C)) (c : Client S C)
      → Hangs again
      → IsStale c
      → get_token env again c ≡ runs_on
  unfolding get_token
  get_token-Hangs again c h stale =
      let token = c.auth.current_token in
      rw (stale.1, stale.2, h (on_auth (Tokens.emit (token_expired (some token))) c) stale) refl

  attempts-none :
      (again : Client S C → Ran (Client S C)) (n : ℕ) (c : Client S C)
      → HasKeyOnly env
      → attempts env again n c ≡ returns (inr none, c)
  unfolding attempts authenticate_once
  attempts-none again zero c h = refl
  attempts-none again (suc n) c h = elim (Bool-cases (env.aborted c.auth.state)) [
    | inl e ↦ rw e refl
    | inr e ↦ rw (e, h.2, h.0, h.1) refl
  ]

  authenticate-none :
      (again : Client S C → Ran (Client S C)) (c : Client S C)
      → HasKeyOnly env
      → authenticate env again c ≡ returns (inr none, c)
  unfolding authenticate
  authenticate-none again c h =
      ground (arith, attempts-none again (allowed env.opts.authenticate_retries) c h)

  module _ (conn : Env (Manager S) C) (describe : Types.Error → Ws.Error) where
    connect_ready-Hangs :
        (again : Client S C → Ran (Client S C)) (c : Client S C)
        → Hangs again
        → IsStale c
        → connect_ready env conn describe again c ≡ runs_on
    unfolding get_authenticate_url
    connect_ready-Hangs again c h stale = rw (get_token-Hangs again c h stale) refl

    connect-Hangs :
        (again : Client S C → Ran (Client S C)) (c : Client S C)
        → HasKeyOnly env
        → Hangs again
        → IsStale c
        → connect env conn describe again c ≡ runs_on
    unfolding connect
    connect-Hangs again c key h stale = ground (
      arith,
      authenticate-none again (emit (connecting 1) c) key,
      connect_ready-Hangs again (emit (connecting 1) c) h stale,
    )

    -- With an API key as its only credentials and a token that has expired but was not cleared, a
    -- call of `Connect` never returns, however deep it nests: `GetToken` emits the event before it
    -- clears the token, and the listener calls `Connect` for the same token.
    pub call-runs_on :
        (n : ℕ) (c : Client S C) → HasKeyOnly env → IsStale c → call env conn describe n c ≡ runs_on
    unfolding call
    call-runs_on zero c key stale = refl
    call-runs_on (suc n) c key stale =
        rw (connect-Hangs (call env conn describe n) c key (λ d. call-runs_on n d key) stale) refl
