-- ===== src/Session/Calls.antt =====
-- `Connect` of connection/connection.go over the auth manager, and the calls of it that the listener
-- makes.
use qpub_go.Prelude.{ℕ, zero, suc, Option, none, some, ◌⊎◌, inl, inr, if◌then◌else◌}
use qpub_go.Prelude.Text.{Text}
use qpub_go.Ws
use qpub_go.Auth.Types
use qpub_go.Auth.Types.{Manager}
use qpub_go.Connection.Types.{Env, connecting}
use qpub_go.Connection.Ops.{emit, first_failure, connect_url, ws_base}
use qpub_go.Session.{Ran, runs_on, pure, ◌>>=◌, Client}
use qpub_go.Session.Tokens.{get_authenticate_url}
use qpub_go.Session.Authenticate.{Reply, authenticate}

-- The WebSocket library and the channel manager are those of `conn`, whose own auth manager is not
-- used; `describe` is an error of the auth manager as the connection passes it on.
module _ {S C : Type 0} (env : Types.Env S) (conn : Env (Manager S) C)
    (describe : Types.Error → Ws.Error) where
  abbrev described : Types.Error ⊎ Text → Ws.Error ⊎ Text
  described (inl e) = inl (describe e)
  described (inr url) = inr url

  module _ (again : Client S C → Ran (Client S C)) where
    abbrev pub connect_ready : Client S C → Ran (Option Ws.Error × Client S C)
    connect_ready c = do
      (url, c') ← get_authenticate_url env again (ws_base env.opts) c
      pure (connect_url (record conn { opts = env.opts }) (described url, c'.auth) c')

    abbrev pub connect_authenticated : Reply env again → Ran (Option Ws.Error × Client S C)
    connect_authenticated (inl e, c) = pure (some (describe e), emit (first_failure (describe e)) c)
    connect_authenticated (inr r, c) = connect_ready c

    unfoldable pub connect : Client S C → Ran (Option Ws.Error × Client S C)
    connect c =
        if c.resetting
        then pure (none, c)
        else let c' = emit (connecting 1) c in
          if env.opts.auto_authenticate
          then authenticate env again c' >>= connect_authenticated
          else connect_ready c'

  -- A call with at most so many calls of `Connect` in one another; its error is dropped.
  unfoldable pub call : ℕ → Client S C → Ran (Client S C)
  call zero c = runs_on
  call (suc n) c = do (e, c') ← connect (call n) c; pure c'
