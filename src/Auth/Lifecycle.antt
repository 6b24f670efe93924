-- ===== src/Auth/Lifecycle.antt =====
-- `NewManager`, `Reset` and the timer of `scheduleRefresh` (auth/manager.go).
use qpub_go.Prelude.{Option, none, some, [], false, true}
use qpub_go.Options.{TokenRequest}
use qpub_go.Auth.Types.{Env, Manager, token_expired}
use qpub_go.Auth.Tokens.{emit, clear_token}
use qpub_go.Auth.Authenticate.{request_token}

module _ {S : Type 0} where
  unfoldable pub new_manager : S → Manager S
  new_manager s = record {
    state = s;
    current_token = [];
    refresh_timer = false;
    resetting = false;
    events = [];
    posts = [];
  }

  abbrev requested_at_start : Env S → Option TokenRequest → Manager S → Manager S
  requested_at_start env none m = m
  requested_at_start env (some request) m = (request_token env request m).1

  -- The goroutine that `NewManager` starts where the options have a token request; the result of the
  -- call is dropped.
  unfoldable pub initial_request : Env S → Manager S → Manager S
  initial_request env m = requested_at_start env env.opts.token_request m

  -- What the timer runs when it fires.
  unfoldable pub refresh_due : Manager S → Manager S
  refresh_due m = clear_token (emit (token_expired none) m)

  -- `Reset` up to the new context: `resetting` is set while the old one is cancelled.
  unfoldable pub begin_reset : Manager S → Manager S
  begin_reset m = record m { resetting = true }

  -- The rest of it; the listeners, which it drops, are not in the state.
  unfoldable pub end_reset : Manager S → Manager S
  end_reset m = clear_token (record m { resetting = false })

  unfoldable pub reset : Manager S → Manager S
  reset m = end_reset (begin_reset m)
