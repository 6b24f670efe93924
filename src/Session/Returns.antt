-- ===== src/Session/Returns.antt =====
-- What `Authenticate` (auth/manager.go) ends with where the server's tokens last.
use qpub_go.Prelude.{ℕ, zero, suc, ℤ, pos, Bool, true, false, Option, none, some, ◌≡◌, arith}
use qpub_go.Prelude.Text.{is_empty}
use qpub_go.Options.{TokenRequest}
use qpub_go.Auth.Types
use qpub_go.Auth.Types.{Manager}
use qpub_go.Auth.Authenticate.{allowed}
use qpub_go.Session.{Ran, returns, Client}
use qpub_go.Session.Tokens.{get_token}
use qpub_go.Session.Authenticate.{
  Reply, request_token, authenticate_once, attempt, attempts, authenticate,
}
use qpub_go.Session.Replies.{
  IsLasting, IsUsable, IsDone, Goes, request_token-IsDone, authenticate_once-IsTried, retry-IsDone,
  retry_once-IsDone,
}

-- `Authenticate` asks the server of `AuthURL`, and nothing stops it.
abbrev pub Asks : {S : Type 0} → Types.Env S → ℕ → Type 0
Asks {S} env retries =
    (env.opts.auto_authenticate ≡ true)
    × (is_empty env.opts.auth_url ≡ false)
    × (env.opts.authenticate_retries ≡ pos retries)
    × ((s : S) → env.aborted s ≡ false)

module _ {S C : Type 0} (env : Types.Env S) (again : Client S C → Ran (Client S C)) where
  attempt-IsDone :
      (o : Option TokenRequest) (last : Bool) (next : Client S C → Ran (Reply env again))
      (retries : ℕ) (c : Client S C)
      → IsLasting env
      → Asks env retries
      → Goes env again last next
      → IsDone env again (attempt env again o last next c)
  attempt-IsDone (some request) last next retries c lasting asks h =
      retry-IsDone env again lasting last next (request_token env again request c) h
        (request_token-IsDone env again lasting request c)
  attempt-IsDone none last next retries c lasting asks h =
      retry_once-IsDone env again lasting last next (authenticate_once env again c) asks.3 h
        (authenticate_once-IsTried env again lasting c asks.1)

  attempts-IsDone :
      (n retries : ℕ) (c : Client S C)
      → IsLasting env
      → Asks env retries
      → IsDone env again (attempts env again (suc n) c)
  unfolding attempts
  attempts-IsDone zero retries c lasting asks = rw (asks.3 c.auth.state) (
      attempt-IsDone env.opts.token_request true (attempts env again 0) retries c lasting asks
        (λ e. absurd (ground arith)))
  attempts-IsDone (suc n) retries c lasting asks = rw (asks.3 c.auth.state) (
      attempt-IsDone env.opts.token_request false (attempts env again (suc n)) retries c lasting
        asks (λ e d. attempts-IsDone n retries d lasting asks))

  attempts-allowed-IsDone :
      (z : ℤ) (retries : ℕ) (c : Client S C)
      → z ≡ pos retries
      → IsLasting env
      → Asks env retries
      → IsDone env again (attempts env again (allowed z) c)
  attempts-allowed-IsDone z retries c e lasting asks =
      rw e (attempts-IsDone retries retries c lasting asks)

  pub authenticate-IsDone :
      (retries : ℕ) (c : Client S C)
      → IsLasting env
      → Asks env retries
      → c.auth.resetting ≡ false
      → IsDone env again (authenticate env again c)
  unfolding authenticate
  authenticate-IsDone retries c lasting asks idle =
      ground
        (arith, attempts-allowed-IsDone env.opts.authenticate_retries retries c asks.2 lasting asks)

  pub get_token-IsUsable :
      (c : Client S C)
      → IsUsable env again c
      → get_token env again c ≡ returns (c.auth.current_token, c)
  unfolding get_token
  get_token-IsUsable c h = ground arith
