-- ===== src/Session/Bounded.antt =====
-- How many requests a call of `Connect` makes (auth/manager.go, connection/connection.go).
use qpub_go.Prelude.{
  ℕ, suc, ◌+◌, ◌≤◌, ◌≡◌, ◌⊎◌, inl, inr, refl, ap, arith, length, false, Bool-cases,
}
use qpub_go.Prelude.Text.{Text}
use qpub_go.Ws
use qpub_go.Auth.Types
use qpub_go.Auth.Types.{Manager}
use qpub_go.Auth.Authenticate
use qpub_go.Auth.Authenticate.{Outcome, response, failed, panic, allowed}
use qpub_go.Auth.Attempts.{authenticate-posts}
use qpub_go.Connection.Types.{Env, Conn, connecting}
use qpub_go.Connection.Ops.{connect_url, connect_opened, start_read_loop, cancel, emit}
use qpub_go.Session.{Ran, returns, panics, runs_on, ◌>>=◌, Client}
use qpub_go.Session.Tokens.{get_authenticate_url}
use qpub_go.Session.Authenticate.{Reply, authenticate}
use qpub_go.Session.Calls.{connect_authenticated, connect}
use qpub_go.Session.Replies.{IsLasting, IsDone}
use qpub_go.Session.Returns.{Asks, authenticate-IsDone, get_token-IsUsable}
use qpub_go.Session.Agrees.{lift, authenticate-lift}

connect_url-auth :
    {A C : Type 0} (conn : Env A C) (r : (Ws.Error ⊎ Text) × A) (c : Conn A C)
    → (connect_url conn r c).1.auth ≡ r.1
unfolding connect_opened start_read_loop cancel
connect_url-auth conn (inl e, a) c = refl
connect_url-auth conn (inr url, a) c = ground arith

module _ {S C : Type 0} (env : Types.Env S) (again : Client S C → Ran (Client S C)) where
  -- The call ends, and if it returns, so many requests have been made at most.
  abbrev pub Posts : {A : Type 0} → ℕ → Ran (A × Client S C) → Type 0
  Posts k (returns (a, c)) = length c.auth.posts ≤ k
  Posts k panics = Unit
  Posts k runs_on = ⊥

  lift-Posts :
      (k : ℕ) (c : Client S C) (r : Outcome × Manager S)
      → length r.1.posts ≤ k
      → Posts k (lift env again c r)
  lift-Posts k c (response r, m) h = h
  lift-Posts k c (failed e, m) h = h
  lift-Posts k c (panic, m) h = tt

  authenticate-Posts :
      (retries : ℕ) (c : Client S C)
      → IsLasting env
      → Asks env retries
      → Posts (length c.auth.posts + suc (suc retries)) (authenticate env again c)
  authenticate-Posts retries c lasting asks = rw (authenticate-lift env again lasting c) (
      lift-Posts _ c (Authenticate.authenticate env c.auth)
        (omega (arith, authenticate-posts env c.auth, ap allowed asks.2)))

  module _ (conn : Env (Manager S) C) (describe : Types.Error → Ws.Error) where
    connect_authenticated-Posts :
        (k : ℕ) (r : Ran (Reply env again))
        → IsDone env again r
        → Posts k r
        → Posts k (r >>= connect_authenticated env conn describe again)
    unfolding get_authenticate_url
    connect_authenticated-Posts k panics done h = tt
    connect_authenticated-Posts k runs_on done h = elim done [ ]
    connect_authenticated-Posts k (returns (inl e, c)) done h = h
    connect_authenticated-Posts k (returns (inr r, c)) done h =
        rw (get_token-IsUsable env again c done, connect_url-auth) h

    -- With `AutoAuthenticate`, an `AuthURL`, a number of `AuthenticateRetries` that is not negative, a
    -- context that is never done and no `Reset` under way, and with a server of which each token that
    -- decodes has not expired and lasts for more than a minute: a call of `Connect` ends, whatever token
    -- the client has, expired or not; and if it returns it has made at most one request for each attempt
    -- that `AuthenticateRetries` allows, and one for a token request that the server may answer with.
    pub connect-Posts :
        (retries : ℕ) (c : Client S C)
        → IsLasting env
        → Asks env retries
        → c.auth.resetting ≡ false
        → Posts (length c.auth.posts + suc (suc retries)) (connect env conn describe again c)
    unfolding connect
    connect-Posts retries c lasting asks idle =
        let c' = emit (connecting 1) c in
        let k = length c.auth.posts + suc (suc retries) in
        let posts = authenticate-Posts retries c' lasting asks in
        elim (Bool-cases c.resetting) [
          | inl e ↦ rw e (omega arith)
          | inr e ↦ ground (
            arith,
            connect_authenticated-Posts k (authenticate env again c')
                (authenticate-IsDone env again retries c' lasting asks idle) posts,
            asks.0,
          )
        ]
