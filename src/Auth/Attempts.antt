-- ===== src/Auth/Attempts.antt =====
-- How many requests `Authenticate` of auth/manager.go makes.
use qpub_go.Prelude.{
  ℕ, zero, suc, ◌+◌, ◌≤◌, Bool, Option, none, some, ◌≡◌, ◌⊎◌, inl, inr, refl, arith, length,
}
use qpub_go.Prelude.Text.{Text}
use qpub_go.Options.{AuthResponse, TokenRequest}
use qpub_go.Options.Itoa.{build_rest_base_url}
use qpub_go.Auth.Types.{Env, Manager}
use qpub_go.Auth.Tokens.{set_token, schedule_refresh, clear_token}
use qpub_go.Auth.Authenticate.{
  Outcome, response, failed, panic, post, auth_post, request_answered, auth_answered, requested,
  request_at, request_token, authenticated, authenticate_once, retry, exchange_request, retry_once,
  attempt, attempts, is_last, allowed, authenticate,
}

module _ {S : Type 0} (env : Env S) where
  abbrev posted : Outcome × Manager S → ℕ
  posted r = length r.1.posts

  set_token-posts :
      (token : Text) (m : Manager S) → length (set_token env token m).posts ≡ length m.posts
  unfolding set_token schedule_refresh clear_token
  set_token-posts token m = ground arith

  requested-posts :
      (r : Text ⊎ AuthResponse) (m : Manager S) → posted (requested env r m) ≡ length m.posts
  requested-posts (inl e) m = refl
  requested-posts (inr resp) m = ground (arith, set_token-posts resp.token m)

  authenticated-posts :
      (r : Text ⊎ AuthResponse) (m : Manager S) → posted (authenticated env r m) ≡ length m.posts
  authenticated-posts (inl e) m = refl
  authenticated-posts (inr resp) m = ground (arith, set_token-posts resp.token m)

  request_answered-posts :
      (r : (Text ⊎ Text) × Manager S) → posted (request_answered env r) ≡ length r.1.posts
  request_answered-posts (inl e, m) = refl
  request_answered-posts (inr b, m) = requested-posts (env.unmarshal_response b) m

  request_at-posts :
      (base : Option Text) (request : TokenRequest) (m : Manager S)
      → posted (request_at env base request m) ≤ suc (length m.posts)
  request_at-posts none request m = omega arith
  request_at-posts (some base) request m = omega (arith, request_answered-posts _)

  request_token-posts :
      (request : TokenRequest) (m : Manager S)
      → posted (request_token env request m) ≤ suc (length m.posts)
  unfolding request_token
  request_token-posts request m =
      ground (arith, request_at-posts (build_rest_base_url env.opts) request m)

  auth_answered-posts :
      (r : (Text ⊎ Text) × Manager S) → posted (auth_answered env r) ≡ length r.1.posts
  auth_answered-posts (inl e, m) = refl
  auth_answered-posts (inr b, m) = authenticated-posts (env.unmarshal_response b) m

  authenticate_once-posts :
      (m : Manager S) → posted (authenticate_once env m) ≤ suc (length m.posts)
  unfolding authenticate_once
  authenticate_once-posts m =
      ground
        (arith, auth_answered-posts (post env (auth_post env env.opts env.opts.auth_options) m))

  -- The loop that goes on makes so many requests more at most.
  abbrev Makes : ℕ → (Manager S → Outcome × Manager S) → Type 0
  Makes k again = (m : Manager S) → posted (again m) ≤ length m.posts + k

  retry-posts :
      (last : Bool) (k : ℕ) (again : Manager S → Outcome × Manager S) (r : Outcome × Manager S)
      → Makes k again
      → posted (retry env last again r) ≤ length r.1.posts + k
  retry-posts last k again (failed e, m) h = ground (arith, h m)
  retry-posts last k again (response r, m) h = omega arith
  retry-posts last k again (panic, m) h = omega arith

  exchange_request-posts :
      (resp : AuthResponse) (o : Option TokenRequest) (m : Manager S)
      → posted (exchange_request env resp o m) ≤ suc (length m.posts)
  exchange_request-posts resp none m = omega arith
  exchange_request-posts resp (some request) m = request_token-posts request m

  retry_once-posts :
      (last : Bool) (k : ℕ) (again : Manager S → Outcome × Manager S) (r : Outcome × Manager S)
      → Makes (suc k) again
      → posted (retry_once env last again r) ≤ length r.1.posts + suc k
  retry_once-posts last k again (failed e, m) h = ground (arith, h m)
  retry_once-posts last k again (response none, m) h = omega arith
  retry_once-posts last k again (response (some resp), m) h =
      omega (arith, exchange_request-posts resp resp.token_request m)
  retry_once-posts last k again (panic, m) h = omega arith

  attempt-posts :
      (o : Option TokenRequest) (last : Bool) (k : ℕ) (again : Manager S → Outcome × Manager S)
      → Makes (suc k) again
      → Makes (suc (suc k)) (attempt env o last again)
  attempt-posts none last k again h m =
      omega (
        arith,
        retry_once-posts last k again (authenticate_once env m) h,
        authenticate_once-posts m,
      )
  attempt-posts (some request) last k again h m = omega (
    arith,
    retry-posts last (suc k) again (request_token env request m) h,
    request_token-posts request m,
  )

  attempts-posts : (n : ℕ) → Makes (suc n) (attempts env n)
  unfolding attempts
  attempts-posts zero m = omega arith
  attempts-posts (suc n) m = ground (
    arith,
    attempt-posts env.opts.token_request (is_last n) n (attempts env n) (attempts-posts n) m,
  )

  -- `Authenticate` makes at most one request for each of its attempts, which are one more than
  -- `AuthenticateRetries` says, and one for the token request that a server may answer with; whatever
  -- the servers answer.
  pub authenticate-posts :
      (m : Manager S)
      → length (authenticate env m).1.posts
        ≤ length m.posts + suc (allowed env.opts.authenticate_retries)
  unfolding authenticate
  authenticate-posts m = ground (arith, attempts-posts (allowed env.opts.authenticate_retries) m)
