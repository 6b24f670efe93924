-- ===== src/Auth/Tokens.antt =====
-- The token and the credentials: `setToken`, `scheduleRefresh`, `ClearToken`, `GetToken`,
-- `GetAuthHeaders` and `GetAuthQueryParams` of auth/manager.go.
use qpub_go.Prelude.{
  ℕ, ◌+◌, ◌-◌, ◌*◌, ℤ, pos, negsuc, suc, Bool, true, false, not, ◌||◌, ◌==◌, Option, none, some, [],
  ◌∷◌, ◌++◌, ◌⊎◌, inl, inr, leb, if◌then◌else◌,
}
use qpub_go.Prelude.Text.{Text, codes, is_empty}
use qpub_go.Prelude.Dict.{Dict}
use qpub_go.Prelude.Url.{query_escape}
use qpub_go.Prelude.Duration.{exceeds}
use qpub_go.Options.{Options}
use qpub_go.Jwt.Token.{DecodeError, Decoded, decode, is_expired}
use qpub_go.Auth.Types.{Env, Manager, Error, Event, no_credentials, token_updated, token_expired}

-- The time of a refresh, a minute before the expiry, in milliseconds; the sums of `time.Time` do not
-- wrap around in the range of dates.
abbrev pub refresh_time : ℤ → ℤ
refresh_time (pos n) = if leb 60 n then pos ((n - 60) * 1000) else negsuc ((60 - n) * 1000 - 1)
refresh_time (negsuc n) = negsuc ((suc n + 60) * 1000 - 1)

abbrev pub expiry : DecodeError ⊎ Decoded → Option ℤ
expiry (inl e) = none
expiry (inr d) = if exceeds d.payload.exp (pos 0) then some d.payload.exp else none

abbrev pub alias_header : Text → Dict Text
alias_header alias = if is_empty alias then [] else (codes "X-Alias", alias) ∷ []

abbrev alias_query : Text → Text
alias_query alias = if is_empty alias then [] else codes "&alias=" ++ query_escape alias

-- `strings.Contains` of a text of one byte.
unfoldable pub contains : ℕ → Text → Bool
contains c [] = false
contains c (d ∷ s) = (d == c) || contains c s

module _ {S : Type 0} where
  abbrev pub emit : Event → Manager S → Manager S
  emit e m = record m { events = e ∷ m.events }

  unfoldable pub clear_token : Manager S → Manager S
  clear_token m = record m { current_token = []; refresh_timer = false }

  abbrev refresh : ℤ → DecodeError ⊎ Decoded → Manager S → Manager S
  refresh now (inl e) m = m
  refresh now (inr d) m =
      if exceeds (refresh_time d.payload.exp) now
      then record m { refresh_timer = true }
      else clear_token (emit (token_expired none) m)

  -- A timer that is set is stopped, and stays in its field.
  unfoldable pub schedule_refresh : Env S → Text → Manager S → Manager S
  schedule_refresh env token m = refresh (env.now m.state) (decode env.codec token) m

  unfoldable pub set_token : Env S → Text → Manager S → Manager S
  set_token env token m =
      let m' = record m { current_token = token } in
      schedule_refresh env token (emit (token_updated token (expiry (decode env.codec token))) m')

  unfoldable pub is_authenticated : Manager S → Bool
  is_authenticated m = not (is_empty m.current_token)

  unfoldable pub get_current_token : Manager S → Text
  get_current_token m = m.current_token

  unfoldable pub should_auto_authenticate : Env S → Bool
  should_auto_authenticate env = env.opts.auto_authenticate

  -- The token, or the empty text.
  unfoldable pub get_token : Env S → Manager S → Text × Manager S
  get_token env m =
      let token = m.current_token in
      if is_empty token
      then ([], m)
      else if is_expired env.codec (env.now m.state) token
      then ([], clear_token (emit (token_expired (some token)) m))
      else (token, m)

  -- `encode` is the standard base64.
  abbrev pub headers_for :
      (Text → Text) → Options → Text × Manager S → (Error ⊎ Dict Text) × Manager S
  headers_for encode o ([], m) = if is_empty o.api_key then (inl no_credentials, m) else (
    inr ((codes "Authorization", codes "Basic " ++ encode o.api_key) ∷ alias_header o.alias),
    m,
  )
  headers_for encode o (c ∷ token, m) =
      (inr ((codes "Authorization", codes "Bearer " ++ (c ∷ token)) ∷ []), m)

  unfoldable pub get_auth_headers :
      Env S → (Text → Text) → Manager S → (Error ⊎ Dict Text) × Manager S
  get_auth_headers env encode m = headers_for encode env.opts (get_token env m)

  abbrev pub query_for : Options → Text × Manager S → (Error ⊎ Text) × Manager S
  query_for o ([], m) =
      if is_empty o.api_key
      then (inl no_credentials, m)
      else (inr (codes "api_key=" ++ query_escape o.api_key ++ alias_query o.alias), m)
  query_for o (c ∷ token, m) = (inr (codes "access_token=" ++ query_escape (c ∷ token)), m)

  unfoldable pub get_auth_query_params : Env S → Manager S → (Error ⊎ Text) × Manager S
  get_auth_query_params env m = query_for env.opts (get_token env m)

  abbrev pub with_query : Text → (Error ⊎ Text) × Manager S → (Error ⊎ Text) × Manager S
  with_query base (inl e, m) = (inl e, m)
  with_query base (inr q, m) =
      (inr (base ++ ((if contains b'?' base then codes "&" else codes "?") ++ q)), m)

  unfoldable pub get_authenticate_url : Env S → Text → Manager S → (Error ⊎ Text) × Manager S
  get_authenticate_url env base m = with_query base (get_auth_query_params env m)
