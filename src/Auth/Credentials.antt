-- ===== src/Auth/Credentials.antt =====
-- Which credentials a request carries, and which tokens the client keeps (auth/manager.go).
use qpub_go.Prelude.{false, [], ◌∷◌, ◌++◌, ◌≡◌, ◌⊎◌, inr, arith}
use qpub_go.Prelude.Text.{Text, codes, is_empty}
use qpub_go.Prelude.Dict.{Dict}
use qpub_go.Prelude.Duration.{exceeds}
use qpub_go.Jwt.Token.{Decoded, decode, is_expired}
use qpub_go.Auth.Types.{Env, Manager}
use qpub_go.Auth.Tokens.{
  refresh_time, alias_header, clear_token, schedule_refresh, set_token, is_authenticated, get_token,
  get_auth_headers,
}

module _ {S : Type 0} (env : Env S) where
  -- A bearer token in the headers of a request is the client's token, and it has not expired; without
  -- such a token the headers are those of the API key, and an expired token has been cleared.
  pub get_auth_headers_lem :
      (encode : Text → Text) (m : Manager S) (hs : Dict Text)
      → (get_auth_headers env encode m).0 ≡ inr hs
      → ((hs ≡ (codes "Authorization", codes "Bearer " ++ m.current_token) ∷ [])
          × (is_empty m.current_token ≡ false)
          × (is_expired env.codec (env.now m.state) m.current_token ≡ false)
          × ((get_auth_headers env encode m).1.current_token ≡ m.current_token))
        ⊎ ((hs
              ≡ (codes "Authorization", codes "Basic " ++ encode env.opts.api_key)
                ∷ alias_header env.opts.alias)
            × (is_empty env.opts.api_key ≡ false)
            × ((get_auth_headers env encode m).1.current_token ≡ []))
  unfolding get_auth_headers get_token clear_token
  get_auth_headers_lem encode m hs h = ground arith

  -- A token that decodes is kept exactly when it expires later than in a minute: `RequestToken` and
  -- `Authenticate` report a success for one that they lose at once.
  is_authenticated-set_token :
      (token : Text) (d : Decoded) (m : Manager S)
      → decode env.codec token ≡ inr d
      → is_empty token ≡ false
      → is_authenticated (set_token env token m)
        ≡ exceeds (refresh_time d.payload.exp) (env.now m.state)
  unfolding is_authenticated set_token schedule_refresh clear_token
  is_authenticated-set_token token d m h nonempty = rw (h) (ground arith)
