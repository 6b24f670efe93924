-- ===== src/Rest/Carried.antt =====
-- The credentials in the headers of a request: `GetAuthHeaders` of auth/manager.go, and the headers
-- that `doJSON` of transport/httpclient/client.go sends.
use qpub_go.Prelude.{
  false, none, some, [], ◌∷◌, ◌++◌, ◌≡◌, ◌⊎◌, inl, inr, refl, arith, if◌then◌else◌, sym, ap,
}
use qpub_go.Prelude.Text.{Text, codes, is_empty, same}
use qpub_go.Prelude.Dict.{Dict, lookup, insert}
use qpub_go.Jwt.Base64.{std_encode}
use qpub_go.Jwt.Token.{is_expired}
use qpub_go.Auth.Types
use qpub_go.Auth.Types.{Env, Manager}
use qpub_go.Auth.Tokens.{alias_header, clear_token, get_token, get_auth_headers}
use qpub_go.Auth.Credentials.{get_auth_headers_lem}
use qpub_go.Transport.{Library, canonical, set_all, json_type}

module _ {S : Type 0} (lib : Library S) (env : Env S) where
  -- The headers of the client's token, if it has not expired, or else of the API key and the alias.
  abbrev pub Authorized : Manager S → Dict Text → Type 0
  Authorized m hs =
      ((is_empty m.current_token ≡ false)
        × (is_expired env.codec (env.now m.state) m.current_token ≡ false)
        × (lookup (codes "Authorization") hs ≡ some (codes "Bearer " ++ m.current_token)))
      ⊎ ((is_empty env.opts.api_key ≡ false)
          × (lookup (codes "Authorization") hs
              ≡ some (codes "Basic " ++ std_encode env.opts.api_key))
          × (lookup (codes "X-Alias") hs
              ≡ (if is_empty env.opts.alias then none else some env.opts.alias)))

  abbrev pub posted : Dict Text → Dict Text
  posted hs = set_all hs (json_type lib (some []))

  abbrev pub Carried : Manager S → Dict Text → Type 0
  Carried m hs =
      Authorized m hs × (lookup (codes "Content-Type") hs ≡ some (codes "application/json"))

  bearer_lem :
      (v : Text) (m : Manager S)
      → is_empty m.current_token ≡ false
      → is_expired env.codec (env.now m.state) m.current_token ≡ false
      → v ≡ codes "Bearer " ++ m.current_token
      → Carried m (posted ((codes "Authorization", v) ∷ []))
  unfolding set_all lookup insert canonical same
  bearer_lem v m h g e = (inl (h, g, ap some e), refl)

  basic_lem :
      (alias : Text) (m : Manager S)
      → alias ≡ env.opts.alias
      → is_empty env.opts.api_key ≡ false
      → Carried m (
          posted (
            (codes "Authorization", codes "Basic " ++ std_encode env.opts.api_key)
            ∷ alias_header alias))
  unfolding set_all lookup insert canonical same
  basic_lem [] m e h = (inr (h, refl, rw (sym e) refl), refl)
  basic_lem (c ∷ s) m e h = (inr (h, refl, rw (sym e) refl), refl)

  pub state_kept : (m : Manager S) → (get_auth_headers env std_encode m).1.state ≡ m.state
  unfolding get_auth_headers get_token clear_token
  state_kept m = ground arith

  abbrev pub Granted : Manager S → Types.Error ⊎ Dict Text → Type 0
  Granted m (inl e) = Unit
  Granted m (inr hs) = Carried m (posted hs)

  pub headers-Granted :
      (m : Manager S) (x : Types.Error ⊎ Dict Text)
      → (get_auth_headers env std_encode m).0 ≡ x
      → Granted m x
  headers-Granted m (inl e) h = tt
  headers-Granted m (inr hs) h = elim (get_auth_headers_lem env std_encode m hs h) [
    | inl (e, nonempty, fresh, kept) ↦ rw e (bearer_lem _ m nonempty fresh refl)
    | inr (e, keyed, cleared) ↦ rw e (basic_lem env.opts.alias m refl keyed)
  ]
