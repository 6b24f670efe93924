-- ===== src/Tests/Auth.antt =====
-- Inputs for the theorems about the auth manager.
use qpub_go.Prelude.{
  ℕ, suc, ◌+◌, ◌≤◌, pos, false, none, some, [], ◌∷◌, ◌++◌, ◌≡◌, ◌⊎◌, inl, inr, refl, length,
}
use qpub_go.Prelude.Text.{codes, is_empty}
use qpub_go.Options.{default_option}
use qpub_go.Jwt.Base64
use qpub_go.Jwt.Token.{Decoded, signed_header, decode, split, is_expired}
use qpub_go.Auth.Types.{Env, Manager}
use qpub_go.Auth.Tokens.{alias_header, get_token, get_auth_headers}
use qpub_go.Auth.Authenticate.{allowed, authenticate}
use qpub_go.Auth.Credentials.{get_auth_headers_lem}
use qpub_go.Auth.Attempts.{authenticate-posts}

abbrev decoded : Decoded
decoded = record {
  header = signed_header (codes "key");
  payload = record { alias = []; permission = none; exp = pos 1030 };
}

-- A server that always fails, at the second 1000.
abbrev pub env : Env ℕ
env = record {
  opts = record default_option { api_key = codes "a:b"; auth_url = codes "https://example.org" };
  codec = record {
    marshal_header = λ h. [];
    marshal_payload = λ p. [];
    unmarshal_header = λ b. some decoded.header;
    unmarshal_payload = λ b. some decoded.payload;
  };
  post = λ p s. (inl (codes "refused"), suc s);
  unmarshal_response = λ b. inl (codes "EOF");
  now = λ s. pos 1000000;
  aborted = λ s. false;
}

abbrev pub manager : Manager ℕ
manager = record {
  state = 0;
  current_token = [];
  refresh_timer = false;
  resetting = false;
  events = [];
  posts = [];
}

authenticate-posts_example :
    length (authenticate env manager).1.posts
    ≤ length manager.posts + suc (allowed env.opts.authenticate_retries)
authenticate-posts_example = authenticate-posts env manager

basic :
    (get_auth_headers env (λ s. s) manager).0
    ≡ inr ((codes "Authorization", codes "Basic a:b") ∷ alias_header env.opts.alias)
unfolding get_auth_headers get_token default_option
basic = refl

get_auth_headers_lem_example :
    let hs = (codes "Authorization", codes "Basic a:b") ∷ alias_header env.opts.alias in
    ((hs ≡ (codes "Authorization", codes "Bearer " ++ manager.current_token) ∷ [])
      × (is_empty manager.current_token ≡ false)
      × (is_expired env.codec (env.now manager.state) manager.current_token ≡ false)
      × ((get_auth_headers env (λ s. s) manager).1.current_token ≡ manager.current_token))
    ⊎ ((hs
          ≡ (codes "Authorization", codes "Basic " ++ env.opts.api_key)
            ∷ alias_header env.opts.alias)
        × (is_empty env.opts.api_key ≡ false)
        × ((get_auth_headers env (λ s. s) manager).1.current_token ≡ []))
get_auth_headers_lem_example =
    get_auth_headers_lem env (λ s. s) manager
      ((codes "Authorization", codes "Basic a:b") ∷ alias_header env.opts.alias) basic

-- A token that expires in thirty seconds.
readable : decode env.codec (codes "YWJj.YWJj") ≡ inr decoded
unfolding decode split Base64.base64_url_decode Base64.padded Base64.raw_url_decode
    Base64.without_breaks Base64.sextets_of Base64.sextet_of Base64.from_sextets
readable = refl
