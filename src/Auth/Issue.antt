-- ===== src/Auth/Issue.antt =====
-- `GenerateToken`, `IssueToken` and `CreateTokenRequest` of auth/manager.go, over the MAC and the
-- JSON of strings. The context that the first and the last take is not used.
pub mod Generated
pub mod Requested
pub mod Issued
use qpub_go.Prelude.{
  ℤ, pos, Option, none, some, [], ◌∷◌, ◌++◌, ◌⊎◌, inl, inr, if◌then◌else◌, is_zero,
}
use qpub_go.Prelude.Text.{Text, codes, is_empty}
use qpub_go.Prelude.Duration.{plus, seconds}
use qpub_go.ApiKey.{Parsed, parse}
use qpub_go.Options.{TokenOptions, TokenRequest, or_text, or_pointer}
use qpub_go.Options.Itoa.{build_rest_base_url}
use qpub_go.Jwt.Base64.{std_encode}
use qpub_go.Jwt.Token.{DecodeError, Decoded, Payload, decode, sign}
use qpub_go.Crypto.{hmac_sign}
use qpub_go.Auth.Types.{
  Env, Manager, Error, missing_key, bad_key, not_signed, token_not_found, http_error, json_error,
  bad_token, options_body,
}
use qpub_go.Auth.Authenticate.{post}
use qpub_go.Auth.Canonical.{build_canonical_string}

-- The lifetime in seconds, an hour where none is given.
abbrev pub lifetime : ℤ → ℤ
lifetime expires_in = if is_zero expires_in then pos 3600 else expires_in

abbrev pub token_payload : TokenOptions → ℤ → Payload
token_payload opts now = record {
  alias = or_text opts.alias [];
  permission = or_pointer opts.permission none;
  exp = plus now (lifetime opts.expires_in);
}

abbrev token_or_error : Option Text → Error ⊎ Text
token_or_error none = inl not_signed
token_or_error (some token) = inr token

module _ {S : Type 0} (env : Env S) (mac : Text → Text → Text) where
  abbrev pub generate_for : TokenOptions → ℤ → Option Parsed → Error ⊎ Text
  generate_for opts now none = inl bad_key
  generate_for opts now (some key) =
      token_or_error
        (sign env.codec (hmac_sign mac) (token_payload opts now) key.public_id key.secret)

  unfoldable pub generate_token : TokenOptions → Manager S → Error ⊎ Text
  generate_token opts m =
      if is_empty env.opts.api_key
      then inl missing_key
      else generate_for opts (seconds (env.now m.state)) (parse env.opts.api_key)

  abbrev pub signed_request : TokenOptions → ℤ → Parsed → Option Text → Error ⊎ TokenRequest
  signed_request opts now key none = inl not_signed
  signed_request opts now key (some signature) = inr (record {
    aki = key.public_id;
    permission = or_pointer opts.permission none;
    alias = or_text opts.alias [];
    timestamp = now;
    signature = signature;
  })

  abbrev pub request_for : (Text → Text) → TokenOptions → ℤ → Option Parsed → Error ⊎ TokenRequest
  request_for quote opts now none = inl bad_key
  request_for quote opts now (some key) = signed_request opts now key (
      hmac_sign mac (build_canonical_string quote key.public_id now opts.alias opts.permission)
        key.secret)

  unfoldable pub create_token_request :
      (Text → Text) → TokenOptions → Manager S → Error ⊎ TokenRequest
  create_token_request quote opts m =
      if is_empty env.opts.api_key
      then inl missing_key
      else request_for quote opts (seconds (env.now m.state)) (parse env.opts.api_key)

-- The result is `none` where the base URL panics. `unmarshal_token` reads the field `token`.
module _ {S : Type 0} (env : Env S) (unmarshal_token : Text → Text ⊎ Text) where
  abbrev pub checked : Text → DecodeError ⊎ Decoded → Error ⊎ Text
  checked token (inl e) = inl (bad_token e)
  checked token (inr d) = inr token

  abbrev pub read_token : Text ⊎ Text → Error ⊎ Text
  read_token (inl e) = inl (json_error e)
  read_token (inr token) =
      if is_empty token then inl token_not_found else checked token (decode env.codec token)

  abbrev pub issued : (Text ⊎ Text) × Manager S → Option (Error ⊎ Text) × Manager S
  issued (inl e, m) = (some (inl (http_error e)), m)
  issued (inr body, m) = (some (read_token (unmarshal_token body)), m)

  abbrev pub issue_at :
      TokenOptions → Parsed → Option Text → Manager S → Option (Error ⊎ Text) × Manager S
  issue_at opts key none m = (none, m)
  issue_at opts key (some base) m = issued (
      post env
        (record {
          url = base ++ (codes "/key/" ++ key.public_id ++ codes "/token/issue");
          body = options_body opts;
          headers = (codes "Authorization", codes "Basic " ++ std_encode env.opts.api_key) ∷ [];
        })
        m)

  abbrev pub issue_for :
      TokenOptions → Option Parsed → Manager S → Option (Error ⊎ Text) × Manager S
  issue_for opts none m = (some (inl bad_key), m)
  issue_for opts (some key) m = issue_at opts key (build_rest_base_url env.opts) m

  unfoldable pub issue_token : TokenOptions → Manager S → Option (Error ⊎ Text) × Manager S
  issue_token opts m =
      if is_empty env.opts.api_key
      then (some (inl missing_key), m)
      else issue_for opts (parse env.opts.api_key) m
