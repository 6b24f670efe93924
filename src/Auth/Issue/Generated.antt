-- ===== src/Auth/Issue/Generated.antt =====
-- The tokens of `GenerateToken` and `IssueToken` (auth/manager.go).
use qpub_go.Prelude.{
  ℤ, false, ◌&&◌, some, [], ◌∷◌, ◌++◌, ◌≡◌, inl, inr, refl, arith, if◌then◌else◌, All, is_zero,
  none≢some,
}
use qpub_go.Prelude.Text.{Text, is_empty}
use qpub_go.Prelude.Duration.{plus, seconds}
use qpub_go.ApiKey.{Parsed, parse, find_separator, split_at}
use qpub_go.Options.{TokenOptions}
use qpub_go.Jwt.Base64.{base64_url_encode}
use qpub_go.Jwt.Digits.{IsByte}
use qpub_go.Jwt.Token.{invalid_format, decode, signed_header, to_sign, dot}
use qpub_go.Jwt.Signing.{is_readable, decode-sign}
use qpub_go.Crypto.{hmac_sign}
use qpub_go.Crypto.Decoding.{sign-hmac_sign}
use qpub_go.Auth.Types.{Env, Manager}
use qpub_go.Auth.Issue.{lifetime, token_payload, generate_token}

-- A key that can be parsed is not empty.
pub parse-nonempty : (s : Text) (key : Parsed) → parse s ≡ some key → is_empty s ≡ false
unfolding parse find_separator split_at
parse-nonempty [] key h = absurd (none≢some h)
parse-nonempty (c ∷ s) key h = refl

-- The payload of a generated token carries the alias and the permission as they were given.
token_payload-alias : (opts : TokenOptions) (now : ℤ) → (token_payload opts now).alias ≡ opts.alias
token_payload-alias opts now = ground arith

-- `GenerateToken` gives a token for every key that can be parsed, and `Decode` reads in it the public
-- id of that key, the alias and the permission of the options, and the expiry: the present second
-- and the lifetime that was asked for, or an hour. The texts that `Decode` cannot read are those of
-- `Sign`; the expiry must not be zero, nor the public id empty.
pub decode-generate_token :
    {S : Type 0} (env : Env S) (mac : Text → Text → Text) (opts : TokenOptions) (m : Manager S)
    (key : Parsed)
    → let now = seconds (env.now m.state) in
      let header = env.codec.marshal_header (signed_header key.public_id) in
      let payload = env.codec.marshal_payload (token_payload opts now) in
      env.codec.unmarshal_header header ≡ some (signed_header key.public_id)
      → env.codec.unmarshal_payload payload ≡ some (token_payload opts now)
      → All IsByte header
      → All IsByte payload
      → ((k s : Text) → All IsByte (mac k s))
      → parse env.opts.api_key ≡ some key
      → is_empty key.public_id ≡ false
      → is_zero (plus now (lifetime opts.expires_in)) ≡ false
      → (token : Text) × (generate_token env mac opts m ≡ inr token)
        × (decode env.codec token ≡ (
            if is_readable header && is_readable payload
            then inr
                (record { header = signed_header key.public_id; payload = token_payload opts now })
            else inl invalid_format))
unfolding generate_token
decode-generate_token env mac opts m key eh ep bh bp bytes parsed id exp =
    let p = token_payload opts (seconds (env.now m.state)) in
    let text = to_sign env.codec p key.public_id in
    let token = text ++ (dot ∷ base64_url_encode (mac key.secret text)) in
    let signed = sign-hmac_sign mac env.codec p key.public_id key.secret (bytes key.secret text) in
    (
      token,
      rw (parse-nonempty env.opts.api_key key parsed, parsed, signed) refl,
      decode-sign env.codec (hmac_sign mac) p key.public_id key.secret token eh ep bh bp id exp
          signed,
    )
