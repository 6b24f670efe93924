-- ===== src/Auth/Issue/Requested.antt =====
-- The token requests of `CreateTokenRequest` (auth/manager.go).
use qpub_go.Prelude.{Option, some, none, [], ◌∷◌, ◌≡◌, inr, refl, All}
use qpub_go.Prelude.Text.{Text}
use qpub_go.Prelude.Duration.{seconds}
use qpub_go.ApiKey.{Parsed, parse}
use qpub_go.Options.{TokenOptions, TokenRequest, Permission, or_text, or_pointer}
use qpub_go.Jwt.Base64.{std_decode, std_encode}
use qpub_go.Jwt.Digits.{IsByte}
use qpub_go.Crypto.{hmac_sign}
use qpub_go.Crypto.Decoding.{std_decode-std_encode}
use qpub_go.Auth.Types.{Env, Manager}
use qpub_go.Auth.Canonical.{build_canonical_string}
use qpub_go.Auth.Issue.{create_token_request}
use qpub_go.Auth.Issue.Generated.{parse-nonempty}

or_text-nil : (s : Text) → or_text s [] ≡ s
or_text-nil [] = refl
or_text-nil (c ∷ s) = refl

or_pointer-none : (o : Option Permission) → or_pointer o none ≡ o
or_pointer-none none = refl
or_pointer-none (some p) = refl

-- `CreateTokenRequest` gives a request for every key that can be parsed. It is for that key and the
-- present second, and what it says of itself is what was signed: its signature is the MAC under the
-- key's secret of the canonical string of its own fields.
pub create_token_request_lem :
    {S : Type 0} (env : Env S) (mac : Text → Text → Text) (quote : Text → Text)
    (opts : TokenOptions) (m : Manager S) (key : Parsed)
    → ((k s : Text) → All IsByte (mac k s))
    → parse env.opts.api_key ≡ some key
    → (r : TokenRequest) × (create_token_request env mac quote opts m ≡ inr r)
      × (r.aki ≡ key.public_id)
      × (r.timestamp ≡ seconds (env.now m.state))
      × (std_decode r.signature
          ≡ some (
              mac key.secret (build_canonical_string quote r.aki r.timestamp r.alias r.permission)))
unfolding create_token_request hmac_sign
create_token_request_lem env mac quote opts m key bytes parsed =
    let now = seconds (env.now m.state) in
    let text = build_canonical_string quote key.public_id now opts.alias opts.permission in
    let r : TokenRequest = record {
      aki = key.public_id;
      permission = or_pointer opts.permission none;
      alias = or_text opts.alias [];
      timestamp = now;
      signature = std_encode (mac key.secret text);
    } in
    (
      r,
      rw (parse-nonempty env.opts.api_key key parsed, parsed) refl,
      refl,
      refl,
      rw (or_text-nil opts.alias, or_pointer-none opts.permission)
          (std_decode-std_encode (mac key.secret text) (bytes key.secret text)),
    )
