-- ===== src/Tests/Values.antt =====
-- Inputs for the theorems about API keys, options, tokens and emitters.
use qpub_go.Prelude.{some, [], ◌∷◌, ◌++◌, ◌≡◌, ◌≢◌, ◌↔◌, pos, refl, none, Option}
use qpub_go.Prelude.Text.{Text, codes}
use qpub_go.Jwt.Base64.{to_sextets, base64_url_decode, base64_url_encode}
use qpub_go.Jwt.Base64
use qpub_go.Jwt.Token.{Payload, Codec, dot, signed_header, to_sign, sign}
use qpub_go.ApiKey.{colon, parse}
use qpub_go.ApiKey.Laws.{Lacks, parse_iff}

parse_iff_example :
    (parse (codes "id:secret") ≡ some (record { public_id = codes "id"; secret = codes "secret" }))
    ↔ ((codes "id:secret" ≡ codes "id" ++ colon ∷ codes "secret")
        × (codes "id" ≢ [])
        × (codes "secret" ≢ [])
        × Lacks colon (codes "id")
        × Lacks colon (codes "secret"))
parse_iff_example =
    parse_iff (codes "id:secret") (record { public_id = codes "id"; secret = codes "secret" })

-- Two bytes whose first digit is an underscore.
abbrev two_bytes : Text
two_bytes = 255 ∷ 0 ∷ []

unread : base64_url_decode (base64_url_encode two_bytes) ≡ none
unfolding base64_url_decode base64_url_encode Base64.padded Base64.raw_url_decode
    Base64.raw_url_encode Base64.std_decode to_sextets Base64.char_of Base64.sextets_of
    Base64.sextet_of Base64.without_breaks Base64.decode_quads Base64.last_quad
unread = refl

abbrev payload : Payload
payload = record { alias = codes "ann"; permission = none; exp = pos 2000 }

-- A codec for one header and one payload.
abbrev codec : Codec
codec = record {
  marshal_header = λ h. codes "{}";
  marshal_payload = λ p. codes "{?}";
  unmarshal_header = λ b. some (signed_header (codes "key"));
  unmarshal_payload = λ b. some payload;
}

abbrev hmac_sign : Text → Text → Option Text
hmac_sign text secret = some (codes "c2ln")

-- `sig` is what "c2ln" encodes.
abbrev signed : Text
signed = to_sign codec payload (codes "key") ++ (dot ∷ base64_url_encode (codes "sig"))

sign_lem : sign codec hmac_sign payload (codes "key") (codes "secret") ≡ some signed
unfolding sign Base64.std_decode Base64.without_breaks Base64.decode_quads Base64.sextets_of
    Base64.sextet_of Base64.from_sextets
sign_lem = refl
