-- ===== src/Jwt/Token.antt =====
-- `Decode`, `IsExpired` and `Sign` of internal/jwt/jwt.go, over the JSON codec and the HMAC of
-- internal/crypto/hmac.go.
use qpub_go.Prelude.{
  ℕ, ◌*◌, ◌-◌, ℤ, pos, negsuc, suc, Bool, true, not, ◌||◌, Option, none, some, List, [], ◌∷◌, ◌++◌,
  ◌==◌, ◌⊎◌, inl, inr, if◌then◌else◌, is_zero,
}
use qpub_go.Prelude.Text.{Text, codes, is_empty}
use qpub_go.Prelude.Duration.{wrap, exceeds}
use qpub_go.Options.{Permission}
use qpub_go.Jwt.Base64.{base64_url_decode, base64_url_encode, std_decode}

pub record Header : Type 0 where
  pub alg : Text
  pub typ : Text
  pub aki : Text

pub record Payload : Type 0 where
  pub alias : Text
  pub permission : Option Permission
  pub exp : ℤ

pub record Decoded : Type 0 where
  pub header : Header
  pub payload : Payload

-- The errors of `Decode`.
pub data DecodeError : Type 0 where
  invalid_format missing_fields : DecodeError

-- `encoding/json` on the two structs; marshalling them does not fail.
pub record Codec : Type 0 where
  pub marshal_header : Header → Text
  pub marshal_payload : Payload → Text
  pub unmarshal_header : Text → Option Header
  pub unmarshal_payload : Text → Option Payload

abbrev pub dot : ℕ
dot = b'.'

abbrev to_first : ℕ → List Text → List Text
to_first c [] = (c ∷ []) ∷ []
to_first c (p ∷ ps) = (c ∷ p) ∷ ps

-- `strings.Split(s, ".")`
unfoldable pub split : Text → List Text
split [] = [] ∷ []
split (c ∷ s) = let rest = split s in if c == dot then [] ∷ rest else to_first c rest

abbrev checked : Header → Payload → DecodeError ⊎ Decoded
checked h p =
    if is_empty h.aki || is_zero p.exp
    then inl missing_fields
    else inr (record { header = h; payload = p })

abbrev unmarshalled : Option Header → Option Payload → DecodeError ⊎ Decoded
unmarshalled none p = inl invalid_format
unmarshalled (some h) none = inl invalid_format
unmarshalled (some h) (some p) = checked h p

abbrev pub decode_bytes : Codec → Option Text → Option Text → DecodeError ⊎ Decoded
decode_bytes codec none pb = inl invalid_format
decode_bytes codec (some hb) none = inl invalid_format
decode_bytes codec (some hb) (some pb) =
    unmarshalled (codec.unmarshal_header hb) (codec.unmarshal_payload pb)

abbrev pub decode_parts : Codec → List Text → DecodeError ⊎ Decoded
decode_parts codec [] = inl invalid_format
decode_parts codec (h ∷ []) = inl invalid_format
decode_parts codec (h ∷ p ∷ rest) = decode_bytes codec (base64_url_decode h) (base64_url_decode p)

unfoldable pub decode : Codec → Text → DecodeError ⊎ Decoded
decode codec token = decode_parts codec (split token)

abbrev thousandfold : ℤ → ℤ
thousandfold (pos n) = wrap (pos (n * 1000))
thousandfold (negsuc n) = wrap (negsuc (suc n * 1000 - 1))

-- The time is in milliseconds.
unfoldable pub is_expired : Codec → ℤ → Text → Bool
is_expired codec now token = elim (decode codec token) [
  | inl e ↦ true
  | inr d ↦ not (exceeds (thousandfold d.payload.exp) now)
]

abbrev pub signed_header : Text → Header
signed_header public_id = record { alg = codes "HS256"; typ = codes "JWT"; aki = public_id }

abbrev pub to_sign : Codec → Payload → Text → Text
to_sign codec payload public_id =
    base64_url_encode (codec.marshal_header (signed_header public_id))
    ++ (dot ∷ base64_url_encode (codec.marshal_payload payload))

abbrev pub with_signature : Text → Option Text → Option Text
with_signature text none = none
with_signature text (some bytes) = some (text ++ (dot ∷ base64_url_encode bytes))

abbrev pub sign_with : Text → Option Text → Option Text
sign_with text none = none
sign_with text (some sig) = with_signature text (std_decode sig)

-- `HMACSign` gives the signature of a text under a secret in the standard alphabet, or an error.
unfoldable pub sign : Codec → (Text → Text → Option Text) → Payload → Text → Text → Option Text
sign codec hmac_sign payload public_id secret =
    let text = to_sign codec payload public_id in sign_with text (hmac_sign text secret)
