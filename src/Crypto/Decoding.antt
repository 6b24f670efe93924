-- ===== src/Crypto/Decoding.antt =====
-- A signature of `HMACSign` (internal/crypto/hmac.go) can be decoded, so `Sign` of internal/jwt/jwt.go
-- gives a token.
use qpub_go.Prelude.{ℕ, ◌%◌, ◌*◌, ◌<◌, false, some, [], ◌∷◌, ◌++◌, ◌==◌, ◌≡◌, refl, arith, map, All}
use qpub_go.Prelude.Text.{Text}
use qpub_go.Jwt.Base64.{
  char_of, to_sextets, sextets_of, bytes_of, pad, last_quad, decode_quads, std_decode, std_encode,
  repeat_pad, padding, base64_url_encode,
}
use qpub_go.Jwt.Digits.{
  IsByte, char_of-ne, to_sextets-IsSextet, from_sextets-to_sextets, sextets_of-chars,
  without_breaks-chars,
}
use qpub_go.Jwt.Token.{Codec, Payload, dot, to_sign, sign}
use qpub_go.Crypto.{hmac_sign}

char_of-pad : (v : ℕ) → v < 64 → (char_of false v == pad) ≡ false
char_of-pad v h = let ne = char_of-ne false v h in ground arith

bytes-chars :
    (b : Text)
    → All IsByte b
    → bytes_of (sextets_of false (map (char_of false) (to_sextets b))) ≡ some b
bytes-chars b h =
    rw (sextets_of-chars false (to_sextets b) (to_sextets-IsSextet b h))
      (from_sextets-to_sextets b h)

decode_quads-chars :
    (b : Text)
    → All IsByte b
    → decode_quads (map (char_of false) (to_sextets b) ++ repeat_pad (padding b)) ≡ some b
unfolding decode_quads to_sextets last_quad
decode_quads-chars [] h = refl
decode_quads-chars (x ∷ []) h = bytes-chars (x ∷ []) h
decode_quads-chars (x ∷ y ∷ []) h =
    let vs = to_sextets-IsSextet (x ∷ y ∷ []) h in
    rw (char_of-pad (y % 16 * 4) vs.1.1.0) (bytes-chars (x ∷ y ∷ []) h)
decode_quads-chars (x ∷ y ∷ z ∷ rest) h =
    let quad = (x ∷ y ∷ z ∷ []) in
    let IsQuad : All IsByte quad = (h.0, (h.1.0, (h.1.1.0, tt))) in
    let vs = to_sextets-IsSextet quad IsQuad in
    rw (char_of-pad (z % 64) vs.1.1.1.0, bytes-chars quad IsQuad, decode_quads-chars rest h.1.1.1)
      refl

-- The standard base64 of bytes decodes to them.
pub std_decode-std_encode : (b : Text) → All IsByte b → std_decode (std_encode b) ≡ some b
unfolding std_decode std_encode
std_decode-std_encode b h =
    rw (without_breaks-chars false (to_sextets b) (padding b) (to_sextets-IsSextet b h))
      (decode_quads-chars b h)

-- `Sign` with the HMAC of the package always gives a token: the text to sign, a dot, and the bytes of
-- the MAC of that text under the secret, in the alphabet for URLs.
pub sign-hmac_sign :
    (mac : Text → Text → Text) (codec : Codec) (p : Payload) (id secret : Text)
    → All IsByte (mac secret (to_sign codec p id))
    → sign codec (hmac_sign mac) p id secret
      ≡ some (to_sign codec p id ++ (dot ∷ base64_url_encode (mac secret (to_sign codec p id))))
unfolding sign hmac_sign
sign-hmac_sign mac codec p id secret h =
    rw (std_decode-std_encode (mac secret (to_sign codec p id)) h) refl
