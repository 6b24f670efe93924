-- ===== src/Jwt/Signing.antt =====
-- What `Decode` makes of a token that `Sign` wrote (internal/jwt/jwt.go).
use qpub_go.Prelude.{
  ℕ, ◌<◌, ◌%◌, Bool, true, false, ◌||◌, ◌&&◌, Option, none, some, List, [], ◌∷◌, ◌++◌, ◌==◌, ◌≡◌,
  inl, inr, refl, arith, if◌then◌else◌, length, map, All, is_zero, none≢some,
}
use mathlib.Core.List.{append_assoc}
use qpub_go.Prelude.Text.{Text, is_empty}
use qpub_go.Jwt.Base64.{char_of, to_sextets, base64_url_encode, raw_url_encode, std_decode}
use qpub_go.Jwt.Digits.{IsByte, IsSextet, is_plain, to_sextets-IsSextet}
use qpub_go.Jwt.RoundTrip.{decode-encode}
use qpub_go.Jwt.Token.{
  Header, Payload, invalid_format, Codec, dot, split, decode_bytes, decode, signed_header, to_sign,
  with_signature, sign_with, sign,
}

char_of-dot : (v : ℕ) → v < 64 → (char_of true v == dot) ≡ false
unfolding char_of
char_of-dot v h = ground arith

split-chars :
    (vs : List ℕ) (t : Text)
    → All IsSextet vs
    → split (map (char_of true) vs ++ (dot ∷ t)) ≡ map (char_of true) vs ∷ split t
unfolding split
split-chars [] t h = refl
split-chars (v ∷ vs) t h = rw (char_of-dot v h.0, split-chars vs t h.1) refl

split-encode :
    (b : Text) (t : Text)
    → All IsByte b
    → split (base64_url_encode b ++ (dot ∷ t)) ≡ base64_url_encode b ∷ split t
unfolding base64_url_encode raw_url_encode
split-encode b t h = split-chars (to_sextets b) t (to_sextets-IsSextet b h)

-- The bytes whose encoding `base64URLDecode` reads.
abbrev pub is_readable : Text → Bool
is_readable b = (length b % 3 == 0) || is_plain (to_sextets b)

with_signature_lem :
    (text : Text) (o : Option Text) {token : Text}
    → with_signature text o ≡ some token
    → (sig : Text) × (token ≡ text ++ (dot ∷ sig))
with_signature_lem text none h = absurd (none≢some h)
with_signature_lem text (some bytes) h = (base64_url_encode bytes, ground arith)

sign_with_lem :
    (text : Text) (o : Option Text) {token : Text}
    → sign_with text o ≡ some token
    → (sig : Text) × (token ≡ text ++ (dot ∷ sig))
sign_with_lem text none h = absurd (none≢some h)
sign_with_lem text (some sig) h = with_signature_lem text (std_decode sig) h

-- The parts of a token as `Decode` reads them.
decode-parts :
    (codec : Codec) (hb pb sig : Text)
    → All IsByte hb
    → All IsByte pb
    → decode codec ((base64_url_encode hb ++ (dot ∷ base64_url_encode pb)) ++ (dot ∷ sig))
      ≡ decode_bytes codec
          (if is_readable hb then some hb else none)
          (if is_readable pb then some pb else none)
unfolding decode
decode-parts codec hb pb sig h p =
    rw
      (
        append_assoc (base64_url_encode hb) (dot ∷ base64_url_encode pb) (dot ∷ sig),
        split-encode hb (base64_url_encode pb ++ (dot ∷ sig)) h,
        split-encode pb sig p,
        decode-encode hb h,
        decode-encode pb p,
      )
      refl

readable_parts :
    (codec : Codec) (a b : Bool) (hb pb : Text) (h : Header) (p : Payload)
    → codec.unmarshal_header hb ≡ some h
    → codec.unmarshal_payload pb ≡ some p
    → is_empty h.aki ≡ false
    → is_zero p.exp ≡ false
    → decode_bytes codec (if a then some hb else none) (if b then some pb else none)
      ≡ (if a && b then inr (record { header = h; payload = p }) else inl invalid_format)
readable_parts codec true true hb pb h p eh ep aki exp = rw (eh, ep, aki, exp) refl
readable_parts codec true false hb pb h p eh ep aki exp = refl
readable_parts codec false b hb pb h p eh ep aki exp = refl

-- A token that `Sign` wrote for a key with a public id and a payload with an expiry decodes to that
-- header and payload when the JSON of both is readable: its length is divisible by three, or no digit
-- of its encoding is one in which the two alphabets differ. Otherwise `Decode` refuses the token as
-- no JWT. The JSON codec is taken to read what it wrote.
pub decode-sign :
    (codec : Codec) (hmac_sign : Text → Text → Option Text) (p : Payload) (id secret token : Text)
    → codec.unmarshal_header (codec.marshal_header (signed_header id)) ≡ some (signed_header id)
    → codec.unmarshal_payload (codec.marshal_payload p) ≡ some p
    → All IsByte (codec.marshal_header (signed_header id))
    → All IsByte (codec.marshal_payload p)
    → is_empty id ≡ false
    → is_zero p.exp ≡ false
    → sign codec hmac_sign p id secret ≡ some token
    → decode codec token ≡ (
        if is_readable (codec.marshal_header (signed_header id))
          && is_readable (codec.marshal_payload p)
        then inr (record { header = signed_header id; payload = p })
        else inl invalid_format)
unfolding sign
decode-sign codec hmac_sign p id secret token eh ep bh bp aki exp signed =
    let (sig, shape) =
      sign_with_lem (to_sign codec p id) (hmac_sign (to_sign codec p id) secret) signed in
    rw
      (
        shape,
        decode-parts codec (codec.marshal_header (signed_header id)) (codec.marshal_payload p) sig
            bh bp,
      )
      (readable_parts codec _ _ _ _ (signed_header id) p eh ep aki exp)
