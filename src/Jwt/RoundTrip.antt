-- ===== src/Jwt/RoundTrip.antt =====
-- What `base64URLDecode` makes of a text that `base64URLEncode` wrote (internal/jwt/jwt.go).
use mathlib.Core.List.{append-nil}
use qpub_go.Prelude.{
  ℕ, zero, suc, ◌+◌, ◌-◌, ◌*◌, ◌/◌, ◌%◌, ◌<◌, Bool, true, false, ◌||◌, ◌&&◌, none, some, List, [],
  ◌∷◌, ◌++◌, ltb, ◌==◌, ◌≡◌, ◌∙◌, sym, ap, refl, arith, if◌then◌else◌, length, map, All, Bool-cases,
  inl, inr,
}
use qpub_go.Prelude.Text.{Text}
use qpub_go.Jwt.Base64.{
  char_of, to_sextets, from_sextets, sextets_of, bytes_of, join_bytes, raw_url_encode,
  raw_url_decode, pad, last_quad, decode_quads, std_decode, repeat_pad, padding, padded, or_else,
  base64_url_decode, base64_url_encode,
}
use qpub_go.Jwt.Digits.{
  IsByte, IsSextet, is_plain, to_sextets-IsSextet, from_sextets-to_sextets, sextets_of-chars,
  std-chars, without_breaks-chars, pad_ends_url,
}

bytes-std :
    (vs : List ℕ) (t : Text)
    → All IsSextet vs
    → from_sextets vs ≡ some t
    → bytes_of (sextets_of false (map (char_of true) vs)) ≡ (if is_plain vs then some t else none)
bytes-std vs t h e =
    rw (std-chars vs h)
      (elim (Bool-cases (is_plain vs)) [ inl e0 ↦ rw (e0) e | inr e0 ↦ rw (e0) refl ])

char_of-pad : (v : ℕ) → v < 64 → (char_of true v == pad) ≡ false
unfolding char_of
char_of-pad v h = ground arith

join_if :
    (a b c d r : Bool) (s t : Text)
    → join_bytes
        (if a && (b && (c && (d && true))) then some s else none)
        (if r then some t else none)
      ≡ (if a && (b && (c && (d && r))) then some (s ++ t) else none)
join_if a b c d r s t = ground arith

decode_quads-to_sextets :
    (b : Text)
    → All IsByte b
    → decode_quads (map (char_of true) (to_sextets b) ++ repeat_pad (padding b))
      ≡ (if is_plain (to_sextets b) then some b else none)
unfolding decode_quads to_sextets last_quad
decode_quads-to_sextets [] h = refl
decode_quads-to_sextets (x ∷ []) h =
    bytes-std (to_sextets (x ∷ [])) (x ∷ []) (to_sextets-IsSextet (x ∷ []) h)
      (from_sextets-to_sextets (x ∷ []) h)
decode_quads-to_sextets (x ∷ y ∷ []) h =
    let vs = to_sextets-IsSextet (x ∷ y ∷ []) h in
    rw (char_of-pad (y % 16 * 4) vs.1.1.0)
      (bytes-std (to_sextets (x ∷ y ∷ [])) (x ∷ y ∷ []) vs (from_sextets-to_sextets (x ∷ y ∷ []) h))
decode_quads-to_sextets (x ∷ y ∷ z ∷ rest) h =
    let quad = (x ∷ y ∷ z ∷ []) in
    let IsQuad : All IsByte quad = (h.0, (h.1.0, (h.1.1.0, tt))) in
    let vs = to_sextets-IsSextet quad IsQuad in
    rw
      (
        char_of-pad (z % 64) vs.1.1.1.0,
        bytes-std (to_sextets quad) quad vs (from_sextets-to_sextets quad IsQuad),
        decode_quads-to_sextets rest h.1.1.1,
      )
      (join_if (ltb (x / 4) 62) (ltb (x % 4 * 16 + y / 16) 62) (ltb (y % 16 * 4 + z / 64) 62)
        (ltb (z % 64) 62) (is_plain (to_sextets rest)) quad rest)

length-map : (f : ℕ → ℕ) (vs : List ℕ) → length (map f vs) ≡ length vs
length-map f [] = refl
length-map f (v ∷ vs) = ap suc (length-map f vs)

padding-IsSmall : (b : Text) → padding b < 3
padding-IsSmall [] = omega arith
padding-IsSmall (x ∷ []) = omega arith
padding-IsSmall (x ∷ y ∷ []) = omega arith
padding-IsSmall (x ∷ y ∷ z ∷ rest) = padding-IsSmall rest

length-to_sextets : (b : Text) → length (to_sextets b) % 4 ≡ (4 - padding b) % 4
unfolding to_sextets
length-to_sextets [] = refl
length-to_sextets (x ∷ []) = refl
length-to_sextets (x ∷ y ∷ []) = refl
length-to_sextets (x ∷ y ∷ z ∷ rest) = omega (arith, length-to_sextets rest)

padding_zero : (b : Text) → (padding b == 0) ≡ (length b % 3 == 0)
padding_zero [] = refl
padding_zero (x ∷ []) = refl
padding_zero (x ∷ y ∷ []) = refl
padding_zero (x ∷ y ∷ z ∷ rest) = padding_zero rest ∙ ground arith

pads : (s : Text) (n : ℕ) → n < 3 → length s % 4 ≡ (4 - n) % 4 → padded s ≡ s ++ repeat_pad n
unfolding padded
pads s zero h e = rw (e) (sym (append-nil s))
pads s (suc zero) h e = rw (e) refl
pads s (suc (suc zero)) h e = rw (e) refl
pads s (suc (suc (suc n))) h e = absurd (omega arith)

padded-encode :
    (b : Text)
    → padded (raw_url_encode b) ≡ map (char_of true) (to_sextets b) ++ repeat_pad (padding b)
unfolding raw_url_encode
padded-encode b =
    pads (map (char_of true) (to_sextets b)) (padding b) (padding-IsSmall b)
      (ap (λ n. n % 4) (length-map (char_of true) (to_sextets b)) ∙ length-to_sextets b)

raw-chars :
    (vs : List ℕ) (n : ℕ) (b : Text)
    → All IsSextet vs
    → from_sextets vs ≡ some b
    → raw_url_decode (map (char_of true) vs ++ repeat_pad n) ≡ (if n == 0 then some b else none)
unfolding raw_url_decode
raw-chars vs zero b h e =
    rw (without_breaks-chars true vs 0 h, append-nil, sextets_of-chars true vs h) e
raw-chars vs (suc n) b h e =
    rw (without_breaks-chars true vs (suc n) h, pad_ends_url) (ground arith)

std-encoded :
    (b : Text)
    → All IsByte b
    → std_decode (map (char_of true) (to_sextets b) ++ repeat_pad (padding b))
      ≡ (if is_plain (to_sextets b) then some b else none)
unfolding std_decode
std-encoded b h =
    rw (without_breaks-chars true (to_sextets b) (padding b) (to_sextets-IsSextet b h))
      (decode_quads-to_sextets b h)

or_else_if :
    (p q : Bool) (b : Text)
    → or_else (if p then some b else none) (if q then some b else none)
      ≡ (if p || q then some b else none)
or_else_if true q b = refl
or_else_if false q b = refl

-- Decoding what was encoded gives the bytes back when their number is divisible by three (the text
-- needs no padding then) or when no digit is one in which the alphabets differ, and an error
-- otherwise.
pub decode-encode :
    (b : Text)
    → All IsByte b
    → base64_url_decode (base64_url_encode b)
      ≡ (if (length b % 3 == 0) || is_plain (to_sextets b) then some b else none)
unfolding base64_url_decode base64_url_encode
decode-encode b h =
    rw
      (
        padded-encode b,
        raw-chars (to_sextets b) (padding b) b (to_sextets-IsSextet b h)
            (from_sextets-to_sextets b h),
        std-encoded b h,
        sym (padding_zero b),
      )
      (or_else_if (padding b == 0) (is_plain (to_sextets b)) b)
