-- ===== src/Jwt/Digits.antt =====
-- The digits and the padding of the base64 of internal/jwt/jwt.go, one alphabet read in the other.
use qpub_go.Prelude.{
  ℕ, zero, suc, ◌<◌, Bool, true, false, ◌&&◌, Option, none, some, List, [], ◌∷◌, ◌++◌, ltb, ◌≡◌,
  ◌≢◌, ap, refl, arith, if◌then◌else◌, map, All,
}
use qpub_go.Prelude.Text.{Text}
use qpub_go.Jwt.Base64.{
  char_of, sextet_of, to_sextets, from_sextets, sextets_of, cons_value, without_breaks, pad,
  repeat_pad,
}

abbrev pub IsByte : ℕ → Type 0
IsByte x = x < 256

abbrev pub IsSextet : ℕ → Type 0
IsSextet v = v < 64

-- No value has a digit in which the two alphabets differ.
abbrev pub is_plain : List ℕ → Bool
is_plain [] = true
is_plain (v ∷ vs) = ltb v 62 && is_plain vs

sextet_of-char_of : (url : Bool) (v : ℕ) → v < 64 → sextet_of url (char_of url v) ≡ some v
unfolding sextet_of char_of
sextet_of-char_of true v h = ground arith
sextet_of-char_of false v h = ground arith

std-char_of :
    (v : ℕ) → v < 64 → sextet_of false (char_of true v) ≡ (if ltb v 62 then some v else none)
unfolding sextet_of char_of
std-char_of v h = ground arith

pub char_of-ne :
    (url : Bool) (v : ℕ)
    → v < 64
    → (char_of url v ≢ 10) × (char_of url v ≢ 13) × (char_of url v ≢ pad)
unfolding char_of
char_of-ne true v h = ground arith
char_of-ne false v h = ground arith

pub to_sextets-IsSextet : (b : Text) → All IsByte b → All IsSextet (to_sextets b)
unfolding to_sextets
to_sextets-IsSextet [] h = tt
to_sextets-IsSextet (x ∷ []) h = omega arith
to_sextets-IsSextet (x ∷ y ∷ []) h = omega arith
to_sextets-IsSextet (x ∷ y ∷ z ∷ rest) h =
    (omega arith, (omega arith, (omega arith, (omega arith, to_sextets-IsSextet rest h.1.1.1))))

pub from_sextets-to_sextets : (b : Text) → All IsByte b → from_sextets (to_sextets b) ≡ some b
unfolding from_sextets to_sextets
from_sextets-to_sextets [] h = refl
from_sextets-to_sextets (x ∷ []) h = ground arith
from_sextets-to_sextets (x ∷ y ∷ []) h = ground arith
from_sextets-to_sextets (x ∷ y ∷ z ∷ rest) h =
    rw (from_sextets-to_sextets rest h.1.1.1) (ground arith)

pub sextets_of-chars :
    (url : Bool) (vs : List ℕ) → All IsSextet vs → sextets_of url (map (char_of url) vs) ≡ some vs
unfolding sextets_of
sextets_of-chars url [] h = refl
sextets_of-chars url (v ∷ vs) h = rw (sextet_of-char_of url v h.0, sextets_of-chars url vs h.1) refl

-- The standard alphabet reads what the other one wrote, where it reads it at all.
pub std-chars :
    (vs : List ℕ)
    → All IsSextet vs
    → sextets_of false (map (char_of true) vs) ≡ (if is_plain vs then some vs else none)
unfolding sextets_of
std-chars [] h = refl
std-chars (v ∷ vs) h = rw (std-char_of v h.0, std-chars vs h.1) (ground arith)

pub without_breaks-chars :
    (url : Bool) (vs : List ℕ) (n : ℕ)
    → All IsSextet vs
    → without_breaks (map (char_of url) vs ++ repeat_pad n) ≡ map (char_of url) vs ++ repeat_pad n
unfolding without_breaks
without_breaks-chars url [] zero h = refl
without_breaks-chars url [] (suc n) h = ap (λ s. pad ∷ s) (without_breaks-chars url [] n h)
without_breaks-chars url (v ∷ vs) n h =
    let ne = char_of-ne url v h.0 in rw (without_breaks-chars url vs n h.1) (ground arith)

cons_value-none : (o : Option ℕ) → cons_value o none ≡ none
cons_value-none none = refl
cons_value-none (some v) = refl

pub pad_ends_url : (s : Text) (n : ℕ) → sextets_of true (s ++ repeat_pad (suc n)) ≡ none
unfolding sextets_of sextet_of
pad_ends_url [] n = refl
pad_ends_url (c ∷ s) n = rw (pad_ends_url s n) (cons_value-none (sextet_of true c))
