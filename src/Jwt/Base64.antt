-- ===== src/Jwt/Base64.antt =====
-- `base64URLEncode` and `base64URLDecode` of internal/jwt/jwt.go, with what they use of Go's
-- encoding/base64: `RawURLEncoding`, which has no padding, and `StdEncoding`, which has.
use qpub_go.Prelude.{
  ℕ, suc, ◌+◌, ◌-◌, ◌*◌, ◌/◌, ◌%◌, Bool, true, false, ◌||◌, ◌&&◌, Option, none, some, List, [], ◌∷◌,
  ◌++◌, ltb, leb, ◌==◌, if◌then◌else◌, length, map,
}
use qpub_go.Prelude.Text.{Text}

-- The digit of a value below 64, in the alphabet for URLs or the standard one.
unfoldable pub char_of : Bool → ℕ → ℕ
char_of url v =
    if ltb v 26
    then b'A' + v
    else if ltb v 52
    then b'a' + (v - 26)
    else if ltb v 62
    then b'0' + (v - 52)
    else if v == 62
    then (if url then b'-' else b'+')
    else (if url then b'_' else b'/')

-- The value of a digit.
unfoldable pub sextet_of : Bool → ℕ → Option ℕ
sextet_of url c =
    if leb b'A' c && leb c b'Z'
    then some (c - b'A')
    else if leb b'a' c && leb c b'z'
    then some (c - b'a' + 26)
    else if leb b'0' c && leb c b'9'
    then some (c - b'0' + 52)
    else if c == (if url then b'-' else b'+')
    then some 62
    else if c == (if url then b'_' else b'/')
    then some 63
    else none

-- The bits of the bytes, six at a time; the last value is filled up with zeros.
unfoldable pub to_sextets : Text → List ℕ
to_sextets [] = []
to_sextets (x ∷ []) = (x / 4) ∷ (x % 4 * 16) ∷ []
to_sextets (x ∷ y ∷ []) = (x / 4) ∷ (x % 4 * 16 + y / 16) ∷ (y % 16 * 4) ∷ []
to_sextets (x ∷ y ∷ z ∷ rest) =
    (x / 4) ∷ (x % 4 * 16 + y / 16) ∷ (y % 16 * 4 + z / 64) ∷ (z % 64) ∷ to_sextets rest

abbrev pub prepend : Text → Option Text → Option Text
prepend s none = none
prepend s (some t) = some (s ++ t)

-- The bytes of such values; bits that are left over are dropped, and a single value is an error.
unfoldable pub from_sextets : List ℕ → Option Text
from_sextets [] = some []
from_sextets (a ∷ []) = none
from_sextets (a ∷ b ∷ []) = some ((a * 4 + b / 16) ∷ [])
from_sextets (a ∷ b ∷ c ∷ []) = some ((a * 4 + b / 16) ∷ (b % 16 * 16 + c / 4) ∷ [])
from_sextets (a ∷ b ∷ c ∷ d ∷ rest) =
    prepend ((a * 4 + b / 16) ∷ (b % 16 * 16 + c / 4) ∷ (c % 4 * 64 + d) ∷ []) (from_sextets rest)

abbrev pub cons_value : Option ℕ → Option (List ℕ) → Option (List ℕ)
cons_value none vs = none
cons_value (some v) none = none
cons_value (some v) (some vs) = some (v ∷ vs)

unfoldable pub sextets_of : Bool → Text → Option (List ℕ)
sextets_of url [] = some []
sextets_of url (c ∷ s) = cons_value (sextet_of url c) (sextets_of url s)

abbrev pub bytes_of : Option (List ℕ) → Option Text
bytes_of none = none
bytes_of (some vs) = from_sextets vs

-- Line breaks are skipped.
unfoldable pub without_breaks : Text → Text
without_breaks [] = []
without_breaks (c ∷ s) = if (c == 10) || (c == 13) then without_breaks s else c ∷ without_breaks s

-- `base64.RawURLEncoding`
unfoldable pub raw_url_encode : Text → Text
raw_url_encode bytes = map (char_of true) (to_sextets bytes)

unfoldable pub raw_url_decode : Text → Option Text
raw_url_decode s = bytes_of (sextets_of true (without_breaks s))

abbrev pub pad : ℕ
pad = b'='

-- The last four characters, of which the fourth is padding.
unfoldable pub last_quad : ℕ → ℕ → ℕ → Text → Option Text
last_quad a b c (d ∷ rest) = none
last_quad a b c [] =
    if c == pad
    then bytes_of (sextets_of false (a ∷ b ∷ []))
    else bytes_of (sextets_of false (a ∷ b ∷ c ∷ []))

abbrev pub join_bytes : Option Text → Option Text → Option Text
join_bytes none t = none
join_bytes (some s) t = prepend s t

unfoldable pub decode_quads : Text → Option Text
decode_quads [] = some []
decode_quads (a ∷ []) = none
decode_quads (a ∷ b ∷ []) = none
decode_quads (a ∷ b ∷ c ∷ []) = none
decode_quads (a ∷ b ∷ c ∷ d ∷ rest) =
    let more = decode_quads rest in
    if d == pad
    then last_quad a b c rest
    else join_bytes (bytes_of (sextets_of false (a ∷ b ∷ c ∷ d ∷ []))) more

-- `base64.StdEncoding.DecodeString`
unfoldable pub std_decode : Text → Option Text
std_decode s = decode_quads (without_breaks s)

abbrev pub repeat_pad : ℕ → Text
repeat_pad ℕ.zero = []
repeat_pad (suc n) = pad ∷ repeat_pad n

-- The number of padding characters that the bytes need.
abbrev pub padding : Text → ℕ
padding [] = 0
padding (x ∷ []) = 2
padding (x ∷ y ∷ []) = 1
padding (x ∷ y ∷ z ∷ rest) = padding rest

-- `base64.StdEncoding.EncodeToString`
unfoldable pub std_encode : Text → Text
std_encode bytes = map (char_of false) (to_sextets bytes) ++ repeat_pad (padding bytes)

unfoldable pub padded : Text → Text
padded s = let rem = length s % 4 in if ltb 0 rem then s ++ repeat_pad (4 - rem) else s

abbrev pub or_else : Option Text → Option Text → Option Text
or_else none t = t
or_else (some s) t = some s

unfoldable pub base64_url_decode : Text → Option Text
base64_url_decode s = let s' = padded s in or_else (raw_url_decode s') (std_decode s')

unfoldable pub base64_url_encode : Text → Text
base64_url_encode bytes = raw_url_encode bytes
