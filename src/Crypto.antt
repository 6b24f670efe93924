-- ===== src/Crypto.antt =====
-- `HMACSign` of internal/crypto/hmac.go, over the HMAC-SHA256 of Go's crypto/hmac and crypto/sha256.
pub mod Decoding
use qpub_go.Prelude.{Option, some}
use qpub_go.Prelude.Text.{Text}
use qpub_go.Jwt.Base64.{std_encode}

-- `mac` gives the bytes for a key and a text. The error is that of `Write` of a `hash.Hash`, which
-- never returns one.
unfoldable pub hmac_sign : (Text → Text → Text) → Text → Text → Option Text
hmac_sign mac text key = some (std_encode (mac key text))
