-- ===== src/Jwt.antt =====
-- internal/jwt/jwt.go: the tokens that the client signs and reads.
pub mod Base64
pub mod Digits
pub mod RoundTrip
pub mod Token
pub mod Signing
