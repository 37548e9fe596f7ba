-- ===== src/Jwt/Accepted.antt =====
-- src/http/jwt/JwtVerifier.h: the tokens that JwtVerifier::verify accepts.
use aegon.Base.Bytes.{Bytes}
