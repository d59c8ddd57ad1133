-- ===== src/Token.antt =====
-- internal/pkg/jwt/jwt.go over golang-jwt, which is a parameter.
pub mod Manager
pub mod Validity
