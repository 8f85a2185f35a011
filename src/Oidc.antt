-- ===== src/Oidc.antt =====
-- core/internal/oidc: the public endpoints of OpenID Connect.
pub mod Discovery
pub mod NotImpl
pub mod Jwks
