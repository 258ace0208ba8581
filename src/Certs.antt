-- ===== src/Certs.antt =====
-- internal/certs/manager.go: TLS certificates through Certbot.
pub mod Domain
pub mod Command
