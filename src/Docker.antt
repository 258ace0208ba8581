-- ===== src/Docker.antt =====
-- internal/docker/client.go: the client of the Docker Engine API.
pub mod Types
pub mod Client
pub mod Find
pub mod Create
