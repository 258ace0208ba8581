-- ===== src/Handlers.antt =====
-- internal/executor/handlers.go, and their registration in cmd/routestack-agent/main.go.
pub mod Payload
pub mod Certificate
pub mod Encode
pub mod Containers
pub mod Managers
pub mod Table
mod Stub
