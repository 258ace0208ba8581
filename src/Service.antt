-- ===== src/Service.antt =====
-- internal/service: the desired state of a service container, and the manager that reconciles it.
pub mod Spec
pub mod Manager
