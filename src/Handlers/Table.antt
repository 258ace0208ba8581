-- ===== src/Handlers/Table.antt =====
-- The handlers that cmd/routestack-agent/main.go registers.
pub mod Statuses
pub mod Reported
pub mod Order
pub mod Rounds
use routestack_agent.Base.{Text, Bool, List, [], ◌∷◌, Option, none, some, codes, if◌then◌else◌}
use routestack_agent.World.{World}
use routestack_agent.Executor.{Handler, Executor, new_executor, register}
use routestack_agent.Executor.OpTypes.{
  op_install_component, op_apply_service_revision, op_start_service, op_stop_service,
  op_restart_service, op_apply_firewall_revision, op_create_tunnel, op_remove_tunnel,
  op_collect_status, op_collect_logs, op_run_health_check, op_manage_certificate,
}
use routestack_agent.Handlers.Containers.{start_handler, stop_handler, restart_handler}
use routestack_agent.Handlers.Managers.{
  install_handler, service_revision_handler, status_handler, logs_handler, create_tunnel_handler,
  remove_tunnel_handler, firewall_handler, health_handler, certificate_handler,
}

-- A sequence of calls of Register; none is a panic.
unfoldable pub register_all : List (Text × Handler) → Executor → Option Executor
register_all [] x = some x
register_all ((op_type, handler) ∷ rest) x = elim (register op_type handler x) [
  | none ↦ none
  | some x' ↦ register_all rest x'
]

module _ (W : World) where
  -- The calls of registerDockerHandlers.
  abbrev pub docker_handlers : List (Text × Handler)
  docker_handlers =
      (op_start_service, start_handler W)
      ∷ (op_stop_service, stop_handler W)
      ∷ (op_restart_service, restart_handler W)
      ∷ (op_install_component, install_handler W)
      ∷ (op_apply_service_revision, service_revision_handler W)
      ∷ (op_collect_status, status_handler W)
      ∷ (op_collect_logs, logs_handler W)
      ∷ (op_create_tunnel, create_tunnel_handler W)
      ∷ (op_remove_tunnel, remove_tunnel_handler W)
      ∷ (op_run_health_check, health_handler W)
      ∷ []

  -- The calls of registerCoreHandlers.
  abbrev pub core_handlers : List (Text × Handler)
  core_handlers =
      (op_apply_firewall_revision, firewall_handler W)
      ∷ (op_manage_certificate, certificate_handler W)
      ∷ []

  -- The executor that the agent starts with; the Docker handlers need a Docker client.
  unfoldable pub registered : Bool → Option Executor
  registered has_docker =
      elim (if has_docker then register_all docker_handlers new_executor else some new_executor) [
        | none ↦ none
        | some x ↦ register_all core_handlers x
      ]
