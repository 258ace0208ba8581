-- ===== src/Executor/OpTypes.antt =====
-- internal/executor/executor.go: the operation types of the contract with the control plane.
use routestack_agent.Base.{Text, codes}

abbrev pub op_install_component : Text
op_install_component = codes "INSTALL_COMPONENT"

abbrev pub op_apply_service_revision : Text
op_apply_service_revision = codes "APPLY_SERVICE_REVISION"

abbrev pub op_start_service : Text
op_start_service = codes "START_SERVICE"

abbrev pub op_stop_service : Text
op_stop_service = codes "STOP_SERVICE"

abbrev pub op_restart_service : Text
op_restart_service = codes "RESTART_SERVICE"

abbrev pub op_apply_firewall_revision : Text
op_apply_firewall_revision = codes "APPLY_FIREWALL_REVISION"

abbrev pub op_create_tunnel : Text
op_create_tunnel = codes "CREATE_TUNNEL"

abbrev pub op_remove_tunnel : Text
op_remove_tunnel = codes "REMOVE_TUNNEL"

abbrev pub op_collect_status : Text
op_collect_status = codes "COLLECT_STATUS"

abbrev pub op_collect_logs : Text
op_collect_logs = codes "COLLECT_LOGS"

abbrev pub op_run_health_check : Text
op_run_health_check = codes "RUN_HEALTH_CHECK"

abbrev pub op_manage_certificate : Text
op_manage_certificate = codes "MANAGE_CERTIFICATE"
