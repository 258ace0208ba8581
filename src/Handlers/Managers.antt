-- ===== src/Handlers/Managers.antt =====
-- The other handlers of internal/executor/handlers.go: each decodes its payload, calls its manager
-- and makes a result of what that returns.
pub mod Contract
pub mod Revision
use routestack_agent.Base.{
  ℤ, pos, Text, Option, none, some, codes, is_empty, ◌++◌, show_int, if◌then◌else◌,
}
use routestack_agent.Json.{Json, Setter}
use routestack_agent.World.{World, M, Result, ok, err, ◌>>=◌, ◌>>◌, pure, fail, lift, attempt, wrap}
use routestack_agent.Executor.{Operation, OperationResult, Handler}
use routestack_agent.Components.{install}
use routestack_agent.Service.Manager.{Status, apply_revision, collect_status, collect_logs}
use routestack_agent.Tunnel
use routestack_agent.Firewall
use routestack_agent.Health.{Report, CheckOptions, check}
use routestack_agent.Certs.Command
use routestack_agent.Certs.Command.{manage}
use routestack_agent.Handlers.Payload.{
  decode_payload, component_setter, no_component, revision_setter, no_revision, service_setter,
  logs_setter, tunnel_setter, no_tunnel, ruleset_setter, no_rules, check_setter, no_check,
}
use routestack_agent.Handlers.Certificate.{request_setter, no_request}
use routestack_agent.Handlers.Encode.{status_json, health_json, certificate_json}
use routestack_agent.Handlers.Containers.{plain, settle}

module _ (W : World) where
  -- json.Unmarshal(op.Data, &p), with the kind of payload in its error.
  unfoldable pub payload_of : {A : Type 0} → Text → Setter A → A → Operation → M A
  payload_of kind set zero op =
      wrap (codes "invalid " ++ kind ++ codes " payload: ")
        (lift (decode_payload W set zero op.payload))

  -- if p.ServiceID == "" { return nil, fmt.Errorf("service_id is required") }
  unfoldable pub require_service : Text → M (Unit {0})
  require_service service_id =
      if is_empty service_id then fail (codes "service_id is required") else pure tt

  -- NewInstallComponentHandler
  unfoldable pub install_handler : Handler
  install_handler op = do
    c ← payload_of (codes "component") component_setter no_component op
    r ← attempt (install W c)
    pure
        (settle (codes "") (codes "installed " ++ c.name ++ codes " (" ++ c.version ++ codes ")") r)

  -- NewApplyServiceRevisionHandler
  unfoldable pub service_revision_handler : Handler
  service_revision_handler op = do
    p ← payload_of (codes "service revision") revision_setter no_revision op
    require_service p.service_id
    r ← attempt (apply_revision W p.service_id p.revision p.spec)
    pure (
        settle (codes "")
          (codes "applied revision " ++ show_int p.revision ++ codes " to " ++ p.service_id) r)

  abbrev pub status_result : Result Status → Option OperationResult
  status_result (err e) = plain (codes "failed") e
  status_result (ok s) =
      some
        (record { status = codes "success"; message = codes ""; structured = some (status_json s) })

  -- NewCollectStatusHandler
  unfoldable pub status_handler : Handler
  status_handler op = do
    service_id ← payload_of (codes "status") service_setter (codes "") op
    require_service service_id
    r ← attempt (collect_status W service_id)
    pure (status_result r)

  abbrev pub logs_result : Result Text → Option OperationResult
  logs_result (err e) = plain (codes "failed") e
  logs_result (ok logs) = plain (codes "success") logs

  -- NewCollectLogsHandler
  unfoldable pub logs_handler : Handler
  logs_handler op = do
    (service_id, tail) ← payload_of (codes "logs") logs_setter (codes "", pos 0) op
    require_service service_id
    r ← attempt (collect_logs W service_id tail)
    pure (logs_result r)

  -- NewCreateTunnelHandler
  unfoldable pub create_tunnel_handler : Handler
  create_tunnel_handler op = do
    req ← payload_of (codes "tunnel") tunnel_setter no_tunnel op
    r ← attempt (Tunnel.create W req)
    pure (
        settle (codes "")
          (codes "created tunnel " ++ req.tunnel_id ++ codes " in " ++ req.service_id) r)

  -- NewRemoveTunnelHandler
  unfoldable pub remove_tunnel_handler : Handler
  remove_tunnel_handler op = do
    req ← payload_of (codes "tunnel") tunnel_setter no_tunnel op
    r ← attempt (Tunnel.remove W req)
    pure (
        settle (codes "")
          (codes "removed tunnel " ++ req.tunnel_id ++ codes " from " ++ req.service_id) r)

  -- NewApplyFirewallRevisionHandler
  unfoldable pub firewall_handler : Handler
  firewall_handler op = do
    rs ← payload_of (codes "firewall") ruleset_setter no_rules op
    r ← attempt (Firewall.apply_revision W rs)
    pure (settle (codes "") (codes "applied firewall revision " ++ show_int rs.revision) r)

  abbrev pub health_result : Result Report → Option OperationResult
  health_result (err e) = plain (codes "failed") e
  health_result (ok r) = some (record {
    status = if r.healthy then codes "success" else codes "degraded";
    message = codes "";
    structured = some (health_json r);
  })

  -- NewRunHealthCheckHandler
  unfoldable pub health_handler : Handler
  health_handler op = do
    (service_id, opts) ← payload_of (codes "health check") check_setter no_check op
    require_service service_id
    r ← attempt (check W service_id opts)
    pure (health_result r)

  abbrev pub certificate_result :
      Text → Result (Command.Report × Option Text) → Option OperationResult
  certificate_result action (err e) = plain (codes "failed") e
  certificate_result action (ok (report, some e)) = plain (codes "failed") e
  certificate_result action (ok (report, none)) = some (record {
    status = codes "success";
    message = action ++ codes " certificate " ++ report.domain;
    structured = some (certificate_json report);
  })

  -- NewManageCertificateHandler, with the certbot of NewManager
  unfoldable pub certificate_handler : Handler
  certificate_handler op = do
    req ← payload_of (codes "certificate") request_setter no_request op
    r ← attempt (manage W (codes "certbot") req)
    pure (certificate_result req.action r)
