-- ===== src/Handlers/Encode.antt =====
-- The structured data of results: json.Marshal of Status of internal/service/manager.go, Report and
-- PortHit of internal/health/manager.go and Report of internal/certs/manager.go. The time stamp of a
-- health report is left out.
use routestack_agent.Base.{Text, Bool, true, List, [], ◌∷◌, codes, is_empty, if◌then◌else◌}
use routestack_agent.Json.{Json, Items, Fields, bool, num, str, arr, obj, nil, cons, end, field}
use routestack_agent.Docker.Client.{texts}
use routestack_agent.Service.Manager.{Status}
use routestack_agent.Health
use routestack_agent.Certs.Command

-- A field with omitempty.
unfoldable pub text_unless_empty : Text → Text → Fields → Fields
text_unless_empty key s rest = if is_empty s then rest else field key (str s) rest

unfoldable pub list_unless_empty : Text → Items → Fields → Fields
list_unless_empty key nil rest = rest
list_unless_empty key (cons v vs) rest = field key (arr (cons v vs)) rest

unfoldable pub flag_unless_false : Text → Bool → Fields → Fields
flag_unless_false key b rest = if b then field key (bool true) rest else rest

unfoldable pub status_json : Status → Json
unfolding text_unless_empty
status_json s = obj (
    field (codes "service_id") (str s.service_id) (
      field (codes "container_name") (str s.container_name) (
        field (codes "container_id") (str s.container_id) (
          field (codes "running") (bool s.running) (
            field (codes "status") (str s.status) (
              field (codes "exit_code") (num s.exit_code) (
                text_unless_empty (codes "health") s.health (
                  field (codes "image") (str s.image)
                    (field (codes "managed_by_agent") (bool s.managed_by_agent) end)))))))))

unfoldable pub hits_json : List Health.PortHit → Items
hits_json [] = nil
hits_json (hit ∷ hits) =
    cons
      (obj (
        field (codes "host_port") (str hit.host_port)
          (field (codes "open") (bool hit.open_port) end)))
      (hits_json hits)

unfoldable pub health_json : Health.Report → Json
unfolding text_unless_empty list_unless_empty hits_json
health_json r = obj (
    field (codes "service_id") (str r.service_id) (
      field (codes "container_name") (str r.container_name) (
        field (codes "container_id") (str r.container_id) (
          field (codes "healthy") (bool r.healthy) (
            field (codes "running") (bool r.running) (
              field (codes "status") (str r.status) (
                text_unless_empty (codes "health") r.health (
                  field (codes "exit_code") (num r.exit_code)
                    (list_unless_empty (codes "port_checks") (hits_json r.port_checks) end)))))))))

unfoldable pub certificate_json : Command.Report → Json
unfolding text_unless_empty list_unless_empty flag_unless_false
certificate_json r = obj (
    field (codes "action") (str r.action) (
      field (codes "domain") (str r.domain) (
        list_unless_empty (codes "domains") (texts r.domains) (
          text_unless_empty (codes "method") r.method (
            flag_unless_false (codes "staging") r.staging (
              text_unless_empty (codes "certificate_dir") r.certificate_dir (
                text_unless_empty (codes "fullchain_path") r.fullchain_path (
                  text_unless_empty (codes "private_key_path") r.private_key_path
                    (text_unless_empty (codes "output") r.output end)))))))))
