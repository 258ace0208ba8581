-- ===== src/Examples/Deploy.antt =====
-- Service containers, their health and their peers, on one host.
use routestack_agent.Base.{◌++◌, show_int, text_eq, pos, Text, [], ◌∷◌, some, ◌≡◌, ◌⊎◌, refl, codes}
use routestack_agent.Base.Assoc.{lookup}
use routestack_agent.Json.{str}
use routestack_agent.World.{ok, err, http}
use routestack_agent.Docker.Types.{ContainerState}
use routestack_agent.Docker.Client.{inspect, inspect_request}
use routestack_agent.Service.Spec.{Spec, container_name, to_container_spec}
use routestack_agent.Service.Spec.Valid.{IsComplete}
use routestack_agent.Handlers.Payload.{ServiceRevision}
use routestack_agent.Handlers.Containers.{settle}
use routestack_agent.Handlers.Managers.{service_revision_handler}
use routestack_agent.Handlers.Managers.Revision.{
  contract_revision, service_revision_handler-contract_revision,
}
use routestack_agent.Service.Manager.{apply_revision}
use routestack_agent.Service.Manager.Apply.{Recreated, apply_revision-calls}
use routestack_agent.Health.{CheckOptions, Report, check}
use routestack_agent.Health.Verdict.{IsReported, check-verdict}
use routestack_agent.Tunnel
use routestack_agent.Tunnel.{Request, remove}
use routestack_agent.Examples.Node.{host, nothing}

abbrev proxy : Spec
proxy = record {
  image = codes "proxy:1";
  command = [];
  ports = record { host_port = codes "443"; container_port = codes "8443"; protocol = [] } ∷ [];
  volumes = record { source = codes "/srv"; target = codes "/data"; mode = [] } ∷ [];
  env = [];
  restart = [];
}

apply_revision-calls_example :
    let (r, h) = apply_revision host (codes "p1") (pos 3) proxy nothing in
    let name = container_name (codes "p1") in
    ((¬ IsComplete proxy) × ((m : Text) × (r ≡ err m)) × (h ≡ nothing))
    ⊎ (IsComplete proxy
        × Recreated host
            (to_container_spec proxy (codes "p1"))
            (inspect host name nothing).0
            (http (inspect_request name) ∷ nothing)
            r
            h)
apply_revision-calls_example = apply_revision-calls host (codes "p1") (pos 3) proxy nothing

abbrev options : CheckOptions
options = record { probe_ports = codes "443" ∷ codes "80" ∷ []; timeout_ms = pos 500 }

check-verdict_example :
    let (found, h') = inspect host (container_name (codes "p1")) nothing in
    let (result, last) = check host (codes "p1") options nothing in
    ((m : Text) × (found ≡ err m)
      × (result ≡ err (codes "inspect " ++ container_name (codes "p1") ++ codes ": " ++ m))
      × (last ≡ h'))
    ⊎ ((state : ContainerState) × (report : Report) × (found ≡ ok state)
        × (result ≡ ok report)
        × IsReported host (codes "p1") options state h' report last)
check-verdict_example = check-verdict host (codes "p1") options nothing

abbrev peer : Request
peer = record {
  service_id = codes "p1";
  tunnel_id = codes "t1";
  provider = codes "xray";
  peer_config = some (str (codes "key"));
}

abbrev third : ServiceRevision
third = record {
  service_id = codes "p1";
  revision = pos 3;
  spec = record proxy { env = (codes "MODE", codes "prod") ∷ (codes "PORT", codes "1") ∷ [] };
}

service_revision_handler-contract_revision_example :
    service_revision_handler host (contract_revision (codes "op") third) nothing ≡ (
      ok (
          settle
            (codes "")
            (codes "applied revision 3 to p1")
            (apply_revision host (codes "p1") (pos 3) third.spec nothing).0),
      (apply_revision host (codes "p1") (pos 3) third.spec nothing).1,
    )
unfolding lookup text_eq show_int
service_revision_handler-contract_revision_example =
    service_revision_handler-contract_revision host (codes "op") third nothing (refl, (refl, tt))
      refl
