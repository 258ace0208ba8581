-- ===== src/Handlers/Managers/Revision.antt =====
-- APPLY_SERVICE_REVISION as contracts/operations.json has it, and what its handler in
-- internal/executor/handlers.go does.
use routestack_agent.Base.{Text, false, [], some, ◌≡◌, refl, codes, ◌++◌, is_empty, show_int}
use routestack_agent.Base.Assoc.{IsMap}
use routestack_agent.World.{World, History, ok}
use routestack_agent.Executor.{Operation}
use routestack_agent.Service.Manager.{apply_revision}
use routestack_agent.Handlers.Payload.{ServiceRevision}
use routestack_agent.Handlers.Payload.Printed.{revision_json, decode_payload-revision_json}
use routestack_agent.Handlers.Containers.{settle}
use routestack_agent.Handlers.Managers.{payload_of, require_service, service_revision_handler}

-- The operation as the contract has it, with all properties of the spec.
abbrev pub contract_revision : Text → ServiceRevision → Operation
contract_revision id p = record {
  id = id;
  type = codes "APPLY_SERVICE_REVISION";
  payload = some (revision_json p);
}

-- If the service is not the empty text and the environment of the spec has no name twice: an operation
-- that carries them, and a revision, as the contract has it, applies exactly that revision of that
-- spec to that service, calls nothing else, and answers how it ended.
pub service_revision_handler-contract_revision :
    (W : World) (id : Text) (p : ServiceRevision) (h : History)
    → IsMap [] p.spec.env
    → is_empty p.service_id ≡ false
    → let (r, k) = apply_revision W p.service_id p.revision p.spec h in
      service_revision_handler W (contract_revision id p) h ≡ (
        ok (
            settle
              (codes "")
              (codes "applied revision " ++ show_int p.revision ++ codes " to " ++ p.service_id)
              r),
        k,
      )
unfolding service_revision_handler payload_of require_service
service_revision_handler-contract_revision W id p h env named =
    rw (service_revision_handler, decode_payload-revision_json W p env, named) refl
