-- ===== src/Handlers/Managers/Contract.antt =====
-- The payload of INSTALL_COMPONENT in contracts/operations.json, and what its handler in
-- internal/executor/handlers.go makes of it.
use routestack_agent.Base.{Text, some, ◌≡◌, refl, codes, is_blank}
use routestack_agent.Json.{str, obj, end, field, names_match, unmarshal, fold_fields, set_text}
use routestack_agent.World.{World, History, ok}
use routestack_agent.Executor.{Operation}
use routestack_agent.Components.{validate, install}
use routestack_agent.Handlers.Payload.{decode_payload, component_setter}
use routestack_agent.Handlers.Containers.{plain}
use routestack_agent.Handlers.Managers.{payload_of, install_handler}

-- The operation as the contract has it: the four properties that it requires.
abbrev pub contract_install : Text → Text → Text → Text → Text → Operation
contract_install id name version image digest = record {
  id = id;
  type = codes "INSTALL_COMPONENT";
  payload = some (
      obj (
        field (codes "component_name") (str name) (
          field (codes "version") (str version) (
            field (codes "image") (str image)
              (field (codes "expected_digest") (str digest) end)))));
}

-- An operation with the four properties that the contract requires fails without a call, whatever
-- they are: the name is not read from "component_name".
pub install_handler-contract_install :
    (W : World) (id name version image digest : Text) (h : History)
    → install_handler W (contract_install id name version image digest) h
      ≡ (ok (plain (codes "failed") (codes "invalid component: component name is required")), h)
unfolding install_handler payload_of decode_payload component_setter unmarshal fold_fields
    names_match set_text install validate is_blank
install_handler-contract_install W id name version image digest h = refl
