-- ===== src/Examples/Containers.antt =====
-- The Docker client, the components and the installer on one image and one container.
use routestack_agent.Base.{
  Text, [], ◌∷◌, ◌++◌, none, some, ◌≡◌, ◌⊎◌, refl, codes, is_blank, contains, bytes, trim_prefix,
  has_suffix, scan_lines,
}
use routestack_agent.Base.Assoc.{lookup}
use routestack_agent.Json.{
  cons, nil, obj, field, end, str, arr, unmarshal, fold_fields, names_match, set_text, set_list,
  text_element,
}
use routestack_agent.World.{send}
use routestack_agent.Docker.Types.{ContainerSpec, PortMapping, state_setter, image_setter}
use routestack_agent.Docker.Client.{
  texts, checked, decode, accept, inspect, inspect_image, pull, first_error,
}
use routestack_agent.Docker.Find.{find_container, inspected_or}
use routestack_agent.Docker.Find.Match.{Origin, find_container-Origin}
use routestack_agent.Docker.Create.{
  value, object, build_create_request, port_bindings, exposed_ports,
}
use routestack_agent.Docker.Create.Request.{
  host_entry, ports_entry, restart_entry, exposed_entry, exposed, bound, IsLast, NoMapping,
  build_create_request-entries, lookup-port_bindings,
}
use routestack_agent.Components.{
  Component, validate, validate_digest, match_digest, full_image, install,
}
use routestack_agent.Components.Install.{IsPinned, install-IsPinned}
use routestack_agent.Executor.{Operation}
use routestack_agent.Docker.Client.{start, adopt}
use routestack_agent.Handlers.Payload.{decode_payload, name_setter}
use routestack_agent.Handlers.Containers.{
  start_handler, with_container, extract_container_name, find_and_adopt,
}
use routestack_agent.Handlers.Containers.Found.{IsStarted, start_handler-IsStarted}
use routestack_agent.Examples.Node.{host, digest, nothing}

find_container-Origin_example :
    (codes "c1" ≡ [])
    ⊎ Origin host (codes "relay") (codes "c1") (find_container host (codes "relay") nothing).1
unfolding find_container inspected_or inspect checked send decode accept unmarshal fold_fields
    state_setter
find_container-Origin_example = find_container-Origin host (codes "relay") (codes "c1") nothing refl

abbrev mapping : Text → Text → PortMapping
mapping inside outside = record {
  host_port = outside;
  container_port = inside;
  protocol = codes "tcp";
}

abbrev relay : ContainerSpec
relay = record {
  name = codes "relay";
  image = codes "relay:1";
  ports = mapping (codes "80") (codes "8080") ∷ mapping (codes "80") (codes "8081") ∷ [];
  volumes = [];
  env = [];
  restart = codes "always";
  cmd = codes "serve" ∷ [];
}

build_create_request-entries_example :
    let req = build_create_request relay in
    (lookup (codes "Labels") req
      ≡ some (object ((codes "managed-by", str (codes "routestack")) ∷ [])))
    × (lookup (codes "Image") req ≡ some (value (str (codes "relay:1"))))
    × (lookup (codes "Cmd") req ≡ some (value (arr (texts (codes "serve" ∷ [])))))
    × (lookup (codes "Env") req ≡ none)
    × (lookup (codes "ExposedPorts") req ≡ exposed_entry relay.ports (exposed relay.ports []))
    × (lookup (codes "HostConfig") req
        ≡ host_entry
            (ports_entry relay.ports (bound relay.ports []) ++ restart_entry (codes "always")))
build_create_request-entries_example = build_create_request-entries relay

lookup-port_bindings_example :
    (NoMapping (codes "80/tcp") relay.ports
      × (lookup (codes "80/tcp") (port_bindings relay.ports []) ≡ none)
      × (lookup (codes "80/tcp") (exposed_ports relay.ports []) ≡ none))
    ⊎ ((p : PortMapping) × IsLast (codes "80/tcp") p relay.ports
        × (lookup (codes "80/tcp") (port_bindings relay.ports [])
            ≡ some (arr (cons (obj (field (codes "HostPort") (str p.host_port) end)) nil)))
        × (lookup (codes "80/tcp") (exposed_ports relay.ports []) ≡ some (obj end)))
lookup-port_bindings_example = lookup-port_bindings (codes "80/tcp") relay.ports

abbrev component : Component
component = record {
  name = codes "relay";
  version = codes "1.0";
  image = codes "registry/relay:1.0";
  expected_digest = digest;
}

install-IsPinned_example : IsPinned host component nothing
unfolding install validate full_image pull inspect_image checked send decode accept unmarshal
    fold_fields image_setter first_error scan_lines match_digest validate_digest is_blank contains
    bytes trim_prefix names_match set_list set_text text_element has_suffix
install-IsPinned_example = install-IsPinned host component nothing refl

abbrev start_relay : Operation
start_relay = record {
  id = codes "o1";
  type = codes "START_SERVICE";
  payload = some (obj (field (codes "container_name") (str (codes "relay")) end));
}

start_handler-IsStarted_example :
    IsStarted host start_relay nothing (start_handler host start_relay nothing).1
unfolding start_handler with_container extract_container_name find_and_adopt find_container
    inspected_or inspect adopt start checked send decode accept unmarshal fold_fields state_setter
    decode_payload name_setter names_match set_text
start_handler-IsStarted_example =
    start_handler-IsStarted host start_relay (codes "started relay") nothing refl
