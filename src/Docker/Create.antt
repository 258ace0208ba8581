-- ===== src/Docker/Create.antt =====
-- Create and buildCreateRequest of internal/docker/client.go. A map[string]any that the source fills
-- key by key is the list of its entries here, until it is sent.
pub mod Request
use routestack_agent.Base.{
  Text, List, [], ◌∷◌, ◌++◌, Option, none, some, codes, text_eq, is_empty, ◌||◌, if◌then◌else◌,
}
use routestack_agent.Base.Assoc.{lookup, insert}
use routestack_agent.Json.{
  Json, Fields, Items, str, arr, obj, nil, cons, end, field, Setter, names_match, set_text,
  set_list, text_element,
}
use routestack_agent.World.{World, HttpRequest, M, ◌>>=◌, pure}
use routestack_agent.Docker.Types.{ContainerSpec, PortMapping, VolumeMount}
use routestack_agent.Docker.Client.{api, texts, checked, decode}

-- The values of the request map: a JSON value, or a map that is still filled.
pub data Entry : Type 0 where
  value : Json → Entry
  object : List (Text × Json) → Entry

abbrev pub RequestMap : Type 0
RequestMap = List (Text × Entry)

abbrev pub to_fields : List (Text × Json) → Fields
to_fields [] = end
to_fields ((k, v) ∷ m) = field k v (to_fields m)

abbrev pub entry_json : Entry → Json
entry_json (value v) = v
entry_json (object m) = obj (to_fields m)

abbrev pub request_fields : RequestMap → Fields
request_fields [] = end
request_fields ((k, e) ∷ m) = field k (entry_json e) (request_fields m)

-- p.ContainerPort + "/" + p.Protocol
abbrev pub port_key : PortMapping → Text
port_key p = p.container_port ++ codes "/" ++ p.protocol

abbrev pub host_binding : PortMapping → Json
host_binding p = arr (cons (obj (field (codes "HostPort") (str p.host_port) end)) nil)

-- The loop over the ports: the exposed ports and the port bindings.
unfoldable pub exposed_ports : List PortMapping → List (Text × Json) → List (Text × Json)
exposed_ports [] m = m
exposed_ports (p ∷ ps) m = exposed_ports ps (insert (port_key p) (obj end) m)

unfoldable pub port_bindings : List PortMapping → List (Text × Json) → List (Text × Json)
port_bindings [] m = m
port_bindings (p ∷ ps) m = port_bindings ps (insert (port_key p) (host_binding p) m)

-- The bind of a volume: an empty mode is "rw".
abbrev pub bind : VolumeMount → Text
bind v =
    v.source
    ++ codes ":"
    ++ v.target
    ++ codes ":"
    ++ (if is_empty v.mode then codes "rw" else v.mode)

abbrev pub binds : List VolumeMount → List Text
binds [] = []
binds (v ∷ vs) = bind v ∷ binds vs

-- hostCfg, _ := req["HostConfig"].(map[string]any), and an empty map where that is nil.
host_config : Option Entry → List (Text × Json)
host_config none = []
host_config (some (value v)) = []
host_config (some (object m)) = m

-- hostCfg[key] = v
unfoldable pub put_host : Text → Json → RequestMap → RequestMap
unfolding host_config
put_host key v req =
    let host = codes "HostConfig" in
    insert host (object (insert key v (host_config (lookup host req)))) req

with_cmd : List Text → RequestMap → RequestMap
with_cmd [] req = req
with_cmd (c ∷ cs) req = insert (codes "Cmd") (value (arr (texts (c ∷ cs)))) req

with_ports : List PortMapping → RequestMap → RequestMap
unfolding exposed_ports port_bindings
with_ports [] req = req
with_ports (p ∷ ps) req =
    insert (codes "HostConfig")
      (object (insert (codes "PortBindings") (obj (to_fields (port_bindings (p ∷ ps) []))) []))
      (insert (codes "ExposedPorts") (object (exposed_ports (p ∷ ps) [])) req)

with_volumes : List VolumeMount → RequestMap → RequestMap
unfolding put_host
with_volumes [] req = req
with_volumes (v ∷ vs) req = put_host (codes "Binds") (arr (texts (binds (v ∷ vs)))) req

with_env : List Text → RequestMap → RequestMap
with_env [] req = req
with_env (e ∷ es) req = insert (codes "Env") (value (arr (texts (e ∷ es)))) req

with_restart : Text → RequestMap → RequestMap
unfolding put_host
with_restart policy req =
    if is_empty policy || text_eq policy (codes "no")
    then req
    else put_host (codes "RestartPolicy") (obj (field (codes "Name") (str policy) end)) req

-- buildCreateRequest
unfoldable pub build_create_request : ContainerSpec → RequestMap
unfolding with_cmd with_ports with_volumes with_env with_restart
build_create_request spec =
    let start = insert (codes "Image") (value (str spec.image)) [] in
    let filled = with_restart spec.restart (
      with_env spec.env
        (with_volumes spec.volumes (with_ports spec.ports (with_cmd spec.cmd start)))) in
    insert (codes "Labels") (object (insert (codes "managed-by") (str (codes "routestack")) []))
      filled

abbrev pub create_request : ContainerSpec → HttpRequest
create_request spec =
    api (codes "POST") (codes "containers/create?name=" ++ spec.name)
      (some (obj (request_fields (build_create_request spec))))

-- The struct { ID string; Warnings []string } of an answer.
unfoldable pub created_setter : Setter (Text × List Text)
created_setter key v r =
    if names_match key (codes "Id")
    then set_text v (λ s. (s, r.value.1)) r
    else if names_match key (codes "Warnings")
    then set_list text_element v (λ ws. (r.value.0, ws)) r
    else r

-- Create: the ID of the new container.
unfoldable pub create : World → ContainerSpec → M Text
create W spec = do
  let context = codes "docker create " ++ spec.name
  resp ← checked W context (create_request spec)
  (id, warnings) ← decode W context created_setter ([], []) resp
  pure id
