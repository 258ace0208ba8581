-- ===== src/Service/Spec.antt =====
-- internal/service/spec.go
pub mod Valid
use routestack_agent.Base.{
  ℕ, ◌+◌, Text, Bool, List, [], ◌∷◌, ◌++◌, map, codes, is_blank, is_empty, decimal, ◌||◌,
  if◌then◌else◌,
}
use routestack_agent.World.{Result, ok, err}
use routestack_agent.Docker.Types.{PortMapping, VolumeMount, ContainerSpec}

pub record Port : Type 0 where
  pub host_port : Text
  pub container_port : Text
  pub protocol : Text

pub record Volume : Type 0 where
  pub source : Text
  pub target : Text
  pub mode : Text

-- The environment is a map; it comes in the order in which it is iterated over.
pub record Spec : Type 0 where
  pub image : Text
  pub command : List Text
  pub ports : List Port
  pub volumes : List Volume
  pub env : List (Text × Text)
  pub restart : Text

-- The loop over the ports. The default protocol is given to a copy of the port, and lost.
unfoldable pub check_ports : ℕ → List Port → Result (Unit {0})
unfolding is_blank decimal
check_ports i [] = ok tt
check_ports i (p ∷ ps) =
    let rest = check_ports (i + 1) ps in
    if is_blank p.host_port || is_blank p.container_port
    then err (codes "port " ++ decimal i ++ codes ": host_port and container_port are required")
    else rest

unfoldable pub check_volumes : ℕ → List Volume → Result (Unit {0})
unfolding is_blank decimal
check_volumes i [] = ok tt
check_volumes i (v ∷ vs) =
    let rest = check_volumes (i + 1) vs in
    if is_blank v.source || is_blank v.target
    then err (codes "volume " ++ decimal i ++ codes ": source and target are required")
    else rest

abbrev also : Result (Unit {0}) → Result (Unit {0}) → Result (Unit {0})
also (err e) r = err e
also (ok _) r = r

-- Spec.Validate
unfoldable pub validate : Spec → Result (Unit {0})
unfolding check_ports check_volumes
validate s =
    if is_blank s.image
    then err (codes "image is required")
    else also (check_ports 0 s.ports) (check_volumes 0 s.volumes)

-- ContainerName
abbrev pub container_name : Text → Text
container_name service_id = codes "routestack-" ++ service_id

abbrev pub or_default : Text → Text → Text
or_default s default = if is_empty s then default else s

abbrev pub to_mapping : Port → PortMapping
to_mapping p = record {
  host_port = p.host_port;
  container_port = p.container_port;
  protocol = or_default p.protocol (codes "tcp");
}

abbrev pub to_mount : Volume → VolumeMount
to_mount v = record { source = v.source; target = v.target; mode = or_default v.mode (codes "rw") }

abbrev pub to_variable : Text × Text → Text
to_variable (k, v) = k ++ codes "=" ++ v

-- Spec.ToContainerSpec
unfoldable pub to_container_spec : Spec → Text → ContainerSpec
to_container_spec s service_id = record {
  name = container_name service_id;
  image = s.image;
  ports = map to_mapping s.ports;
  volumes = map to_mount s.volumes;
  env = map to_variable s.env;
  restart = s.restart;
  cmd = s.command;
}
