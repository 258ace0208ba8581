-- ===== src/Health.antt =====
-- internal/health/manager.go: health checks of service containers.
pub mod Verdict
use routestack_agent.Base.{
  ℕ, ◌*◌, ◌%◌, ◌^◌, ℤ, pos, negsuc, zero, suc, Text, Bool, true, false, List, [], ◌∷◌, ◌++◌, Option,
  none, some, codes, is_empty, contains, text_eq, ◌&&◌, if◌then◌else◌,
}
use routestack_agent.Json.{
  Json, null, Read, Setter, names_match, set_list, set_int, text_element, unmarshal,
}
use routestack_agent.World.{World, M, Result, ok, err, ◌>>=◌, pure, wrap, connects}
use routestack_agent.Docker.Types.{ContainerState, Health}
use routestack_agent.Docker.Client.{inspect}
use routestack_agent.Service.Spec.{container_name}
use routestack_agent.Service.Manager.{health_text}

pub record PortHit : Type 0 where
  pub host_port : Text
  pub open_port : Bool

-- The time of the check is left out.
pub record Report : Type 0 where
  pub service_id : Text
  pub container_name : Text
  pub container_id : Text
  pub healthy : Bool
  pub running : Bool
  pub status : Text
  pub health : Text
  pub exit_code : ℤ
  pub port_checks : List PortHit

pub record CheckOptions : Type 0 where
  pub probe_ports : List Text
  pub timeout_ms : ℤ

-- The container's own verdict.
abbrev pub health_passes : Option Health → Bool
health_passes none = true
health_passes (some h) = text_eq h.status (codes "healthy")

-- The time-out of a probe in nanoseconds, as the 64 bits of the int64 that the product wraps to.
abbrev pub probe_timeout : ℤ → ℕ
probe_timeout (pos (suc n)) = suc n * 1000000 % 2 ^ 64
probe_timeout _ = 2000000000

-- The report before the ports are probed.
abbrev pub first_report : Text → ContainerState → Report
first_report service_id state = record {
  service_id = service_id;
  container_name = container_name service_id;
  container_id = state.id;
  healthy = state.state.running && health_passes state.state.health;
  running = state.state.running;
  status = state.state.status;
  health = health_text state.state.health;
  exit_code = state.state.exit_code;
  port_checks = [];
}

abbrev no_options : CheckOptions
no_options = record { probe_ports = []; timeout_ms = pos 0 }

unfoldable pub options_setter : Setter CheckOptions
unfolding names_match set_list
options_setter key v r =
    let old = r.value in
    if names_match key (codes "probe_ports")
    then set_list text_element v (λ ts. record old { probe_ports = ts }) r
    else if names_match key (codes "timeout_ms")
    then set_int v (λ n. record old { timeout_ms = n }) r
    else r

module _ (W : World) where
  -- probePort
  unfoldable pub probe_port : Text → ℕ → M Bool
  unfolding contains connects
  probe_port port timeout =
      connects W (if contains port (codes ":") then port else codes "127.0.0.1:" ++ port) timeout

  -- The loop over the ports.
  unfoldable pub probe_all : List Text → ℕ → Report → M Report
  probe_all [] timeout report = pure report
  probe_all (port ∷ ports) timeout report = do
    is_open ← probe_port port timeout
    probe_all ports timeout (record report {
      port_checks = report.port_checks ++ (record { host_port = port; open_port = is_open }) ∷ [];
      healthy = if is_open then report.healthy else false;
    })

  -- Check
  unfoldable pub check : Text → CheckOptions → M Report
  check service_id opts = do
    let name = container_name service_id
    state ← wrap (codes "inspect " ++ name ++ codes ": ") (inspect W name)
    probe_all opts.probe_ports (probe_timeout opts.timeout_ms) (first_report service_id state)

  -- The options in a raw JSON text: what is decoded before an error stays, and the error is dropped.
  unfoldable pub read_options : Text → CheckOptions
  unfolding unmarshal options_setter
  read_options raw = if is_empty raw then no_options else elim (W.parse raw) [
    | err e ↦ no_options
    | ok v ↦ (unmarshal options_setter no_options v).value
  ]

  -- CheckFromJSON
  unfoldable pub check_from_json : Text → Text → M Report
  unfolding read_options
  check_from_json service_id raw = check service_id (read_options raw)
