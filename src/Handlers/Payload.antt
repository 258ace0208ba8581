-- ===== src/Handlers/Payload.antt =====
-- The payloads of operations, decoded as in internal/executor/handlers.go.
pub mod Printed
use routestack_agent.Base.{ℤ, pos, Text, [], Option, none, some, codes, if◌then◌else◌}
use routestack_agent.Json.{
  Json, Setter, names_match, unmarshal, set_text, set_int, set_list, set_struct, set_map,
  text_element,
}
use routestack_agent.World.{World, Result, ok, err}
use routestack_agent.Components.{Component}
use routestack_agent.Service.Spec.{Port, Volume, Spec}
use routestack_agent.Tunnel
use routestack_agent.Firewall.{Rule, Ruleset}
use routestack_agent.Health.{CheckOptions}

-- json.Unmarshal(op.Data, &p): no payload is no JSON text.
unfoldable pub decode_payload : {A : Type 0} → World → Setter A → A → Option Json → Result A
decode_payload W set zero none = err (codes "unexpected end of JSON input")
decode_payload W set zero (some v) =
    let r = unmarshal set zero v in if r.well_typed then ok r.value else err W.type_error

unfoldable pub name_setter : Setter Text
name_setter key v r = if names_match key (codes "container_name") then set_text v (λ s. s) r else r

unfoldable pub timeout_setter : Setter ℤ
timeout_setter key v r = if names_match key (codes "timeout_sec") then set_int v (λ n. n) r else r

-- _ = json.Unmarshal(op.Data, &p): what was read before an error stays.
unfoldable pub stop_timeout : Option Json → ℤ
unfolding timeout_setter unmarshal
stop_timeout none = pos 0
stop_timeout (some v) = (unmarshal timeout_setter (pos 0) v).value

-- Component has no tags: its fields go by their Go names.
unfoldable pub component_setter : Setter Component
component_setter key v r =
    let old = r.value in
    if names_match key (codes "Name")
    then set_text v (λ s. record old { name = s }) r
    else if names_match key (codes "Version")
    then set_text v (λ s. record old { version = s }) r
    else if names_match key (codes "Image")
    then set_text v (λ s. record old { image = s }) r
    else if names_match key (codes "ExpectedDigest")
    then set_text v (λ s. record old { expected_digest = s }) r
    else r

abbrev pub no_component : Component
no_component = record { name = []; version = []; image = []; expected_digest = [] }

unfoldable pub port_setter : Setter Port
port_setter key v r =
    let old = r.value in
    if names_match key (codes "host_port")
    then set_text v (λ s. record old { host_port = s }) r
    else if names_match key (codes "container_port")
    then set_text v (λ s. record old { container_port = s }) r
    else if names_match key (codes "protocol")
    then set_text v (λ s. record old { protocol = s }) r
    else r

unfoldable pub volume_setter : Setter Volume
volume_setter key v r =
    let old = r.value in
    if names_match key (codes "source")
    then set_text v (λ s. record old { source = s }) r
    else if names_match key (codes "target")
    then set_text v (λ s. record old { target = s }) r
    else if names_match key (codes "mode")
    then set_text v (λ s. record old { mode = s }) r
    else r

abbrev no_port : Port
no_port = record { host_port = []; container_port = []; protocol = [] }

abbrev no_volume : Volume
no_volume = record { source = []; target = []; mode = [] }

abbrev pub no_spec : Spec
no_spec = record { image = []; command = []; ports = []; volumes = []; env = []; restart = [] }

unfoldable pub spec_setter : Setter Spec
spec_setter key v r =
    let old = r.value in
    if names_match key (codes "image")
    then set_text v (λ s. record old { image = s }) r
    else if names_match key (codes "command")
    then set_list text_element v (λ ts. record old { command = ts }) r
    else if names_match key (codes "ports")
    then set_list (unmarshal port_setter no_port) v (λ ps. record old { ports = ps }) r
    else if names_match key (codes "volumes")
    then set_list (unmarshal volume_setter no_volume) v (λ vs. record old { volumes = vs }) r
    else if names_match key (codes "env")
    then set_map old.env v (λ m. record old { env = m }) r
    else if names_match key (codes "restart")
    then set_text v (λ s. record old { restart = s }) r
    else r

pub record ServiceRevision : Type 0 where
  pub service_id : Text
  pub revision : ℤ
  pub spec : Spec

abbrev pub no_revision : ServiceRevision
no_revision = record { service_id = []; revision = pos 0; spec = no_spec }

unfoldable pub revision_setter : Setter ServiceRevision
revision_setter key v r =
    let old = r.value in
    if names_match key (codes "service_id")
    then set_text v (λ s. record old { service_id = s }) r
    else if names_match key (codes "revision")
    then set_int v (λ n. record old { revision = n }) r
    else if names_match key (codes "spec")
    then set_struct spec_setter old.spec v (λ s. record old { spec = s }) r
    else r

unfoldable pub service_setter : Setter Text
service_setter key v r = if names_match key (codes "service_id") then set_text v (λ s. s) r else r

-- The service and the number of lines, of COLLECT_LOGS.
unfoldable pub logs_setter : Setter (Text × ℤ)
logs_setter key v r =
    if names_match key (codes "service_id")
    then set_text v (λ s. (s, r.value.1)) r
    else if names_match key (codes "tail")
    then set_int v (λ n. (r.value.0, n)) r
    else r

-- A json.RawMessage keeps any value, null as well.
unfoldable pub tunnel_setter : Setter Tunnel.Request
tunnel_setter key v r =
    let old = r.value in
    if names_match key (codes "service_id")
    then set_text v (λ s. record old { service_id = s }) r
    else if names_match key (codes "tunnel_id")
    then set_text v (λ s. record old { tunnel_id = s }) r
    else if names_match key (codes "provider")
    then set_text v (λ s. record old { provider = s }) r
    else if names_match key (codes "peer_config")
    then record r { value = record old { peer_config = some v } }
    else r

abbrev pub no_tunnel : Tunnel.Request
no_tunnel = record { service_id = []; tunnel_id = []; provider = []; peer_config = none }

unfoldable pub rule_setter : Setter Rule
rule_setter key v r =
    if names_match key (codes "args")
    then set_list text_element v (λ ts. record { args = ts }) r
    else r

unfoldable pub ruleset_setter : Setter Ruleset
ruleset_setter key v r =
    let old = r.value in
    if names_match key (codes "revision")
    then set_int v (λ n. record old { revision = n }) r
    else if names_match key (codes "rules")
    then set_list (unmarshal rule_setter (record { args = [] })) v (λ rs. record old { rules = rs })
        r
    else r

abbrev pub no_rules : Ruleset
no_rules = record { revision = pos 0; rules = [] }

-- The service and the options of RUN_HEALTH_CHECK.
unfoldable pub check_setter : Setter (Text × CheckOptions)
check_setter key v r =
    let (service_id, opts) = r.value in
    if names_match key (codes "service_id")
    then set_text v (λ s. (s, opts)) r
    else if names_match key (codes "probe_ports")
    then set_list text_element v (λ ts. (service_id, record opts { probe_ports = ts })) r
    else if names_match key (codes "timeout_ms")
    then set_int v (λ n. (service_id, record opts { timeout_ms = n })) r
    else r

abbrev pub no_check : Text × CheckOptions
no_check = ([], record { probe_ports = []; timeout_ms = pos 0 })
