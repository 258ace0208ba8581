-- ===== src/Api/Heartbeat.antt =====
-- Heartbeats: internal/api/heartbeat.go and sendHeartbeat of internal/agent/agent.go.
use routestack_agent.Base.{Text, Bool, List, [], ◌∷◌, ◌++◌, codes, if◌then◌else◌}
use routestack_agent.Json.{Json, Items, null, num, str, arr, obj, nil, cons, end, field}
use routestack_agent.World.{World, Result}
use routestack_agent.Api.Retry.{Server, Events}
use routestack_agent.Api.Calls.{HeartbeatResponse, heartbeat}
use routestack_agent.Api.Probe.{
  Floats, SystemMetrics, Probe, collect_system_info, collect_system_metrics,
}

-- The field Services is never set.
pub record HeartbeatRequest (F : Type 0) : Type 0 where
  pub node_id : Text
  pub agent_version : Text
  pub os : Text
  pub architecture : Text
  pub kernel_version : Text
  pub capabilities : List Text
  pub system : SystemMetrics F

-- The capabilities whose name passes the test.
abbrev chosen : (Text → Bool) → List Text → List Text
chosen found [] = []
chosen found (name ∷ names) =
    let rest = chosen found names in if found name then name ∷ rest else rest

-- DetectCapabilities, given what exec.LookPath and os.Stat find.
unfoldable pub detect_capabilities : (Text → Bool) → (Text → Bool) → List Text
detect_capabilities look_path exists =
    chosen look_path (
      codes "xray"
      ∷ codes "amnezia-wg"
      ∷ codes "amnezia-wg-go"
      ∷ codes "haproxy"
      ∷ codes "3proxy"
      ∷ codes "telemt"
      ∷ codes "mtproto-proxy"
      ∷ codes "nft"
      ∷ [])
    ++ (if exists (codes "/sys/module/amneziawg") then codes "amneziawg-kernel" ∷ [] else [])
    ++ (if exists (codes "/sys/module/nf_tables") then codes "nftables-kernel" ∷ [] else [])

module _ {F : Type 0} (R : Floats F) where
  abbrev names : List Text → Items
  names [] = nil
  names (t ∷ ts) = cons (str t) (names ts)

  -- What json.Marshal prints of a request: the nil slice of services, and that of capabilities when
  -- there are none, are null.
  unfoldable pub heartbeat_json : HeartbeatRequest F → Json
  heartbeat_json q =
      let m = q.system in
      obj (
        field (codes "node_id") (str q.node_id) (
          field (codes "agent_version") (str q.agent_version) (
            field (codes "os") (str q.os) (
              field (codes "architecture") (str q.architecture) (
                field (codes "kernel_version") (str q.kernel_version) (
                  field (codes "capabilities")
                    (elim q.capabilities [ [] ↦ null | t ∷ ts ↦ arr (names (t ∷ ts)) ])
                    (field (codes "services") null (
                      field (codes "system")
                        (obj (
                          field (codes "cpu_percent") (R.print_float m.cpu_percent) (
                            field (codes "memory_used_mb") (num m.memory_used_mb) (
                              field (codes "disk_free_gb") (R.print_float m.disk_free_gb)
                                (field (codes "load_avg_1m") (R.print_float m.load_avg_1m) end)))))
                        end))))))))

  -- sendHeartbeat, whose outcome is only logged.
  unfoldable pub send_heartbeat :
      World
      → (Text → Text → Server)
      → Text
      → Text
      → Text
      → List Text
      → Probe
      → Events
      → Result HeartbeatResponse × Events
  unfolding heartbeat_json collect_system_info
  send_heartbeat W plane base_url node_id version caps p =
      let (os, arch, kernel) = collect_system_info p in
      heartbeat W plane base_url (
        heartbeat_json (record {
          node_id = node_id;
          agent_version = version;
          os = os;
          architecture = arch;
          kernel_version = kernel;
          capabilities = caps;
          system = collect_system_metrics R p;
        }))
