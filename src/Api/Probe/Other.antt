-- ===== src/Api/Probe/Other.antt =====
-- internal/api/heartbeat_other.go: the probes on systems other than Linux.
use routestack_agent.Base.{pos, Text, codes}
use routestack_agent.Api.Probe.{Floats, SystemMetrics}

-- CollectSystemInfo, given runtime.GOARCH.
abbrev other_system_info : Text → Text × Text × Text
other_system_info arch = (codes "Development", arch, codes "unknown")

-- CollectSystemMetrics
abbrev other_system_metrics : {F : Type 0} → Floats F → SystemMetrics F
other_system_metrics R = record {
  cpu_percent = R.of_nat 0;
  memory_used_mb = pos 0;
  disk_free_gb = R.of_nat 0;
  load_avg_1m = R.of_nat 0;
}
