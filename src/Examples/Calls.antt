-- ===== src/Examples/Calls.antt =====
-- A claim, a line of /proc/stat, and lines of /proc/meminfo.
use routestack_agent.Base.{
  ◌%◌, ◌^◌, [], ◌∷◌, ◌++◌, none, some, ◌≡◌, refl, arith, codes, bytes, decimal, pos, ℕ, is_space,
  text_eq,
}
use routestack_agent.Json.{null}
use routestack_agent.World.{ok}
use routestack_agent.Executor.{Operation}
use routestack_agent.Api.Retry.{Server, request, replied}
use routestack_agent.Api.Calls.{claim_operation}
use routestack_agent.Api.Calls.Answers.{work_json, claim_operation-work_json}
use routestack_agent.Api.Probe.{read_cpu_stat, used_memory}
use routestack_agent.Api.Probe.Cpu.{stat_line, total_of, read_cpu_stat-stat_line}
use routestack_agent.Api.Probe.Memory.{Entry, IsEntry, meminfo, used_memory-meminfo}
use routestack_agent.Examples.Node.{host}

abbrev pub job : Operation
job = record { id = codes "a"; type = codes "PING"; payload = some null }

abbrev pub panel : Server
panel = record {
  new_request = λ method url. ok tt;
  reply = λ h. replied 200 (codes "work") none;
  done = λ h n. none;
}

claim_operation-work_json_example :
    claim_operation
      (record host { parse = λ s. ok (work_json job null) })
      (λ url body. panel)
      (codes "https://panel")
      (codes "n1")
      []
    ≡ (ok (record { operation = some job }), request ∷ [])
claim_operation-work_json_example =
    claim_operation-work_json (record host { parse = λ s. ok (work_json job null) })
      (λ url body. panel) (codes "https://panel") (codes "n1") (codes "work") job null [] refl refl
      refl refl

read_cpu_stat-stat_line_example :
    read_cpu_stat (some (stat_line (10 ∷ 0 ∷ 5 ∷ 80 ∷ 5 ∷ []) ++ 10 ∷ codes "cpu0 1"))
    ≡ ok (record { total = total_of (10 ∷ 0 ∷ 5 ∷ 80 ∷ 5 ∷ []) % 2 ^ 64; idle = 80 })
unfolding bytes decimal
read_cpu_stat-stat_line_example =
    read_cpu_stat-stat_line 10 0 5 80 (5 ∷ []) (codes "cpu0 1")
      (omega arith, (omega arith, (omega arith, (omega arith, (omega arith, tt))))) (omega arith)

abbrev meminfo_total : ℕ → Entry
meminfo_total n = record { key = codes "MemTotal"; padding = 6; value = n; unit = codes "kB" ∷ [] }

abbrev meminfo_available : ℕ → Entry
meminfo_available n = record {
  key = codes "MemAvailable";
  padding = 3;
  value = n;
  unit = codes "kB" ∷ [];
}

total_IsEntry : IsEntry (meminfo_total 16384000)
unfolding is_space bytes decimal
total_IsEntry = record {
  solid = ground arith;
  plain = refl;
  small = omega arith;
  words = (ground arith, tt);
  fits = omega arith;
}

available_IsEntry : IsEntry (meminfo_available 8089600)
unfolding is_space bytes decimal
available_IsEntry = record {
  solid = ground arith;
  plain = refl;
  small = omega arith;
  words = (ground arith, tt);
  fits = omega arith;
}

used_memory-meminfo_example :
    used_memory
      (some (meminfo (meminfo_total 16384000 ∷ [])))
      (some (meminfo (meminfo_available 8089600 ∷ [])))
    ≡ pos 8100
unfolding text_eq
used_memory-meminfo_example =
    used_memory-meminfo (meminfo_total 16384000 ∷ []) (meminfo_available 8089600 ∷ [])
      (total_IsEntry, tt) (available_IsEntry, tt) (omega arith)
