-- ===== src/Agent/Poll/Clean.antt =====
-- What RedactSecrets of internal/redact/redact.go keeps out of the reports of operationPollLoop.
use routestack_agent.Base.{none, false, ◌≡◌}
use routestack_agent.World.{World}
use routestack_agent.Executor.{Executor}
use routestack_agent.Agent.Poll.{CompleteRequest}
use routestack_agent.Redact.{has_match, uuid}

-- The pattern of UUIDs does not match the text of a report.
abbrev pub IsClean : CompleteRequest → Type 0
IsClean c = has_match uuid none c.result ≡ false
