-- ===== src/Examples/Agent.antt =====
-- One run of the agent: an operation is claimed and executed, and the context ends before its report
-- is sent.
use routestack_agent.Base.{Text, false, true, some, none, ◌≡◌, refl, codes}
use routestack_agent.Base.Assoc.{lookup}
use routestack_agent.World.{ok}
use routestack_agent.Redact.{has_match, uuid, redact_secrets}
use routestack_agent.Redact.Uuid.{has_match-redact_secrets}
use routestack_agent.Executor.{Handler, execute}
use routestack_agent.Agent.Poll.{CompleteRequest, report}
use routestack_agent.Agent.Run.{
  Agent, launch, executing, executed, reported, is_alive, Reach, here, next, move, claim, accept,
  execution, signal, completion,
}
use routestack_agent.Agent.Run.Refine.{IsServed, Reach-IsServed}
use routestack_agent.Agent.Run.Lost.{ButLast, Reach-ButLast}
use routestack_agent.Agent.Run.Shutdown.{IsOver, Way, can_return}
use routestack_agent.Examples.Node.{host, keep_text, nothing}
use routestack_agent.Examples.Operations.{pong, ping, fresh}

abbrev node : Text
node = codes "node 123e4567-e89b-12d3-a456-426614174000 is down"

has_match-redact_secrets_example : has_match uuid none (redact_secrets node) ≡ false
has_match-redact_secrets_example = has_match-redact_secrets node

abbrev tells : Handler
tells op h =
    (ok (some (record { status = codes "degraded"; message = node; structured = none })), h)

abbrev launched : Agent
launched = launch (fresh pong) nothing

abbrev at_work : Agent
at_work = record launched { poller = executing (ping (codes "a")) }

abbrev worked : Agent
worked = record (executed host keep_text (ping (codes "a")) at_work) { cancelled = true }

abbrev ponged : CompleteRequest
ponged = record { id = codes "a"; status = codes "success"; result = codes "pong" }

abbrev told : Agent
told = reported ponged worked

told-Reach : Reach host keep_text launched told
unfolding launch is_alive executed execute lookup report
told-Reach =
    next
      (next
        (next
          (next (next here (move refl (claim refl refl)))
            (move refl (accept (ping (codes "a")) refl)))
          (move refl (execution (ping (codes "a")) refl)))
        (move refl signal))
      (move refl (completion ponged refl))

Reach-IsServed_example : IsServed host keep_text (fresh pong) nothing told
Reach-IsServed_example = Reach-IsServed host keep_text (fresh pong) nothing told-Reach

Reach-ButLast_example : ButLast told.sent
Reach-ButLast_example = Reach-ButLast host keep_text (fresh pong) nothing told-Reach

can_return_example : (t : Agent) × Way host keep_text 8 told t × IsOver t
unfolding launch is_alive executed execute lookup report reported
can_return_example = can_return host keep_text told refl
