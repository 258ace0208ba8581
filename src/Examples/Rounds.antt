-- ===== src/Examples/Rounds.antt =====
-- Three iterations of the poll loop against a control plane that has the same work each time.
use routestack_agent.Base.{Bool, false, [], codes, ℕ, true, some, ◌≡◌}
use routestack_agent.Json.{null}
use routestack_agent.World.{World, ok}
use routestack_agent.Api.Retry.{Events}
use routestack_agent.Api.Calls.Answers.{work_json}
use routestack_agent.Agent.Round.{Loop}
use routestack_agent.Executor.{Executor}
use routestack_agent.Handlers.Table.{registered}
use routestack_agent.Handlers.Table.Rounds.{Answered, registered-Answered}
use routestack_agent.Examples.Node.{host, keep_text, nothing}
use routestack_agent.Examples.Operations.{pong, fresh}
use routestack_agent.Examples.Calls.{job, panel}

abbrev busy : World
busy = record host { parse = λ s. ok (work_json job null) }

abbrev at_start : Loop
at_start = record { executor = fresh pong; host = nothing; events = [] }

abbrev never : Events → ℕ → Bool
never h n = false

registered-Answered_example :
    (x : Executor) × (registered busy true ≡ some x)
    × Answered busy keep_text
        (λ url body. panel)
        (codes "https://panel")
        (codes "n1")
        never
        3
        (record { executor = x; host = nothing; events = [] })
registered-Answered_example =
    registered-Answered busy keep_text (λ url body. panel) (codes "https://panel") (codes "n1")
      never 3 true nothing []
