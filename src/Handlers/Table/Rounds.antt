-- ===== src/Handlers/Table/Rounds.antt =====
-- The poll loop of internal/agent/agent.go, with its calls of the control plane and the handlers that
-- cmd/routestack-agent/main.go registers.
use routestack_agent.Base.{ℕ, Text, Bool, map, some, ◌≡◌, All}
use routestack_agent.World.{World, History}
use routestack_agent.Executor.{Executor}
use routestack_agent.Agent.Poll.Reports.{claimed, IsStatus, poll-reports}
use routestack_agent.Agent.Round.{Loop, rounds}
use routestack_agent.Agent.Round.Polled.{last, told, answers, IsPolled, rounds-IsPolled}
use routestack_agent.Api.Retry.{Server, Events}
use routestack_agent.Handlers.Table.{registered}
use routestack_agent.Handlers.Table.Reported.{started, registered-started, started-ProperHandlers}

module _ (W : World) (redact : Text → Text) (plane : Text → Text → Server) (base_url : Text)
    (node_id : Text) (done : Events → ℕ → Bool) (n : ℕ) where
  -- The iterations are polled, and the reports sent are one for each operation that a claim brought.
  pub record Answered (s : Loop) : Type 0 where
    pub polled :
        IsPolled W redact plane base_url node_id done s
          (last (rounds W redact plane base_url node_id done n s))
    pub in_order :
        map (λ c. c.id) (told polled.acts)
        ≡ map (λ op. op.id) (claimed (answers W plane base_url node_id polled.acts s.events))
    pub statuses : All (λ c. IsStatus c.status) (told polled.acts)

  -- With and without a Docker client, the registration of the handlers does not panic, and then
  -- whatever the control plane and the host answer, whatever the payloads, and whenever the context
  -- is done: whatever number of iterations the loop has made, what it waited for and sent is that of
  -- claims, back-offs and reports, in which each operation that a claim brought is reported once, by
  -- a call of CompleteOperation with its ID, in the order of the claims, with a status of the
  -- contract.
  pub registered-Answered :
      (has_docker : Bool) (h : History) (sent : Events)
      → (x : Executor) × (registered W has_docker ≡ some x)
        × Answered (record { executor = x; host = h; events = sent })
  registered-Answered has_docker h sent =
      let x = started W has_docker in
      let s : Loop = record { executor = x; host = h; events = sent } in
      let p = rounds-IsPolled W redact plane base_url node_id done n s in
      let (ids, statuses) =
        poll-reports W redact (answers W plane base_url node_id p.acts s.events) x h
          (started-ProperHandlers W has_docker) in
      (
        x,
        registered-started W has_docker,
        record { polled = p; in_order = rw p.polled at ids; statuses = rw p.polled at statuses },
      )
