-- ===== src/Agent/Round.antt =====
-- operationPollLoop of internal/agent/agent.go with its calls of the control plane: claim, execute,
-- report. The control plane and the context are parameters; the calls go through doWithRetry.
pub mod Polled
use routestack_agent.Base.{
  ℕ, zero, suc, Text, Bool, List, [], ◌∷◌, ◌++◌, Option, none, some, if◌then◌else◌,
}
use routestack_agent.World.{World, History, Result, ok, err}
use routestack_agent.Executor.{Executor, Operation, execute}
use routestack_agent.Agent.Poll.{CompleteRequest, Claim, report}
use routestack_agent.Api.Retry.{Server, Events, wait}
use routestack_agent.Api.Calls.{ClaimResponse, claim_operation, complete_operation}

-- The state of the loop: the executor, the calls on the host, and what the calls of the control plane
-- waited for and sent.
pub record Loop : Type 0 where
  pub executor : Executor
  pub host : History
  pub events : Events

-- How an iteration ends: the loop goes on, it returns, or the program ends by a panic.
pub data Iteration : Type 0 where
  again : Loop → Iteration
  returned : Loop → Iteration
  panic : Loop → Iteration

-- What follows an iteration after which the loop goes on.
abbrev pub go_on : (Loop → Iteration) → Iteration → Iteration
go_on next (again s) = next s
go_on next (returned s) = returned s
go_on next (panic s) = panic s

-- The plane answers a URL and a body by what was sent before; the context is done at a moment, or
-- within so many nanoseconds after it.
module _ (W : World) (redact : Text → Text) (plane : Text → Text → Server) (base_url : Text)
    (node_id : Text) (done : Events → ℕ → Bool) where
  -- CompleteOperation, whose outcome is only logged; a nil result was dereferenced before.
  unfoldable pub complete : Option CompleteRequest → Loop → Iteration
  complete none s = panic s
  complete (some c) s =
      let (_, sent) = complete_operation W plane base_url c s.events in
      again (record s { events = sent })

  -- The loop's body after the answer to a claim.
  unfoldable pub answered : Result ClaimResponse → Loop → Iteration
  unfolding complete
  answered (err e) s =
      if done s.events 5000000000
      then returned s
      else again (record s { events = wait 5000000000 ∷ s.events })
  answered (ok resp) s = elim resp.operation [
    | none ↦ again s
    | some op ↦
        let (outcome, x, h) = execute W redact s.executor op s.host in
        complete (report W redact op outcome) (record s { executor = x; host = h })
  ]

  -- One iteration, when the context is not done.
  unfoldable pub round : Loop → Iteration
  unfolding answered
  round s =
      let (resp, events) = claim_operation W plane base_url node_id s.events in
      answered resp (record s { events = events })

  -- At most so many iterations of the loop.
  unfoldable pub rounds : ℕ → Loop → Iteration
  unfolding round
  rounds zero s = again s
  rounds (suc n) s = if done s.events 0 then returned s else go_on (rounds n) (round s)
