-- ===== src/Agent/Poll.antt =====
-- operationPollLoop of internal/agent/agent.go. What the controller answers to the claims, until the
-- context is done, is a list; logging, back-off and the outcome of sending a report change nothing
-- here. The reports that the agent sends are the result.
pub mod Reports
pub mod Clean
use routestack_agent.Base.{Text, List, [], ◌∷◌, Option, none, some, codes, ◌++◌}
use routestack_agent.World.{World, History, Result, ok, err}
use routestack_agent.Executor.{
  Executor, Operation, Outcome, returned, rejected, failed, panicked, execute, safe_message,
}

-- api.CompleteRequest
pub record CompleteRequest : Type 0 where
  pub id : Text
  pub status : Text
  pub result : Text

-- The body of ClaimResponse: an operation if there is one. An error is a failed claim.
abbrev pub Claim : Type 0
Claim = Result (Option Operation)

module _ (W : World) (redact : Text → Text) where
  -- What is reported on an operation: nothing where the executor panicked.
  unfoldable pub report : Operation → Outcome → Option CompleteRequest
  report op (returned r) =
      some (record { id = op.id; status = r.status; result = redact r.message })
  report op (rejected e) = some (record { id = op.id; status = codes "failed"; result = redact e })
  report op (failed e) =
      some
        (record { id = op.id; status = codes "failed"; result = redact (safe_message W redact e) })
  report op panicked = none

  -- A report, and the loop after it; a panic ends the program.
  unfoldable pub continue :
      Option CompleteRequest
      → List CompleteRequest × Executor × History
      → Executor × History
      → List CompleteRequest × Executor × History
  continue none rest (x, h) = ([], x, h)
  continue (some c) (cs, x', h') _ = (c ∷ cs, x', h')

  unfoldable pub poll : List Claim → Executor → History → List CompleteRequest × Executor × History
  unfolding report continue
  poll [] x h = ([], x, h)
  poll (err e ∷ claims) x h = poll claims x h
  poll (ok none ∷ claims) x h = poll claims x h
  poll (ok (some op) ∷ claims) x h =
      let (outcome, x', h') = execute W redact x op h in
      continue (report op outcome) (poll claims x' h') (x', h')
