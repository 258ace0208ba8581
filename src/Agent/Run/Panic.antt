-- ===== src/Agent/Run/Panic.antt =====
-- With handlers that follow the contract, no panic ends Run (internal/agent/agent.go).
use routestack_agent.Base.{Text, ◌≡◌}
use routestack_agent.World.{World, History}
use routestack_agent.Executor.{Executor, Operation, execute, evict}
use routestack_agent.Agent.Poll.Reports.{ProperHandlers, execute-Reported, handlers-execute}
use routestack_agent.Agent.Run.{
  Agent, Main, crashed, launch, settled, executed, reported, evicted, Move, claim, leave, refuse,
  no_work, accept, retry, abandon, execution, completion, beat, ticker, halt, eviction, signal,
  shutdown, graceful, deadline, move, Reach, here, next,
}

-- Run has not been ended by a panic.
abbrev pub IsUnharmed : Main → Type 0
IsUnharmed crashed = ⊥
IsUnharmed _ = Unit

abbrev Holds : Agent → Type 0
Holds s = ProperHandlers s.executor × IsUnharmed s.main

module _ (W : World) (redact : Text → Text) where
  executed-Holds : (op : Operation) (s : Agent) → Holds s → Holds (executed W redact op s)
  unfolding executed settled
  executed-Holds op s (proper, unharmed) =
      let (o, x', h') = execute W redact s.executor op s.history in
      let same : x'.handlers ≡ s.executor.handlers =
        handlers-execute W redact s.executor op s.history in
      let (c, e, _, _) = execute-Reported W redact s.executor op s.history proper in
      rw e ((λ t f g. proper t f (rw same at g)), unharmed)

  Move-Holds : {s t : Agent} → Move W redact s t → Holds s → Holds t
  unfolding reported evicted evict
  Move-Holds (execution op e) inv = executed-Holds op _ inv
  Move-Holds (completion c e) inv = inv
  Move-Holds (claim _ _) inv = inv
  Move-Holds (leave _ _) inv = inv
  Move-Holds (refuse _) inv = inv
  Move-Holds (no_work _) inv = inv
  Move-Holds (accept op _) inv = inv
  Move-Holds (retry _) inv = inv
  Move-Holds (abandon _ _) inv = inv
  Move-Holds (beat _) inv = inv
  Move-Holds (ticker _) inv = inv
  Move-Holds (halt _ _) inv = inv
  Move-Holds (eviction now) inv = inv
  Move-Holds signal inv = inv
  Move-Holds (shutdown _ _) (proper, _) = (proper, tt)
  Move-Holds (graceful _ _ _) (proper, _) = (proper, tt)
  Move-Holds (deadline _) (proper, _) = (proper, tt)

  Reach-Holds :
      (x : Executor) (h : History) {s : Agent}
      → ProperHandlers x
      → Reach W redact (launch x h) s
      → Holds s
  unfolding launch
  Reach-Holds x h proper here = (proper, tt)
  Reach-Holds x h proper (next r (move _ m)) = Move-Holds m (Reach-Holds x h proper r)

  pub Reach-IsUnharmed :
      (x : Executor) (h : History) {s : Agent}
      → ProperHandlers x
      → Reach W redact (launch x h) s
      → IsUnharmed s.main
  Reach-IsUnharmed x h proper r = (Reach-Holds x h proper r).1
