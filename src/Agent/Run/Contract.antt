-- ===== src/Agent/Run/Contract.antt =====
-- What the agent as a whole reports while Run is under way (internal/agent/agent.go).
use mathlib.Core.Path.{ap₂}
use routestack_agent.Base.{
  Text, List, [], ◌∷◌, ◌++◌, map, Option, none, some, ◌≡◌, refl, ◌∙◌, ap, All,
}
use routestack_agent.World.{World, History, ok, err}
use routestack_agent.Executor.{Executor, Operation, execute, evict}
use routestack_agent.Executor.Window.{Event, delivery, tick}
use routestack_agent.Agent.Poll.{CompleteRequest, Claim, report, continue, poll}
use routestack_agent.Agent.Poll.Reports.{
  claimed, IsStatus, ProperHandlers, execute-Reported, handlers-execute,
}
use routestack_agent.Agent.Run.{Agent, launch, Reach}
use routestack_agent.Agent.Run.Refine.{Served, serve, after, pending, Reach-IsServed}

-- The operations among the events.
abbrev pub delivered : List Event → List Operation
delivered [] = []
delivered (delivery op ∷ es) = op ∷ delivered es
delivered (tick now ∷ es) = delivered es

-- One report for each operation, in order, with a status of the contract.
abbrev pub Answered : List Operation → List CompleteRequest → Type 0
Answered ops cs = (map (λ c. c.id) cs ≡ map (λ op. op.id) ops) × All (λ c. IsStatus c.status) cs

module _ (W : World) (redact : Text → Text) where
  after-continue :
      (o : Option CompleteRequest) (rest : Served) (stop : Executor × History)
      → after W redact o rest stop ≡ continue W redact o rest stop
  unfolding after continue
  after-continue none rest stop = refl
  after-continue (some c) rest stop = refl

  serve-Answered :
      (es : List Event) (x : Executor) (h : History)
      → ProperHandlers x
      → Answered (delivered es) (serve W redact x es h).0
  unfolding serve after
  serve-Answered [] x h proper = (refl, tt)
  serve-Answered (tick now ∷ es) x h proper =
      serve-Answered es (evict now x) h (unfold evict in proper)
  serve-Answered (delivery op ∷ es) x h proper =
      let (o, x', h') = execute W redact x op h in
      let same : x'.handlers ≡ x.handlers = handlers-execute W redact x op h in
      let rest = serve-Answered es x' h' (λ t f e. proper t f (rw same at e)) in
      let (c, e, i, s) = execute-Reported W redact x op h proper in
      rw e (ap₂ (λ a ids. a ∷ ids) i rest.0, (s, rest.1))

  -- Without ticks of the eviction, the loop is the sequential poll loop.
  serve-poll :
      (claims : List Claim) (x : Executor) (h : History)
      → serve W redact x (map delivery (claimed claims)) h ≡ poll W redact claims x h
  unfolding serve poll
  serve-poll [] x h = refl
  serve-poll (err e ∷ claims) x h = serve-poll claims x h
  serve-poll (ok none ∷ claims) x h = serve-poll claims x h
  serve-poll (ok (some op) ∷ claims) x h =
      let (o, x', h') = execute W redact x op h in
      after-continue (report W redact op o) _ (x', h')
      ∙ ap (λ r. continue W redact (report W redact op o) r (x', h')) (serve-poll claims x' h')

  -- However the goroutines of Run interleave, if every registered handler gives an error or a result
  -- with a status of the contract: the reports sent, with the one being sent, answer the operations
  -- that were executed one for one, in their order, and each has a status of the contract.
  pub Reach-Answered :
      (x : Executor) (h : History) {s : Agent}
      → ProperHandlers x
      → Reach W redact (launch x h) s
      → Answered (delivered s.events) (map (λ p. p.0) s.sent ++ pending s.poller)
  Reach-Answered x h {s} proper r =
      rw (Reach-IsServed W redact x h r) at (serve-Answered s.events x h proper)
