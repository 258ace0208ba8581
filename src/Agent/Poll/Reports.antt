-- ===== src/Agent/Poll/Reports.antt =====
-- What the agent reports on the operations that it claims (internal/agent/agent.go).
use mathlib.Core.Path.{ap₂}
use routestack_agent.Base.{
  Text, List, [], ◌∷◌, map, Option-cases, Bool-cases, inl, inr, Option, none, some, codes, ◌≡◌,
  refl, arith, ◌⊎◌, All, false, text_eq_refl,
}
use routestack_agent.Base.Assoc
use routestack_agent.World.{World, History, Result, ok, err}
use routestack_agent.Executor.{
  Executor, Operation, OperationResult, Handler, Outcome, execute, conclude,
}
use routestack_agent.Agent.Poll.{CompleteRequest, Claim, report, poll}

-- The operations among the answers to the claims.
abbrev pub claimed : List Claim → List Operation
claimed [] = []
claimed (err e ∷ claims) = claimed claims
claimed (ok none ∷ claims) = claimed claims
claimed (ok (some op) ∷ claims) = op ∷ claimed claims

abbrev pub IsStatus : Text → Type 0
IsStatus s = (s ≡ codes "success") ⊎ (s ≡ codes "degraded") ⊎ (s ≡ codes "failed")

-- A handler that returns an error, or a result with one of the three statuses.
abbrev pub Answers : Result (Option OperationResult) → Type 0
Answers (err e) = Unit
Answers (ok none) = ⊥
Answers (ok (some r)) = IsStatus r.status

abbrev pub IsProper : Handler → Type 0
IsProper f = (op : Operation) (h : History) → Answers (f op h).0

abbrev pub ProperHandlers : Executor → Type 0
ProperHandlers x =
    (op_type : Text) (f : Handler) → Assoc.lookup op_type x.handlers ≡ some f → IsProper f

module _ (W : World) (redact : Text → Text) where
  abbrev pub Reported : Operation → Outcome → Type 0
  Reported op o =
      (c : CompleteRequest) × (report W redact op o ≡ some c) × (c.id ≡ op.id) × IsStatus c.status

  conclude-Reported :
      (op : Operation) (r : Result (Option OperationResult))
      → Answers r
      → Reported op (conclude W redact op r)
  unfolding conclude report
  conclude-Reported op (err e) a = (_, refl, refl, ground arith)
  conclude-Reported op (ok none) a = absurd a
  conclude-Reported op (ok (some r)) a = (_, refl, refl, a)

  pub execute-Reported :
      (x : Executor) (op : Operation) (h : History)
      → ProperHandlers x
      → Reported op (execute W redact x op h).0
  unfolding execute report
  execute-Reported x op h proper = elim (Option-cases (Assoc.lookup op.type x.handlers)) [
    | inl e ↦ rw (e, execute) (_, refl, refl, ground arith)
    | inr (f, e) ↦ elim (Bool-cases (Assoc.has op.id x.seen)) [
      | inl s ↦ rw (e, execute, s) (_, refl, refl, ground arith)
      | inr s ↦ rw (e, execute, s) (conclude-Reported op (f op h).0 (proper op.type f e op h))
    ]
  ]

  pub handlers-execute :
      (x : Executor) (op : Operation) (h : History)
      → (execute W redact x op h).1.handlers ≡ x.handlers
  unfolding execute
  handlers-execute x op h = ground arith

  -- Whatever is claimed, if every registered handler gives an error or a result with a status of the
  -- contract: each claimed operation is reported once, under its ID, in the order of the claims, and
  -- every report has one of the three statuses.
  pub poll-reports :
      (claims : List Claim) (x : Executor) (h : History)
      → ProperHandlers x
      → let reports = (poll W redact claims x h).0 in
        (map (λ c. c.id) reports ≡ map (λ op. op.id) (claimed claims))
        × All (λ c. IsStatus c.status) reports
  unfolding poll
  poll-reports [] x h proper = (refl, tt)
  poll-reports (err e ∷ claims) x h proper = poll-reports claims x h proper
  poll-reports (ok none ∷ claims) x h proper = poll-reports claims x h proper
  poll-reports (ok (some op) ∷ claims) x h proper =
      let (o, x', h') = execute W redact x op h in
      let same : x'.handlers ≡ x.handlers = handlers-execute x op h in
      let rest = poll-reports claims x' h' (λ t f e. proper t f (rw same at e)) in
      let (c, e, i, s) = execute-Reported x op h proper in
      rw e (ap₂ (λ a ids. a ∷ ids) i rest.0, (s, rest.1))

  -- If a handler fails on an operation with a new ID and the operation is claimed again, the agent
  -- reports it as failed and then as a success, and the handler is not called again.
  pub poll_failed_again :
      (op : Operation) (x : Executor) (f : Handler) (e : Text) (h : History)
      → Assoc.lookup op.type x.handlers ≡ some f
      → Assoc.has op.id x.seen ≡ false
      → (f op h).0 ≡ err e
      → let (reports, _, h') = poll W redact (ok (some op) ∷ ok (some op) ∷ []) x h in
        (map (λ c. c.status) reports ≡ codes "failed" ∷ codes "success" ∷ []) × (h' ≡ (f op h).1)
  unfolding poll execute
  poll_failed_again op x f e h known fresh fails =
      ground (arith, Assoc.has-insert op.id op.id (W.now h) x.seen, text_eq_refl op.id)
