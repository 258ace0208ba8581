-- ===== src/Handlers/Table/Reported.antt =====
-- What the agent reports, with the handlers that it registers.
use routestack_agent.Base.{
  Text, Bool, true, false, List, [], ◌∷◌, ◌++◌, map, some, ◌≡◌, inl, inr, refl, arith, text_eq,
  Bool-cases, All,
}
use routestack_agent.Base.Assoc.{lookup, insert}
use routestack_agent.World.{World, History}
use routestack_agent.Executor.{Handler, Executor, new_executor, register}
use routestack_agent.Agent.Poll.{Claim, poll}
use routestack_agent.Agent.Poll.Reports.{claimed, IsStatus, IsProper, ProperHandlers, poll-reports}
use routestack_agent.Handlers.Table.{docker_handlers, core_handlers, register_all, registered}
use routestack_agent.Handlers.Table.Statuses.{
  IsAnswer, start-IsAnswer, stop-IsAnswer, restart-IsAnswer, install-IsAnswer,
  service_revision-IsAnswer, status-IsAnswer, logs-IsAnswer, create_tunnel-IsAnswer,
  remove_tunnel-IsAnswer, health-IsAnswer, firewall-IsAnswer, certificate-IsAnswer,
}

AllProper : List (Text × Handler) → Type 0
AllProper = All (λ e. IsProper e.1)

lookup-IsProper :
    (handlers : List (Text × Handler)) (op_type : Text) (f : Handler)
    → AllProper handlers
    → lookup op_type handlers ≡ some f
    → IsProper f
unfolding lookup AllProper
lookup-IsProper [] op_type f proper e = absurd (ground arith)
lookup-IsProper ((k, g) ∷ handlers) op_type f (first, others) e =
    elim (Bool-cases (text_eq k op_type)) [
      | inl same ↦ let found : f ≡ g = ground arith in rw found first
      | inr other ↦ lookup-IsProper handlers op_type f others (ground arith)
    ]

module _ (W : World) where
  core-AllProper : AllProper (core_handlers W)
  unfolding AllProper IsAnswer
  core-AllProper = (firewall-IsAnswer W, (certificate-IsAnswer W, tt))

  all-AllProper : AllProper (docker_handlers W ++ core_handlers W)
  unfolding AllProper IsAnswer
  all-AllProper = (
    start-IsAnswer W,
    (
      stop-IsAnswer W,
      (
        restart-IsAnswer W,
        (
          install-IsAnswer W,
          (
            service_revision-IsAnswer W,
            (
              status-IsAnswer W,
              (
                logs-IsAnswer W,
                (
                  create_tunnel-IsAnswer W,
                  (
                    remove_tunnel-IsAnswer W,
                    (health-IsAnswer W, (firewall-IsAnswer W, (certificate-IsAnswer W, tt))),
                  ),
                ),
              ),
            ),
          ),
        ),
      ),
    ),
  )

  -- The executor with these handlers.
  abbrev pub fresh : List (Text × Handler) → Executor
  fresh handlers = record { handlers = handlers; seen = [] }

  abbrev pub started : Bool → Executor
  started true = fresh (docker_handlers W ++ core_handlers W)
  started false = fresh (core_handlers W)

  pub registered-started : (has_docker : Bool) → registered W has_docker ≡ some (started has_docker)
  unfolding registered register_all register insert lookup new_executor text_eq
  registered-started true = refl
  registered-started false = refl

  pub started-ProperHandlers : (has_docker : Bool) → ProperHandlers (started has_docker)
  started-ProperHandlers true op_type f e =
      lookup-IsProper (docker_handlers W ++ core_handlers W) op_type f all-AllProper e
  started-ProperHandlers false op_type f e =
      lookup-IsProper (core_handlers W) op_type f core-AllProper e

  -- With and without a Docker client, the registration of the handlers does not panic, and whatever
  -- is claimed then, whatever the payloads, and whatever the host answers: each claimed operation
  -- is reported once, under its ID, in the order of the claims, with a status of the contract.
  registered-reports :
      (redact : Text → Text) (has_docker : Bool) (claims : List Claim) (h : History)
      → (x : Executor) × (registered W has_docker ≡ some x)
        × (map (λ c. c.id) (poll W redact claims x h).0 ≡ map (λ op. op.id) (claimed claims))
        × All (λ c. IsStatus c.status) (poll W redact claims x h).0
  registered-reports redact has_docker claims h =
      let proper = started-ProperHandlers has_docker in
      let (ids, statuses) = poll-reports W redact claims (started has_docker) h proper in
      (started has_docker, registered-started has_docker, ids, statuses)
