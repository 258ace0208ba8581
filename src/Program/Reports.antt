-- ===== src/Program/Reports.antt =====
-- What the program reports, from `run` to its end (cmdRun of cmd/routestack-agent/main.go).
use routestack_agent.Base.{Text, true, ◌++◌, map, ◌≡◌, inl, inr, Bool-cases}
use routestack_agent.World.{World, History, Result-cases}
use routestack_agent.Files.{Disk}
use routestack_agent.State.{AgentState, load_state, is_enrolled}
use routestack_agent.Agent.Config.{Config, load_config}
use routestack_agent.Agent.Run.{Agent, launch, start, Reach}
use routestack_agent.Agent.Run.Refine.{pending}
use routestack_agent.Agent.Run.Contract.{Answered, delivered, Reach-Answered}
use routestack_agent.Agent.Run.Panic.{IsUnharmed, Reach-IsUnharmed}
use routestack_agent.Handlers.Table.Reported.{started, registered-started, started-ProperHandlers}
use routestack_agent.Enroll.{Outside}
use routestack_agent.Program.{KeyPair, runs, new_client, launch_agent, run_with, cmd_run}

module _ (O : Outside) (key_pair : KeyPair) (W : World) where
  -- If the agent is started, it is in its first state, with its handlers registered.
  launch_agent-runs :
      (s : AgentState) (d : Disk) (h : History) (a : Agent)
      → launch_agent O key_pair W s d h ≡ runs a
      → a ≡ launch (started W true) h
  unfolding launch_agent start
  launch_agent-runs s d h a e = elim (Bool-cases (is_enrolled s d)) [
    | inl enrolled ↦
        let there = rw (launch_agent, registered-started W true, start, enrolled) at e in cc
    | inr missing ↦
        let there = rw (launch_agent, registered-started W true, start, missing) at e in absurd cc
  ]

  run_with-runs :
      (c : Config) (d : Disk) (h : History) (a : Agent)
      → run_with O key_pair W c d h ≡ runs a
      → a ≡ launch (started W true) h
  unfolding run_with
  run_with-runs c d h a e = elim (Result-cases (load_state W O.state_fault c.paths.state_file d)) [
    | inr (m, f) ↦ let there = rw (run_with, f) at e in absurd cc
    | inl (s, f) ↦ elim (Bool-cases (is_enrolled s d)) [
      | inr g ↦ let there = rw (run_with, f, g) at e in absurd cc
      | inl g ↦
          elim (Result-cases
            (new_client O key_pair s.cert_path s.key_path c.controller.ca_cert_path d)) [
              | inr (m, k) ↦ let there = rw (run_with, f, g, k) at e in absurd cc
              | inl (_, k) ↦ launch_agent-runs s d h a (rw (run_with, f, g, k) at e)
            ]
    ]
  ]

  cmd_run-runs :
      (config_path : Text) (d : Disk) (h : History) (a : Agent)
      → cmd_run O key_pair W config_path d h ≡ runs a
      → a ≡ launch (started W true) h
  unfolding cmd_run
  cmd_run-runs config_path d h a e =
      elim (Result-cases (load_config O.parse_config O.missing O.config_fault config_path d)) [
        | inr (m, f) ↦ let there = rw (cmd_run, f) at e in absurd cc
        | inl (c, f) ↦ run_with-runs c d h a (rw (cmd_run, f) at e)
      ]

  -- If `run` starts the agent, then whatever the control plane and the host answer and however the
  -- goroutines interleave: no panic ends the program, and the reports sent, with the one being sent,
  -- answer the operations that were executed one for one, in their order, each with a status of the
  -- contract.
  pub Reach-cmd_run :
      (redact : Text → Text) (config_path : Text) (d : Disk) (h : History) (a : Agent) {s : Agent}
      → cmd_run O key_pair W config_path d h ≡ runs a
      → Reach W redact a s
      → IsUnharmed s.main
        × Answered (delivered s.events) (map (λ p. p.0) s.sent ++ pending s.poller)
  Reach-cmd_run redact config_path d h a e r =
      let first : a ≡ launch (started W true) h = cmd_run-runs config_path d h a e in
      let proper = started-ProperHandlers W true in
      let r' = rw first at r in
      (
        Reach-IsUnharmed W redact (started W true) h proper r',
        Reach-Answered W redact (started W true) h proper r',
      )
