-- ===== src/Program.antt =====
-- cmd/routestack-agent/main.go: main and cmdRun. Enrolment is in Enroll.
pub mod Launched
pub mod Reports
use routestack_agent.Base.{
  ℕ, Text, Bool, true, List, [], ◌∷◌, ◌++◌, Option, none, some, codes, is_empty, not, text_eq,
  if◌then◌else◌,
}
use routestack_agent.Base.Assoc.{lookup}
use routestack_agent.Paths.{agent_config_dir}
use routestack_agent.World.{World, History, Result, ok, err}
use routestack_agent.Files.{Disk}
use routestack_agent.State.{AgentState, load_state, is_enrolled}
use routestack_agent.Agent.Config.{Config, load_config}
use routestack_agent.Agent.Run.{Agent, start}
use routestack_agent.Handlers.Table.{registered}
use routestack_agent.Enroll.{Outside, load_ca_pool}

-- What main does with its arguments.
pub data Command : Type 0 where
  run_command : List Text → Command
  enroll_command : List Text → Command
  print_version : Command
  -- the usage, and exit status 1
  print_usage : Command

-- main, given os.Args.
unfoldable pub main_command : List Text → Command
main_command [] = print_usage
main_command (program ∷ []) = print_usage
main_command (program ∷ command ∷ args) =
    if text_eq command (codes "run")
    then run_command args
    else if text_eq command (codes "enroll")
    then enroll_command args
    else if text_eq command (codes "version")
    then print_version
    else print_usage

-- defaultConfigPath, given the variable ROUTESTACK_CONFIG.
unfoldable pub default_config_path : Text → Text
default_config_path variable =
    if is_empty variable then agent_config_dir ++ codes "/config.yaml" else variable

-- What becomes of cmdRun before the goroutines are started.
pub data Started : Type 0 where
  exits : ℕ → Started
  panics : Started
  runs : Agent → Started

-- What tls.LoadX509KeyPair makes of the contents of the two files.
abbrev pub KeyPair : Type 0
KeyPair = Text → Text → Result (Unit {0})

module _ (O : Outside) (key_pair : KeyPair) where
  -- tls.LoadX509KeyPair
  unfoldable pub load_key_pair : Text → Text → Disk → Result (Unit {0})
  load_key_pair cert key d = elim (lookup cert d) [
    | none ↦ err O.missing
    | some c ↦ elim (lookup key d) [ none ↦ err O.missing | some k ↦ key_pair c k ]
  ]

  -- NewClient of internal/api/client.go: the client itself has no state.
  unfoldable pub new_client : Text → Text → Text → Disk → Result (Unit {0})
  unfolding load_key_pair
  new_client cert key ca d = elim (load_key_pair cert key d) [
    | err e ↦ err (codes "load client cert: " ++ e)
    | ok _ ↦ elim (load_ca_pool O ca d) [ err e ↦ err (codes "load CA cert: " ++ e) | ok _ ↦ ok tt ]
  ]

  module _ (W : World) where
    -- From the registration on: NewClient of internal/docker never fails.
    unfoldable pub launch_agent : AgentState → Disk → History → Started
    launch_agent s d h = elim (registered W true) [
      | none ↦ panics
      | some x ↦ elim (start s d x h) [ err e ↦ exits 1 | ok a ↦ runs a ]
    ]

    -- What follows the configuration.
    unfoldable pub run_with : Config → Disk → History → Started
    unfolding launch_agent
    run_with c d h = elim (load_state W O.state_fault c.paths.state_file d) [
      | err e ↦ exits 1
      | ok s ↦
          if not (is_enrolled s d)
          then exits 1
          else elim (new_client s.cert_path s.key_path c.controller.ca_cert_path d) [
            | err e ↦ exits 1
            | ok _ ↦ launch_agent s d h
          ]
    ]

    -- cmdRun, from the flags on.
    unfoldable pub cmd_run : Text → Disk → History → Started
    unfolding run_with
    cmd_run config_path d h =
        elim (load_config O.parse_config O.missing O.config_fault config_path d) [
          | err e ↦ exits 1
          | ok c ↦ run_with c d h
        ]
