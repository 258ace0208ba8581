-- ===== src/Program/Launched.antt =====
-- After an enrolment the agent runs (cmdEnroll and cmdRun of cmd/routestack-agent/main.go).
use routestack_agent.Base.{
  Text, true, is_empty, List, [], ◌∷◌, none, some, ◌≡◌, refl, inl, inr, Bool-cases, if◌then◌else◌,
}
use routestack_agent.Base.Assoc.{lookup}
use routestack_agent.World.{World, History, Result, ok}
use routestack_agent.Files.{Disk}
use routestack_agent.State.{AgentState, state_json, load_state, is_enrolled}
use routestack_agent.Executor.{Executor}
use routestack_agent.Agent.Config.{Config, load_config}
use routestack_agent.Agent.Run.{launch, start}
use routestack_agent.Api.Calls.{EnrollRequest, EnrollResponse}
use routestack_agent.Handlers.Table.{registered}
use routestack_agent.Handlers.Table.Reported.{started, registered-started}
use routestack_agent.Enroll.{
  Outside, key_path, cert_path, with_enrollment, generate_key_and_csr, cmd_enroll, key_pem,
  load_ca_pool,
}
use routestack_agent.Enroll.Order.{HasOwnNames}
use routestack_agent.Enroll.Enrolled.{Apart, cmd_enroll-IsReady}
use routestack_agent.Program.{
  KeyPair, exits, runs, new_client, load_key_pair, launch_agent, run_with, cmd_run,
}

module _ (O : Outside) (key_pair : KeyPair) (W : World) where
  launch_agent-enrolled :
      (s : AgentState) (d : Disk) (h : History)
      → is_enrolled s d ≡ true
      → launch_agent O key_pair W s d h ≡ runs (launch (started W true) h)
  unfolding launch_agent start
  launch_agent-enrolled s d h e = rw (launch_agent, registered-started W true, start, e) refl

  -- cmdRun on a disk where everything can be read.
  pub cmd_run-enrolled :
      (config_path : Text) (c : Config) (s : AgentState) (d : Disk) (h : History)
      → load_config O.parse_config O.missing O.config_fault config_path d ≡ ok c
      → load_state W O.state_fault c.paths.state_file d ≡ ok s
      → new_client O key_pair s.cert_path s.key_path c.controller.ca_cert_path d ≡ ok tt
      → cmd_run O key_pair W config_path d h
        ≡ (if is_enrolled s d then runs (launch (started W true) h) else exits 1)
  unfolding cmd_run run_with
  cmd_run-enrolled config_path c s d h configured loaded client =
      elim (Bool-cases (is_enrolled s d)) [
        | inl e ↦
            rw (cmd_run, configured, run_with, loaded, e, client) (launch_agent-enrolled s d h e)
        | inr e ↦ rw (cmd_run, configured, run_with, loaded, e) refl
      ]

-- NewClient with the credentials of an enrolment.
new_client-saved :
    (O : Outside) (key_pair : KeyPair) (certificate key ca : Text) (d : Disk)
    → lookup key_path d ≡ some key
    → lookup cert_path d ≡ some certificate
    → key_pair certificate key ≡ ok tt
    → load_ca_pool O ca d ≡ ok tt
    → new_client O key_pair cert_path key_path ca d ≡ ok tt
unfolding new_client load_key_pair
new_client-saved O key_pair certificate key ca d k c pair trusted =
    rw (new_client, load_key_pair, c, k, pair, trusted) refl

-- If the controller grants the request, its certificate fits the key that was made for it, the names of
-- the files are apart and encoding/json reads back the state that it prints: after an enrolment that
-- exits with 0, if the configuration and the state can be read and the file that the configuration
-- names has certificates of authorities (an empty name has no default here), `run` makes its client of
-- the key and the certificate that the enrolment saved, and starts the agent, with its handlers
-- registered and its loops at their start, exactly when the controller gave the node an ID; if not, it
-- exits with 1.
pub cmd_run-cmd_enroll :
    (O : Outside) (key_pair : KeyPair) (W : World)
    (send : Text → EnrollRequest → Result EnrollResponse) (token url config_path key csr : Text)
    (c : Config) (resp : EnrollResponse) (s : AgentState) (d last : Disk) (ds : List Disk)
    (h : History)
    → HasOwnNames O
    → Apart O c.paths.state_file
    → load_config O.parse_config O.missing O.config_fault config_path d ≡ ok c
    → generate_key_and_csr O [] ≡ ok (key, csr)
    → send url (record { enrollment_token = token; csr = csr; node_id = [] }) ≡ ok resp
    → load_state W O.state_fault c.paths.state_file d ≡ ok s
    → W.parse (O.print_indented (state_json (with_enrollment resp s)))
      ≡ ok (state_json (with_enrollment resp s))
    → cmd_enroll O W send token url config_path d ≡ (0, last ∷ ds)
    → O.state_fault ≡ none
    → load_config O.parse_config O.missing O.config_fault config_path last ≡ ok c
    → key_pair resp.certificate (key_pem O key) ≡ ok tt
    → load_ca_pool O c.controller.ca_cert_path last ≡ ok tt
    → (x : Executor) × (registered W true ≡ some x)
      × (cmd_run O key_pair W config_path last h
          ≡ (if is_empty resp.node_id then exits 1 else runs (launch x h)))
unfolding with_enrollment
cmd_run-cmd_enroll O key_pair W send token url config_path key csr c resp s d last ds h own apart
      configured made granted loaded reads exited fault configured' pair trusted =
    let (loaded', saved_key, saved_cert, ready) =
      cmd_enroll-IsReady O W send token url config_path key csr c resp s d last ds own apart
        configured made granted loaded reads exited in
    let client =
      new_client-saved O key_pair resp.certificate (key_pem O key) c.controller.ca_cert_path last
        saved_key saved_cert pair trusted in
    let state = with_enrollment resp s in
    let runs_if =
      cmd_run-enrolled O key_pair W config_path c state last h configured' (rw fault loaded')
        client in
    (
      started W true,
      registered-started W true,
      elim (Bool-cases (is_empty resp.node_id)) [
        | inl e ↦ rw e (rw (ready, e) at runs_if)
        | inr e ↦ rw e (rw (ready, e) at runs_if)
      ],
    )
