-- ===== src/Examples/Enrollment.antt =====
-- An enrolment on a fresh node, the state that it leaves, and the agent that runs then.
use routestack_agent.Base.{
  pos, Text, true, List, [], ◌∷◌, ◌++◌, none, some, map, ◌≡◌, refl, codes, text_eq,
}
use routestack_agent.Base.Assoc.{lookup, insert}
use routestack_agent.Json.{names_match, set_text, Json}
use routestack_agent.World.{World, Result, ok}
use routestack_agent.Files.{
  Disk, Os, save, write_file_atomic, created, filled, closed, replaced, replaced_only, rename_file,
  remove_file,
}
use routestack_agent.Executor.{Executor}
use routestack_agent.State.{
  parse_state, is_enrolled, AgentState, fresh_state, state_json, load_state,
}
use routestack_agent.State.Restore.{load_state-save}
use routestack_agent.Agent.Config.{Config, load_config, with_defaults, text_or}
use routestack_agent.Api.Calls.{EnrollRequest, EnrollResponse}
use routestack_agent.Enroll.{
  load_ca_pool, Outside, cert_path, latest, with_enrollment, generate_key_and_csr, key_pem,
  enroll_node, cmd_enroll,
}
use routestack_agent.Enroll.Order.{IsOrdered, enroll_node-IsOrdered}
use routestack_agent.Program.{KeyPair, runs, new_client, cmd_run}
use routestack_agent.Program.Launched.{cmd_run-enrolled, cmd_run-cmd_enroll}
use routestack_agent.Agent.Run.{
  Agent, launch, is_alive, executing, executed, Reach, here, next, move, claim, accept, execution,
}
use routestack_agent.Agent.Run.Refine.{pending}
use routestack_agent.Agent.Run.Contract.{Answered, delivered}
use routestack_agent.Agent.Run.Panic.{IsUnharmed}
use routestack_agent.Program.Reports.{Reach-cmd_run}
use routestack_agent.Redact.{redact_secrets}
use routestack_agent.Handlers.Table.Reported.{started}
use routestack_agent.Handlers.Table.{registered}
use routestack_agent.Examples.Calls.{job}
use routestack_agent.Examples.Node.{host, nothing}

abbrev working : Text → Os
working temp = record {
  temp = temp;
  create_error = none;
  write_error = none;
  chmod_error = none;
  close_error = none;
  rename_error = none;
  removes = true;
}

abbrev state_path : Text
state_path = codes "/var/lib/routestack/state.json"

abbrev granted : EnrollResponse
granted = record { node_id = codes "n1"; certificate = codes "cert"; ca_cert = [] }

abbrev enrolled_state : AgentState
enrolled_state = with_enrollment granted fresh_state

abbrev parser : World
parser = record host { parse = λ s. ok (state_json enrolled_state) }

abbrev print : Json → Text
print v = codes "{}"

abbrev before_rename : Disk
before_rename = insert (codes "/s.tmp") (codes "{}") (insert (codes "/s.tmp") [] [])

load_state-save_example :
    load_state parser none state_path (rename_file (codes "/s.tmp") state_path before_rename)
    ≡ ok enrolled_state
unfolding save created filled closed replaced text_eq with_enrollment
load_state-save_example =
    load_state-save parser (working (codes "/s.tmp")) state_path print enrolled_state [] _
      (before_rename ∷ insert (codes "/s.tmp") [] [] ∷ [] ∷ []) refl tt refl refl

abbrev settings : Config
settings = record {
  agent = record { version = []; node_id = [] };
  controller = record {
    url = codes "https://panel";
    ca_cert_path = codes "/ca.pem";
    heartbeat_interval_sec = pos 0;
    operation_poll_timeout_sec = pos 0;
    connect_timeout_sec = pos 0;
    request_timeout_sec = pos 0;
  };
  paths = record {
    config_dir = [];
    backup_dir = [];
    state_file = [];
    log_file = [];
    nftables_config = [];
  };
  system = record { ssh_port = pos 0; public_interface = [] };
}

abbrev outside : Outside
outside = record {
  generate_key = ok (codes "key");
  create_request = λ name dns key. ok (codes "csr");
  marshal_key = λ key. key;
  pem = λ type contents. type ++ contents;
  has_certificate = λ text. true;
  parse_config = λ text. ok settings;
  print_indented = print;
  missing = codes "no such file or directory";
  config_fault = none;
  ca_fault = none;
  state_fault = none;
  key_os = working (codes "/k.tmp");
  cert_os = working (codes "/c.tmp");
  state_os = working (codes "/s.tmp");
}

abbrev fresh_node : Disk
fresh_node = (codes "/config.yaml", codes "x") ∷ (codes "/ca.pem", codes "ca") ∷ []

abbrev grant : EnrollRequest → Result EnrollResponse
grant q = ok granted

enroll_node-IsOrdered_example :
    IsOrdered
      (lookup cert_path fresh_node)
      (key_pem outside (codes "key"))
      (ok granted)
      (enroll_node outside grant (codes "t") (codes "/ca.pem") fresh_node)
unfolding text_eq generate_key_and_csr
enroll_node-IsOrdered_example =
    enroll_node-IsOrdered outside grant (codes "t") (codes "/ca.pem") (codes "key")
      (codes "CERTIFICATE REQUESTcsr") fresh_node (refl, refl, refl, refl) refl

abbrev all_disks : List Disk
all_disks =
    (cmd_enroll outside parser (λ url. grant) (codes "t") (codes "https://panel")
      (codes "/config.yaml") fresh_node).1

abbrev rest_of : List Disk → List Disk
rest_of [] = []
rest_of (d ∷ ds) = ds

abbrev enrolled_disk : Disk
enrolled_disk = latest [] all_disks

abbrev good_pair : KeyPair
good_pair cert key = ok tt

cmd_run-cmd_enroll_example :
    (x : Executor) × (registered parser true ≡ some x)
    × (cmd_run outside good_pair parser (codes "/config.yaml") enrolled_disk nothing
        ≡ runs (launch x nothing))
unfolding text_eq generate_key_and_csr load_config load_state with_defaults cmd_enroll enroll_node
    write_file_atomic save created filled closed replaced replaced_only lookup with_enrollment
    text_or rename_file insert remove_file new_client load_ca_pool
cmd_run-cmd_enroll_example =
    cmd_run-cmd_enroll outside good_pair parser (λ url. grant) (codes "t") (codes "https://panel")
      (codes "/config.yaml") (codes "key") (codes "CERTIFICATE REQUESTcsr") (with_defaults settings)
      granted fresh_state fresh_node enrolled_disk (rest_of all_disks) nothing
      (refl, refl, refl, refl) (refl, refl, refl, refl, refl, refl, refl) refl refl refl refl refl
      refl refl refl refl refl

abbrev ready_agent : Agent
ready_agent = launch (started parser true) nothing

abbrev at_work : Agent
at_work = record ready_agent { poller = executing job }

at_work-Reach : Reach parser redact_secrets ready_agent (executed parser redact_secrets job at_work)
unfolding launch is_alive
at_work-Reach =
    next (next (next here (move refl (claim refl refl))) (move refl (accept job refl)))
      (move refl (execution job refl))

ready_agent-runs :
    cmd_run outside good_pair parser (codes "/config.yaml") enrolled_disk nothing ≡ runs ready_agent
unfolding text_eq generate_key_and_csr load_config load_state with_defaults cmd_enroll enroll_node
    write_file_atomic save created filled closed replaced replaced_only lookup with_enrollment
    text_or rename_file insert remove_file new_client load_ca_pool is_enrolled parse_state
    names_match set_text
ready_agent-runs =
    cmd_run-enrolled outside good_pair parser (codes "/config.yaml") (with_defaults settings)
      enrolled_state enrolled_disk nothing refl refl refl

Reach-cmd_run_example :
    IsUnharmed (executed parser redact_secrets job at_work).main
    × Answered (delivered (executed parser redact_secrets job at_work).events) (
        map (λ p. p.0) (executed parser redact_secrets job at_work).sent
        ++ pending (executed parser redact_secrets job at_work).poller)
Reach-cmd_run_example =
    Reach-cmd_run outside good_pair parser redact_secrets (codes "/config.yaml") enrolled_disk
      nothing ready_agent ready_agent-runs at_work-Reach
