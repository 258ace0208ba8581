-- ===== src/Handlers/Table/Statuses.antt =====
-- What the registered handlers answer.
use routestack_agent.Base.{
  Text, Bool, true, false, Option, none, some, inl, inr, refl, codes, is_empty, pos, if◌then◌else◌,
  Bool-cases,
}
use routestack_agent.World.{World, M, History, Result, ok, err, ◌>>=◌, pure, attempt}
use routestack_agent.Executor.{Operation, OperationResult}
use routestack_agent.Agent.Poll.Reports.{Answers}
use routestack_agent.Components.{install}
use routestack_agent.Docker.Client.{start, stop}
use routestack_agent.Service.Manager.{Status, apply_revision, collect_status, collect_logs}
use routestack_agent.Tunnel
use routestack_agent.Firewall
use routestack_agent.Health.{Report, check}
use routestack_agent.Certs.Command
use routestack_agent.Certs.Command.{manage}
use routestack_agent.Handlers.Payload.{
  stop_timeout, component_setter, no_component, revision_setter, no_revision, service_setter,
  logs_setter, tunnel_setter, no_tunnel, ruleset_setter, no_rules, check_setter, no_check,
}
use routestack_agent.Handlers.Certificate.{request_setter, no_request}
use routestack_agent.Handlers.Containers.{
  plain, settle, start_handler, stop_handler, restart_handler, with_container,
  extract_container_name, find_and_adopt, start_again,
}
use routestack_agent.Handlers.Managers.{
  install_handler, service_revision_handler, status_handler, logs_handler, create_tunnel_handler,
  remove_tunnel_handler, firewall_handler, health_handler, certificate_handler, require_service,
  payload_of, health_result, status_result, logs_result, certificate_result,
}

-- A computation that ends in an error or in a result with a status of the contract.
unfoldable pub IsAnswer : M (Option OperationResult) → Type 0
IsAnswer m = (h : History) → Answers (m h).0

-- A computation with the result `r`, after the calls `h'`.
abbrev yields : {A : Type 0} → Result A → History → M A
yields r h' h = (r, h')

bind-IsAnswer :
    {A : Type 0} (m : M A) (f : A → M (Option OperationResult))
    → ((a : A) → IsAnswer (f a))
    → IsAnswer (m >>= f)
unfolding IsAnswer
bind-IsAnswer {A = A} m f each h = go (m h).0 (m h).1
  where
    go : (r : Result A) (h' : History) → Answers ((yields r h' >>= f) h).0
    go (ok a) h' = each a h'
    go (err e) h' = tt

-- An action whose error is the message of a failed result.
attempt-IsAnswer :
    (m : M (Unit {0})) (context message : Text)
    → IsAnswer (attempt m >>= λ r. pure (settle context message r))
unfolding IsAnswer
attempt-IsAnswer m context message =
    bind-IsAnswer (attempt m) (λ r. pure (settle context message r)) go
  where
    go : (r : Result (Unit {0})) → IsAnswer (pure (settle context message r))
    go (ok _) h = inl refl
    go (err e) h = inr (inr refl)

if-IsAnswer :
    (b : Bool) (m n : M (Option OperationResult))
    → IsAnswer m
    → IsAnswer n
    → IsAnswer (if b then m else n)
if-IsAnswer true m n hm hn = hm
if-IsAnswer false m n hm hn = hn

missing-IsAnswer : IsAnswer (pure (plain (codes "failed") (codes "container not found")))
unfolding IsAnswer
missing-IsAnswer h = inr (inr refl)

module _ (W : World) (op : Operation) where
  with_container-IsAnswer :
      (act : Text → Text → M (Option OperationResult))
      → ((name id : Text) → IsAnswer (act name id))
      → IsAnswer (with_container W op.payload act)
  unfolding with_container
  with_container-IsAnswer act each = bind-IsAnswer (extract_container_name W op.payload) _ λ name.
      bind-IsAnswer (find_and_adopt W name) _
        λ id. if-IsAnswer (is_empty id) _ (act name id) missing-IsAnswer (each name id)

  pub start-IsAnswer : IsAnswer (start_handler W op)
  unfolding start_handler
  start-IsAnswer = with_container-IsAnswer _ λ name id. attempt-IsAnswer (start W id) (codes "") _

  pub stop-IsAnswer : IsAnswer (stop_handler W op)
  unfolding stop_handler
  stop-IsAnswer =
      with_container-IsAnswer _
        λ name id. attempt-IsAnswer (stop W id (stop_timeout op.payload)) (codes "") _

  start_again-IsAnswer :
      (name id : Text) (r : Result (Unit {0})) → IsAnswer (start_again W name id r)
  unfolding start_again IsAnswer
  start_again-IsAnswer name id (err e) = λ h. inr (inr refl)
  start_again-IsAnswer name id (ok _) = attempt-IsAnswer (start W id) (codes "start: ") _

  pub restart-IsAnswer : IsAnswer (restart_handler W op)
  unfolding restart_handler
  restart-IsAnswer = with_container-IsAnswer _ λ name id.
      bind-IsAnswer (attempt (stop W id (stop_timeout op.payload))) _
        λ r. start_again-IsAnswer name id r

  pub install-IsAnswer : IsAnswer (install_handler W op)
  unfolding install_handler
  install-IsAnswer =
      bind-IsAnswer (payload_of W (codes "component") component_setter no_component op) _
        λ c. attempt-IsAnswer (install W c) (codes "") _

  pub service_revision-IsAnswer : IsAnswer (service_revision_handler W op)
  unfolding service_revision_handler
  service_revision-IsAnswer =
      bind-IsAnswer (payload_of W (codes "service revision") revision_setter no_revision op) _ λ p.
        bind-IsAnswer (require_service W p.service_id) _
          λ _. attempt-IsAnswer (apply_revision W p.service_id p.revision p.spec) (codes "") _

  pub create_tunnel-IsAnswer : IsAnswer (create_tunnel_handler W op)
  unfolding create_tunnel_handler
  create_tunnel-IsAnswer =
      bind-IsAnswer (payload_of W (codes "tunnel") tunnel_setter no_tunnel op) _
        λ req. attempt-IsAnswer (Tunnel.create W req) (codes "") _

  pub remove_tunnel-IsAnswer : IsAnswer (remove_tunnel_handler W op)
  unfolding remove_tunnel_handler
  remove_tunnel-IsAnswer =
      bind-IsAnswer (payload_of W (codes "tunnel") tunnel_setter no_tunnel op) _
        λ req. attempt-IsAnswer (Tunnel.remove W req) (codes "") _

  pub firewall-IsAnswer : IsAnswer (firewall_handler W op)
  unfolding firewall_handler
  firewall-IsAnswer =
      bind-IsAnswer (payload_of W (codes "firewall") ruleset_setter no_rules op) _
        λ rs. attempt-IsAnswer (Firewall.apply_revision W rs) (codes "") _

  status_result-Answers : (r : Result Status) → IsAnswer (pure (status_result W r))
  unfolding IsAnswer
  status_result-Answers (err e) h = inr (inr refl)
  status_result-Answers (ok s) h = inl refl

  logs_result-Answers : (r : Result Text) → IsAnswer (pure (logs_result W r))
  unfolding IsAnswer
  logs_result-Answers (err e) h = inr (inr refl)
  logs_result-Answers (ok logs) h = inl refl

  pub status-IsAnswer : IsAnswer (status_handler W op)
  unfolding status_handler
  status-IsAnswer =
      bind-IsAnswer (payload_of W (codes "status") service_setter (codes "") op) _ λ id.
        bind-IsAnswer (require_service W id) _
          λ _. bind-IsAnswer (attempt (collect_status W id)) _ status_result-Answers

  pub logs-IsAnswer : IsAnswer (logs_handler W op)
  unfolding logs_handler
  logs-IsAnswer =
      bind-IsAnswer (payload_of W (codes "logs") logs_setter (codes "", pos 0) op) _ λ p.
        bind-IsAnswer (require_service W p.0) _
          λ _. bind-IsAnswer (attempt (collect_logs W p.0 p.1)) _ logs_result-Answers

  health_result-Answers : (r : Result Report) → IsAnswer (pure (health_result W r))
  unfolding IsAnswer
  health_result-Answers (err e) h = inr (inr refl)
  health_result-Answers (ok report) h = elim (Bool-cases report.healthy) [
    | inl e ↦ rw e (inl refl)
    | inr e ↦ rw e (inr (inl refl))
  ]

  pub health-IsAnswer : IsAnswer (health_handler W op)
  unfolding health_handler
  health-IsAnswer =
      bind-IsAnswer (payload_of W (codes "health check") check_setter no_check op) _ λ p.
        bind-IsAnswer (require_service W p.0) _
          λ _. bind-IsAnswer (attempt (check W p.0 p.1)) _ health_result-Answers

  certificate_result-Answers :
      (action : Text) (r : Result (Command.Report × Option Text))
      → IsAnswer (pure (certificate_result W action r))
  unfolding IsAnswer
  certificate_result-Answers action (err e) h = inr (inr refl)
  certificate_result-Answers action (ok (report, some e)) h = inr (inr refl)
  certificate_result-Answers action (ok (report, none)) h = inl refl

  pub certificate-IsAnswer : IsAnswer (certificate_handler W op)
  unfolding certificate_handler
  certificate-IsAnswer =
      bind-IsAnswer (payload_of W (codes "certificate") request_setter no_request op) _ λ req.
        bind-IsAnswer (attempt (manage W (codes "certbot") req)) _
          λ r. certificate_result-Answers req.action r
