-- ===== src/Examples/Operations.antt =====
-- The executor and the poll loop on one type of operation.
use routestack_agent.Base.{Text, map, List, [], ◌∷◌, none, some, ◌≡◌, refl, arith, codes, text_eq}
use routestack_agent.Base.Assoc.{lookup}
use routestack_agent.World.{ok, err}
use routestack_agent.Executor.{
  Executor, Operation, Handler, execute, evict, conclude, already_processed, returned,
}
use routestack_agent.Executor.Window.{
  Event, delivery, tick, run_events, replay_in_window, replay_after_window,
}
use routestack_agent.Executor.Dedup.{deliver_all, deliver_all_once, DistinctIds}
use routestack_agent.Agent.Poll.{Claim, CompleteRequest, poll}
use routestack_agent.Agent.Poll.Reports.{poll_failed_again}
use mathlib.Core.Option
use mathlib.Core.List.Perm
use routestack_agent.Executor.{new_executor}
use routestack_agent.Handlers.Table.{register_all, core_handlers}
use routestack_agent.Handlers.Table.Order.{served, served-register_all}
use routestack_agent.Handlers.Containers.{plain}
use routestack_agent.Handlers.Managers.{install_handler, firewall_handler, certificate_handler}
use routestack_agent.Handlers.Managers.Contract.{contract_install, install_handler-contract_install}
use routestack_agent.Examples.Node.{host, digest, keep_text, nothing}

abbrev pub pong : Handler
pong op h =
    (ok (some (record { status = codes "success"; message = codes "pong"; structured = none })), h)

abbrev broken : Handler
broken op h = (err (codes "broken"), h)

abbrev pub ping : Text → Operation
ping id = record { id = id; type = codes "PING"; payload = none }

abbrev pub fresh : Handler → Executor
fresh f = record { handlers = (codes "PING", f) ∷ []; seen = [] }

abbrev marked : Executor
marked = record { handlers = (codes "PING", pong) ∷ []; seen = (codes "a", 100) ∷ [] }

abbrev claims : List Claim
claims =
    ok (some (ping (codes "a")))
    ∷ err (codes "timeout")
    ∷ ok none
    ∷ ok (some (ping (codes "b")))
    ∷ []

abbrev delivered : List Operation
delivered = ping (codes "a") ∷ ping (codes "b") ∷ ping (codes "a") ∷ []

abbrev firsts : List Operation
firsts = ping (codes "a") ∷ ping (codes "b") ∷ []

deliver_all_once_example :
    (deliver_all host keep_text (fresh pong) delivered nothing
      ≡ deliver_all host keep_text (fresh pong) firsts nothing)
    × DistinctIds firsts
unfolding lookup text_eq
deliver_all_once_example = deliver_all_once host keep_text (fresh pong) delivered nothing

abbrev an_hour : List Event
an_hour = delivery (ping (codes "b")) ∷ tick 3700 ∷ []

replay_in_window_example :
    let (x, h) =
      run_events host keep_text (fresh pong) (delivery (ping (codes "a")) ∷ an_hour) nothing in
    execute host keep_text x (ping (codes "a")) h ≡ (returned already_processed, x, h)
unfolding lookup text_eq
replay_in_window_example =
    replay_in_window host keep_text (fresh pong) (ping (codes "a")) (ping (codes "a")) an_hour
      nothing tt refl refl (omega arith, tt) refl refl

replay_after_window_example :
    let (outcome, x, h) = execute host keep_text (evict 3701 marked) (ping (codes "a")) nothing in
    (outcome ≡ conclude host keep_text (ping (codes "a")) (pong (ping (codes "a")) nothing).0)
    × (h ≡ nothing)
    × (lookup (codes "a") x.seen ≡ some 100)
unfolding lookup text_eq
replay_after_window_example =
    replay_after_window host keep_text marked (ping (codes "a")) pong nothing 100 3701 (refl, tt)
      refl refl (omega arith)

poll_failed_again_example :
    let (reports, _, h) =
      poll host keep_text
        (ok (some (ping (codes "a"))) ∷ ok (some (ping (codes "a"))) ∷ [])
        (fresh broken)
        nothing in
    (map (λ (c : CompleteRequest). c.status) reports ≡ codes "failed" ∷ codes "success" ∷ [])
    × (h ≡ nothing)
unfolding lookup text_eq
poll_failed_again_example =
    poll_failed_again host keep_text (ping (codes "a")) (fresh broken) broken (codes "broken")
      nothing refl refl refl

abbrev orders : List Claim
orders =
    ok (some (record { id = codes "a"; type = codes "COLLECT_STATUS"; payload = none }))
    ∷ ok (some (contract_install (codes "b") (codes "xray") (codes "1") (codes "xray:1") digest))
    ∷ []

install_handler-contract_install_example :
    install_handler host
      (contract_install (codes "b") (codes "xray") (codes "1") (codes "xray:1") digest)
      nothing
    ≡ (ok (plain (codes "failed") (codes "invalid component: component name is required")), nothing)
install_handler-contract_install_example =
    install_handler-contract_install host (codes "b") (codes "xray") (codes "1") (codes "xray:1")
      digest nothing

abbrev swapped : List (Text × Handler)
swapped =
    (codes "MANAGE_CERTIFICATE", certificate_handler host)
    ∷ (codes "APPLY_FIREWALL_REVISION", firewall_handler host)
    ∷ []

served-register_all_example :
    Option.map
      (served host keep_text orders nothing)
      (register_all (core_handlers host) new_executor)
    ≡ Option.map (served host keep_text orders nothing) (register_all swapped new_executor)
served-register_all_example =
    served-register_all host keep_text (core_handlers host) swapped new_executor orders nothing
      (Perm.swap _ _ [])
