-- ===== src/Tunnel/Peer.antt =====
-- When a peer is created or removed (internal/tunnel/tunnel.go).
use routestack_agent.Base.{
  Text, List, true, false, [], ◌∷◌, ◌++◌, ◌≡◌, ◌⊎◌, inl, inr, arith, codes, is_blank, is_zero,
  text_eq_iff, Bool-cases,
}
use routestack_agent.Json.{Json}
use routestack_agent.World.{World, History, Result, Result-cases, ok}
use routestack_agent.Docker.Types.{ContainerState, ExecResult}
use routestack_agent.Docker.Client.{inspect, exec}
use routestack_agent.Docker.Client.Exec.{IsAsked, exec-IsAsked}
use routestack_agent.Service.Spec.{container_name}
use routestack_agent.Tunnel.{Request, validate, run_helper, remove}

-- Names of a service and of a tunnel, and a provider that is known.
pub record IsValid (r : Request) : Type 0 where
  pub service : is_blank r.service_id ≡ false
  pub tunnel : is_blank r.tunnel_id ≡ false
  pub provider : (r.provider ≡ codes "amneziawg") ⊎ (r.provider ≡ codes "xray")

validate-IsValid : (r : Request) → validate r ≡ ok tt → IsValid r
unfolding validate
validate-IsValid r h =
    ground
      (arith, text_eq_iff r.provider (codes "amneziawg"), text_eq_iff r.provider (codes "xray"))

-- What a run of the helper that counts as a success has asked the daemon for.
pub record IsRun (W : World) (verb : Text) (req : Request) (h h' : History) : Type 0 where
  pub valid : IsValid req
  pub state : ContainerState
  pub found : (inspect W (container_name req.service_id) h).0 ≡ ok state
  pub result : ExecResult
  pub ran :
      IsAsked W
        (container_name req.service_id)
        ((codes "/usr/local/bin/routestack-" ++ verb) ∷ req.provider ∷ req.tunnel_id ∷ [])
        (inspect W (container_name req.service_id) h).1
        result
        h'
  pub exited : is_zero result.exit_code ≡ true

module _ (W : World) (verb : Text) (req : Request) (h : History)
    (e : (run_helper W verb req h).0 ≡ ok tt) where
  abbrev name : Text
  name = container_name req.service_id

  abbrev command : List Text
  command = (codes "/usr/local/bin/routestack-" ++ verb) ∷ req.provider ∷ req.tunnel_id ∷ []

  abbrev running : Result ExecResult × History
  running = exec W name command (inspect W name h).1

  run_helper-IsRun : IsRun W verb req h (run_helper W verb req h).1
  unfolding run_helper
  run_helper-IsRun = elim (Result-cases (validate req)) [
    | inr (m, v) ↦ absurd (ground arith)
    | inl (_, v) ↦ elim (Result-cases (inspect W name h).0) [
      | inr (m, f) ↦ absurd (ground arith)
      | inl (state, f) ↦ elim (Result-cases running.0) [
        | inr (m, r) ↦ absurd (ground arith)
        | inl (result, r) ↦ elim (Bool-cases (is_zero result.exit_code)) [
          | inr bad ↦ absurd (ground arith)
          | inl good ↦
              let same : (run_helper W verb req h).1 ≡ running.1 = ground arith in
              record {
                valid = validate-IsValid req v;
                state = state;
                found = f;
                result = result;
                ran = rw same (exec-IsAsked W name command (inspect W name h).1 result r);
                exited = good;
              }
        ]
      ]
    ]
  ]

-- Removing a peer succeeds only under the same conditions, with the helper that removes.
remove-IsRun :
    (W : World) (req : Request) (h : History)
    → (remove W req h).0 ≡ ok tt
    → IsRun W (codes "remove-peer") req h (remove W req h).1
unfolding remove
remove-IsRun W req h e = run_helper-IsRun W (codes "remove-peer") req h e
