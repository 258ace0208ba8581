-- ===== src/Docker/Client/Calls.antt =====
-- The calls that the operations of the Docker client make (internal/docker/client.go).
use routestack_agent.Base.{ℤ, Text, Bool, ◌∷◌, ◌++◌, ◌≡◌, arith, codes}
use routestack_agent.World.{World, History, HttpRequest, http, send}
use routestack_agent.Docker.Client.{
  checked, decode, start, stop, remove, inspect, start_request, stop_request, remove_request,
  inspect_request,
}

module _ (W : World) where
  pub checked-calls :
      (context : Text) (q : HttpRequest) (h : History) → (checked W context q h).1 ≡ http q ∷ h
  unfolding checked send
  checked-calls context q h = ground arith

  pub start-calls : (id : Text) (h : History) → (start W id h).1 ≡ http (start_request id) ∷ h
  unfolding start
  start-calls id h =
      ground (arith, checked-calls (codes "docker start " ++ id) (start_request id) h)

  pub stop-calls :
      (id : Text) (timeout : ℤ) (h : History)
      → (stop W id timeout h).1 ≡ http (stop_request id timeout) ∷ h
  unfolding stop
  stop-calls id timeout h =
      ground (arith, checked-calls (codes "docker stop " ++ id) (stop_request id timeout) h)

  pub remove-calls :
      (id : Text) (force : Bool) (h : History)
      → (remove W id force h).1 ≡ http (remove_request id force) ∷ h
  unfolding remove
  remove-calls id force h =
      ground (arith, checked-calls (codes "docker remove " ++ id) (remove_request id force) h)

  pub inspect-calls : (id : Text) (h : History) → (inspect W id h).1 ≡ http (inspect_request id) ∷ h
  unfolding inspect decode
  inspect-calls id h =
      ground (arith, checked-calls (codes "docker inspect " ++ id) (inspect_request id) h)
