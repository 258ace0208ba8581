-- ===== src/Tunnel.antt =====
-- internal/tunnel/tunnel.go: peers inside service containers.
pub mod Peer
use routestack_agent.Base.{
  ℤ, Text, Bool, List, [], ◌∷◌, ◌++◌, Option, codes, is_blank, is_zero, text_eq, not, ◌||◌,
  show_int, if◌then◌else◌,
}
use routestack_agent.Json.{Json}
use routestack_agent.World.{World, M, Result, ok, err, ◌>>=◌, ◌>>◌, pure, fail, lift, wrap}
use routestack_agent.Docker.Client.{inspect, exec}
use routestack_agent.Service.Spec.{container_name}

pub record Request : Type 0 where
  pub service_id : Text
  pub tunnel_id : Text
  pub provider : Text
  pub peer_config : Option Json

-- Request.Validate
unfoldable pub validate : Request → Result (Unit {0})
unfolding is_blank text_eq
validate r =
    if is_blank r.service_id
    then err (codes "service_id is required")
    else if is_blank r.tunnel_id
    then err (codes "tunnel_id is required")
    else if text_eq r.provider (codes "amneziawg") || text_eq r.provider (codes "xray")
    then ok tt
    else err (codes "unsupported provider: " ++ r.provider)

module _ (W : World) where
  -- What Create and Remove have in common: `verb` is "add-peer" or "remove-peer".
  unfoldable pub run_helper : Text → Request → M (Unit {0})
  run_helper verb req = do
    lift (validate req)
    let name = container_name req.service_id
    wrap (codes "service container " ++ name ++ codes " not found: ") (inspect W name)
    let cmd = (codes "/usr/local/bin/routestack-" ++ verb) ∷ req.provider ∷ req.tunnel_id ∷ []
    res ← wrap (codes "exec " ++ verb ++ codes " in " ++ name ++ codes ": ") (exec W name cmd)
    if is_zero res.exit_code
        then pure tt
        else fail (
            verb
            ++ codes " failed in "
            ++ name
            ++ codes " (exit "
            ++ show_int res.exit_code
            ++ codes "): "
            ++ res.stdout
            ++ res.stderr)

  -- Create. The peer configuration is not used.
  unfoldable pub create : Request → M (Unit {0})
  unfolding run_helper
  create = run_helper (codes "add-peer")

  -- Remove
  unfoldable pub remove : Request → M (Unit {0})
  unfolding run_helper
  remove = run_helper (codes "remove-peer")
