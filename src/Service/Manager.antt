-- ===== src/Service/Manager.antt =====
-- internal/service/manager.go. The client is the Docker client.
pub mod Apply
use routestack_agent.Base.{
  ℤ, pos, Text, Bool, true, false, List, ◌∷◌, ◌++◌, Option, none, some, codes, text_eq, is_empty,
  is_positive, if◌then◌else◌, [],
}
use routestack_agent.Base.Assoc
use routestack_agent.World.{World, M, Result, ok, err, ◌>>=◌, ◌>>◌, pure, fail, lift, attempt, wrap}
use routestack_agent.Docker.Types.{ContainerState, ContainerSpec, Health}
use routestack_agent.Docker.Client.{inspect, stop, remove, start, logs}
use routestack_agent.Docker.Create.{create}
use routestack_agent.Service.Spec.{Spec, validate, container_name, to_container_spec}

pub record Status : Type 0 where
  pub service_id : Text
  pub container_name : Text
  pub container_id : Text
  pub running : Bool
  pub status : Text
  pub exit_code : ℤ
  pub health : Text
  pub image : Text
  pub managed_by_agent : Bool

-- The health check's status, and "" where there is no health check.
abbrev pub health_text : Option Health → Text
health_text none = []
health_text (some h) = h.status

-- state.Config.Labels["managed-by"] == "routestack"
abbrev pub is_managed : List (Text × Text) → Bool
is_managed labels = elim (Assoc.lookup (codes "managed-by") labels) [
  | none ↦ false
  | some v ↦ text_eq v (codes "routestack")
]

module _ (W : World) where
  -- The removal of the container that the service has; an error of Stop is ignored.
  unfoldable pub remove_existing : Text → Result ContainerState → M (Unit {0})
  remove_existing name (err e) = pure tt
  remove_existing name (ok existing) = do
    attempt (stop W existing.id (pos 10))
    wrap (codes "remove existing container " ++ name ++ codes ": ") (remove W existing.id true)

  -- The test for an empty name, which container_name never gives.
  abbrev pub named : Text → ContainerSpec → ContainerSpec
  named name spec = if is_empty spec.name then record spec { name = name } else spec

  -- What follows the inspection of the service's container.
  unfoldable pub recreate : Text → ContainerSpec → Result ContainerState → M (Unit {0})
  recreate name spec existing = do
    remove_existing name existing
    id ← wrap (codes "create container " ++ name ++ codes ": ") (create W (named name spec))
    wrap (codes "start container " ++ name ++ codes ": ") (start W id)

  -- ApplyRevision. The revision number is not used.
  unfoldable pub apply_revision : Text → ℤ → Spec → M (Unit {0})
  apply_revision service_id rev spec = do
    wrap (codes "invalid spec: ") (lift (validate spec))
    let name = container_name service_id
    existing ← attempt (inspect W name)
    recreate name (to_container_spec spec service_id) existing

  -- CollectStatus
  unfoldable pub collect_status : Text → M Status
  collect_status service_id = do
    let name = container_name service_id
    state ← wrap (codes "inspect " ++ name ++ codes ": ") (inspect W name)
    pure (record {
      service_id = service_id;
      container_name = name;
      container_id = state.id;
      running = state.state.running;
      status = state.state.status;
      exit_code = state.state.exit_code;
      health = health_text state.state.health;
      image = state.config.image;
      managed_by_agent = is_managed state.config.labels;
    })

  -- CollectLogs
  unfoldable pub collect_logs : Text → ℤ → M Text
  collect_logs service_id tail =
      logs W (container_name service_id) (if is_positive tail then tail else pos 100)
