-- ===== src/Handlers/Containers.antt =====
-- The handlers of START_SERVICE, STOP_SERVICE and RESTART_SERVICE (internal/executor/handlers.go).
pub mod Found
use routestack_agent.Base.{Text, Option, none, some, codes, is_empty, ◌++◌, if◌then◌else◌}
use routestack_agent.Json.{Json}
use routestack_agent.World.{World, M, Result, ok, err, ◌>>=◌, ◌>>◌, pure, fail, lift, attempt, wrap}
use routestack_agent.Executor.{OperationResult, Handler}
use routestack_agent.Docker.Client.{start, stop, adopt}
use routestack_agent.Docker.Find.{find_container}
use routestack_agent.Handlers.Payload.{decode_payload, name_setter, stop_timeout}

-- &Result{Status: status, Message: message}, nil
abbrev pub plain : Text → Text → Option OperationResult
plain status message = some (record { status = status; message = message; structured = none })

-- The result of an operation whose error is a message of a failed one.
abbrev pub settle : Text → Text → Result (Unit {0}) → Option OperationResult
settle context message (ok _) = plain (codes "success") message
settle context message (err e) = plain (codes "failed") (context ++ e)

module _ (W : World) where
  -- extractContainerName
  unfoldable pub extract_container_name : Option Json → M Text
  extract_container_name payload = do
    name ← wrap (codes "invalid payload: ") (lift (decode_payload W name_setter (codes "") payload))
    if is_empty name then fail (codes "container_name is required") else pure name

  -- findAndAdopt: an error of Adopt is ignored.
  unfoldable pub find_and_adopt : Text → M Text
  find_and_adopt name = do
    id ← wrap (codes "find container: ") (find_container W name)
    if is_empty id then pure id else do attempt (adopt W id); pure id

  -- What the three handlers do with the container that they found.
  unfoldable pub with_container :
      Option Json → (Text → Text → M (Option OperationResult)) → M (Option OperationResult)
  with_container payload act = do
    name ← extract_container_name payload
    id ← find_and_adopt name
    if is_empty id then pure (plain (codes "failed") (codes "container not found")) else act name id

  -- NewDockerStartHandler
  unfoldable pub start_handler : Handler
  start_handler op =
      with_container op.payload λ name id. do
        r ← attempt (start W id)
        pure (settle (codes "") (codes "started " ++ name) r)

  -- NewDockerStopHandler
  unfoldable pub stop_handler : Handler
  stop_handler op = with_container op.payload λ name id. do
    r ← attempt (stop W id (stop_timeout op.payload))
    pure (settle (codes "") (codes "stopped " ++ name) r)

  -- The start of a restart, after its stop.
  unfoldable pub start_again : Text → Text → Result (Unit {0}) → M (Option OperationResult)
  start_again name id (err e) = pure (plain (codes "failed") (codes "stop: " ++ e))
  start_again name id (ok _) = do
    r ← attempt (start W id)
    pure (settle (codes "start: ") (codes "restarted " ++ name) r)

  -- NewDockerRestartHandler
  unfoldable pub restart_handler : Handler
  restart_handler op =
      with_container op.payload
        λ name id. do r ← attempt (stop W id (stop_timeout op.payload)); start_again name id r
