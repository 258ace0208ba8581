-- ===== src/Handlers/Stub.antt =====
-- NewStubHandler of internal/executor/handlers.go, and RedirectError of internal/executor/executor.go.
-- The agent registers no such handler.
use routestack_agent.Base.{Text, codes, ◌++◌}
use routestack_agent.World.{err}
use routestack_agent.Executor.{Handler}

record RedirectError : Type 0 where
  op_type : Text
  target : Text

-- RedirectError.Error
redirect_message : RedirectError → Text
redirect_message e = e.op_type ++ codes ": not yet implemented — scheduled for " ++ e.target

abbrev stub_handler : Text → Handler
stub_handler phase op h = (err (redirect_message (record { op_type = op.type; target = phase })), h)
