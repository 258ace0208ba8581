-- ===== src/Executor.antt =====
-- internal/executor/executor.go: dispatch by operation type, and idempotency by operation ID.
-- Redaction of texts (internal/redact) is a parameter. The log lines are not modelled.
pub mod OpTypes
pub mod Dedup
pub mod Window
pub mod Registry
pub mod Threads
use routestack_agent.Base.{
  ℕ, ◌+◌, Text, Bool, true, false, List, [], ◌∷◌, ◌++◌, Option, none, some, not, ltb, codes, quote,
  if◌then◌else◌,
}
use routestack_agent.Base.Assoc
use routestack_agent.Json.{Json}
use routestack_agent.World.{World, History, Result, ok, err, M}

-- The payload is the raw JSON of the field "data", or nothing where the field is missing.
pub record Operation : Type 0 where
  pub id : Text
  pub type : Text
  pub payload : Option Json

pub record OperationResult : Type 0 where
  pub status : Text
  pub message : Text
  pub structured : Option Json

-- A nil result with a nil error is `ok none`.
abbrev pub Handler : Type 0
Handler = Operation → M (Option OperationResult)

pub record Executor : Type 0 where
  pub handlers : List (Text × Handler)
  pub seen : List (Text × ℕ)

pub record SafeOperationError : Type 0 where
  pub op_type : Text
  pub op_id : Text
  pub inner : Text

pub data Outcome : Type 0 where
  returned : OperationResult → Outcome
  rejected : Text → Outcome
  failed : SafeOperationError → Outcome
  -- the nil result is dereferenced for the log line
  panicked : Outcome

-- NewExecutor
unfoldable pub new_executor : Executor
new_executor = record { handlers = []; seen = [] }

-- Register panics on a type that has a handler.
unfoldable pub register : Text → Handler → Executor → Option Executor
register op_type handler x =
    if Assoc.has op_type x.handlers
    then none
    else some (record x { handlers = Assoc.insert op_type handler x.handlers })

-- One tick of evictLoop: t.Before(now - 1h).
unfoldable pub evict : ℕ → Executor → Executor
evict now x = record x { seen = Assoc.keep (λ t. not (ltb (t + 3600) now)) x.seen }

abbrev pub already_processed : OperationResult
already_processed = record {
  status = codes "success";
  message = codes "already processed";
  structured = none;
}

module _ (W : World) (redact : Text → Text) where
  -- What becomes of the handler's result.
  unfoldable pub conclude : Operation → Result (Option OperationResult) → Outcome
  conclude op (err e) = failed (record { op_type = op.type; op_id = op.id; inner = e })
  conclude op (ok none) = panicked
  conclude op (ok (some r)) = returned (record r { message = redact r.message })

  -- The critical section and what follows, for an operation with a handler.
  unfoldable pub dispatch : Handler → Executor → Operation → History → Outcome × Executor × History
  unfolding conclude
  dispatch handler x op h =
      if Assoc.has op.id x.seen
      then (returned already_processed, x, h)
      else let (r, h') = handler op h in
        (conclude op r, record x { seen = Assoc.insert op.id (W.now h) x.seen }, h')

  -- Execute
  unfoldable pub execute : Executor → Operation → History → Outcome × Executor × History
  unfolding dispatch
  execute x op h = elim (Assoc.lookup op.type x.handlers) [
    | none ↦ (
      rejected (codes "executor: unknown operation type " ++ quote W.unicode (redact op.type)),
      x,
      h,
    )
    | some handler ↦ dispatch handler x op h
  ]

  -- SafeOperationError.Error
  unfoldable pub safe_message : SafeOperationError → Text
  safe_message e =
      redact (codes "executor: " ++ e.op_type ++ codes " " ++ e.op_id ++ codes ": " ++ e.inner)
