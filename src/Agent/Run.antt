-- ===== src/Agent/Run.antt =====
-- Run of internal/agent/agent.go: its goroutines, interleaved in any order. Time is left open: a
-- timer may fire at any moment after it is set. Logging is left out.
pub mod Refine
pub mod Contract
pub mod Shutdown
pub mod Lost
pub mod Panic
use routestack_agent.Base.{
  ℕ, suc, Text, Bool, true, false, List, [], ◌∷◌, ◌++◌, Option, none, some, not, codes,
  if◌then◌else◌, ◌≡◌,
}
use routestack_agent.World.{World, History, Result, ok, err}
use routestack_agent.Executor.{Executor, Operation, execute, evict}
use routestack_agent.Executor.Window.{Event, delivery, tick}
use routestack_agent.Files.{Disk}
use routestack_agent.State.{AgentState, is_enrolled}
use routestack_agent.Agent.Poll.{CompleteRequest, report}

-- Where operationPollLoop stands: at the select on top, in ClaimOperation, in the back-off, about to
-- execute, in CompleteOperation, or returned.
pub data Poller : Type 0 where
  ready : Poller
  claiming : Poller
  backing_off : Poller
  executing : Operation → Poller
  reporting : CompleteRequest → Poller
  stopped : Poller

-- Where heartbeatLoop stands: in sendHeartbeat, at its select, or returned.
pub data Heart : Type 0 where
  beating : Heart
  waiting : Heart
  halted : Heart

-- Where Run stands: before ctx.Done, in the select of the graceful shutdown, returned, or ended with
-- the program by a panic.
pub data Main : Type 0 where
  running : Main
  shutting_down : Main
  returned : Main
  crashed : Main

pub record Agent : Type 0 where
  pub poller : Poller
  pub heart : Heart
  pub main : Main
  -- the context is done
  pub cancelled : Bool
  pub executor : Executor
  pub history : History
  -- the calls of CompleteOperation so far, and whether the context was not done at the call
  pub sent : List (CompleteRequest × Bool)
  -- what the executor met so far: operations, and ticks of evictLoop
  pub events : List Event
  -- the calls of Heartbeat so far
  pub beats : ℕ

-- The agent after both goroutines are started.
unfoldable pub launch : Executor → History → Agent
launch x h = record {
  poller = ready;
  heart = beating;
  main = running;
  cancelled = false;
  executor = x;
  history = h;
  sent = [];
  events = [];
  beats = 0;
}

-- The start of Run.
unfoldable pub start : AgentState → Disk → Executor → History → Result Agent
start s d x h =
    if is_enrolled s d
    then ok (launch x h)
    else err (codes "agent is not enrolled: run 'routestack-agent enroll' first")

unfoldable pub is_alive : Main → Bool
is_alive running = true
is_alive shutting_down = true
is_alive returned = false
is_alive crashed = false

-- The call of CompleteOperation: its outcome is only logged.
unfoldable pub reported : CompleteRequest → Agent → Agent
reported c s = record s { poller = ready; sent = s.sent ++ (c, not s.cancelled) ∷ [] }

-- A tick of evictLoop. One that fires while a handler runs has the effect of one right after it.
unfoldable pub evicted : ℕ → Agent → Agent
evicted now s = record s { executor = evict now s.executor; events = s.events ++ tick now ∷ [] }

-- What follows Execute: the nil result of a handler is a panic.
unfoldable pub settled : Option CompleteRequest → Agent → Agent
settled none s = record s { poller = stopped; main = crashed }
settled (some c) s = record s { poller = reporting c }

module _ (W : World) (redact : Text → Text) where
  unfoldable pub executed : Operation → Agent → Agent
  unfolding settled
  executed op s =
      let (outcome, x', h') = execute W redact s.executor op s.history in
      settled (report W redact op outcome)
        (record s { executor = x'; history = h'; events = s.events ++ delivery op ∷ [] })

  -- One step of one goroutine.
  pub data Move (s : Agent) : Agent → Type 0 where
    -- operationPollLoop
    claim : s.poller ≡ ready → s.cancelled ≡ false → Move s (record s { poller = claiming })
    leave : s.poller ≡ ready → s.cancelled ≡ true → Move s (record s { poller = stopped })
    refuse : s.poller ≡ claiming → Move s (record s { poller = backing_off })
    no_work : s.poller ≡ claiming → Move s (record s { poller = ready })
    accept : (op : Operation) → s.poller ≡ claiming → Move s (record s { poller = executing op })
    retry : s.poller ≡ backing_off → Move s (record s { poller = ready })
    abandon : s.poller ≡ backing_off → s.cancelled ≡ true → Move s (record s { poller = stopped })
    execution : (op : Operation) → s.poller ≡ executing op → Move s (executed op s)
    completion : (c : CompleteRequest) → s.poller ≡ reporting c → Move s (reported c s)
    -- heartbeatLoop
    beat : s.heart ≡ beating → Move s (record s { heart = waiting; beats = suc s.beats })
    ticker : s.heart ≡ waiting → Move s (record s { heart = beating })
    halt : s.heart ≡ waiting → s.cancelled ≡ true → Move s (record s { heart = halted })
    -- evictLoop
    eviction : (now : ℕ) → Move s (evicted now s)
    -- a signal, or the end of the context
    signal : Move s (record s { cancelled = true })
    -- Run
    shutdown : s.main ≡ running → s.cancelled ≡ true → Move s (record s { main = shutting_down })
    graceful :
        s.main ≡ shutting_down
        → s.poller ≡ stopped
        → s.heart ≡ halted
        → Move s (record s { main = returned })
    deadline : s.main ≡ shutting_down → Move s (record s { main = returned })

  -- The goroutines end with Run.
  pub data Step (s : Agent) : Agent → Type 0 where
    move : {t : Agent} → is_alive s.main ≡ true → Move s t → Step s t

  pub data Reach (s : Agent) : Agent → Type 0 where
    here : Reach s s
    next : {t u : Agent} → Reach s t → Step t u → Reach s u
