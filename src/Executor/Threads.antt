-- ===== src/Executor/Threads.antt =====
-- Execute and evictLoop of internal/executor/executor.go, called by any number of goroutines at the
-- same time. The steps are the sections that the mutex makes indivisible, and the handlers.
pub mod Invariant
pub mod Mutex
pub mod Spacing
pub mod Progress
use routestack_agent.Base.{
  ℕ, ◌≤◌, Text, true, false, List, [], ◌∷◌, Option, none, some, ◌==◌, ◌≡◌, if◌then◌else◌,
}
use routestack_agent.Base.Assoc
use routestack_agent.Executor.{Executor, Operation, Handler, evict}

-- What the goroutines share.
pub record Shared : Type 0 where
  -- time.Now(), in seconds
  pub clock : ℕ
  -- the goroutine between Lock and Unlock of the mutex
  pub owner : Option ℕ
  pub executor : Executor
  -- the ID of each operation that was marked for its handler, and when, the last one first
  pub starts : List (Text × ℕ)

-- Where a goroutine stands in Execute.
pub data Place : Type 0 where
  -- outside
  idle : Place
  -- before the look-up of the handler
  called : Operation → Place
  -- before Lock
  known : Operation → Place
  -- between Lock and Unlock
  inside : Operation → Place
  -- after Unlock, before the handler
  marked : Operation → Place
  -- in the handler
  handling : Operation → Place

-- One step of goroutine `i`: the shared state and its place before, and after.
pub data Turn (i : ℕ) (m : Shared) : Place → Shared → Place → Type 0 where
  call : (op : Operation) → Turn i m idle m (called op)
  -- RLock to RUnlock: another goroutine may not be between Lock and Unlock
  unknown :
      {op : Operation}
      → m.owner ≡ none
      → Assoc.has op.type m.executor.handlers ≡ false
      → Turn i m (called op) m idle
  find :
      {op : Operation}
      → m.owner ≡ none
      → Assoc.has op.type m.executor.handlers ≡ true
      → Turn i m (called op) m (known op)
  lock :
      {op : Operation}
      → m.owner ≡ none
      → Turn i m (known op) (record m { owner = some i }) (inside op)
  -- already processed
  skip :
      {op : Operation}
      → Assoc.has op.id m.executor.seen ≡ true
      → Turn i m (inside op) (record m { owner = none }) idle
  mark :
      {op : Operation}
      → Assoc.has op.id m.executor.seen ≡ false
      → Turn i m
          (inside op)
          (record m {
            owner = none;
            executor = record m.executor { seen = Assoc.insert op.id m.clock m.executor.seen };
            starts = (op.id, m.clock) ∷ m.starts;
          })
          (marked op)
  enter : {op : Operation} → Turn i m (marked op) m (handling op)
  finish : {op : Operation} → Turn i m (handling op) m idle

pub record Threads : Type 0 where
  pub shared : Shared
  pub place : ℕ → Place

abbrev pub update : (ℕ → Place) → ℕ → Place → ℕ → Place
update f i p j = if i == j then p else f j

pub data Step (s : Threads) : Threads → Type 0 where
  turn :
      (i : ℕ) {m : Shared} {p : Place}
      → Turn i s.shared (s.place i) m p
      → Step s (record { shared = m; place = update s.place i p })
  -- one tick of evictLoop, from Lock to Unlock
  eviction :
      s.shared.owner ≡ none
      → Step s (record s {
        shared = record s.shared { executor = evict s.shared.clock s.shared.executor };
      })
  -- time passes
  pass :
      (now : ℕ)
      → s.shared.clock ≤ now
      → Step s (record s { shared = record s.shared { clock = now } })

abbrev pub begin : Executor → ℕ → Threads
begin x now = record {
  shared = record { clock = now; owner = none; executor = x; starts = [] };
  place = λ i. idle;
}

pub data Reach (s : Threads) : Threads → Type 0 where
  here : Reach s s
  next : {t u : Threads} → Reach s t → Step t u → Reach s u
