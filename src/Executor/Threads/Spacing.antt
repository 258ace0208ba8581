-- ===== src/Executor/Threads/Spacing.antt =====
-- The hour between two runs of one operation, with Execute called by many goroutines
-- (internal/executor/executor.go).
use mathlib.Core.Path.{subst}
use routestack_agent.Base.{
  ℕ, Text, Bool, true, false, ◌∷◌, ◌≡◌, ◌↔◌, refl, sym, ◌∙◌, ap, arith, Option-cases, Bool-cases,
  inl, inr, none, ◌&&◌, not, if◌then◌else◌,
}
use routestack_agent.Base.Assoc
use routestack_agent.Base.Assoc.{NodupKeys}
use routestack_agent.World.{World, History}
use routestack_agent.Executor.{Executor, Operation, execute}
use routestack_agent.Executor.Threads.{
  Shared, Place, Turn, Threads, idle, called, inside, handling, unknown, find, lock, skip, mark,
  finish, begin, Reach, marked, enter,
}
use routestack_agent.Executor.Threads.Invariant.{IsSpaced, Reach-Marks}

-- When any number of goroutines call Execute, in any order of their steps, with evictions at any
-- time, a clock that does not go back, and a window with each ID at most once at the beginning:
-- whenever handlers were started for two operations of one ID, the two were marked more than an hour
-- apart.
pub Reach-IsSpaced :
    (x : Executor) (now : ℕ) (s : Threads)
    → NodupKeys x.seen
    → Reach (begin x now) s
    → IsSpaced s.shared.starts
Reach-IsSpaced x now s unique path =
    (Reach-Marks path (record { unique = unique; marked = tt; spaced = tt })).spaced

-- In Execute.
abbrev pub IsBusy : Place → Type 0
IsBusy idle = ⊥
IsBusy _ = Unit

-- The way of one goroutine through Execute while no other takes a step and no time passes: the shared
-- state and its place at the beginning, and the shared state when it is outside.
pub data Solo (i : ℕ) : Shared → Place → Shared → Type 0 where
  out : {m : Shared} → Solo i m idle m
  taken :
      {m m' last : Shared} {p p' : Place}
      → IsBusy p
      → Turn i m p m' p'
      → Solo i m' p' last
      → Solo i m p last

idle-Solo : {i : ℕ} {m last : Shared} → Solo i m idle last → last ≡ m
idle-Solo out = refl
idle-Solo (taken busy _ _) = absurd busy

handling-Solo : {i : ℕ} {m last : Shared} (op : Operation) → Solo i m (handling op) last → last ≡ m
handling-Solo op (taken busy finish rest) = idle-Solo rest

marked-Solo : {i : ℕ} {m last : Shared} (op : Operation) → Solo i m (marked op) last → last ≡ m
marked-Solo op (taken busy enter rest) = handling-Solo op rest

-- Between Lock and Unlock.
abbrev left : Bool → Operation → Shared → Shared
left true op m = record m { owner = none }
left false op m = record m {
  owner = none;
  executor = record m.executor { seen = Assoc.insert op.id m.clock m.executor.seen };
  starts = (op.id, m.clock) ∷ m.starts;
}

inside-Solo :
    {i : ℕ} {m last : Shared} (op : Operation)
    → Solo i m (inside op) last
    → last ≡ left (Assoc.has op.id m.executor.seen) op m
inside-Solo op (taken busy (skip seen) rest) = rw seen (idle-Solo rest)
inside-Solo op (taken busy (mark new) rest) = rw new (marked-Solo op rest)

-- What Execute leaves, without the handler's own effects.
abbrev after : Operation → Shared → Shared
after op m = record m {
  owner = none;
  executor =
      if Assoc.has op.type m.executor.handlers && not (Assoc.has op.id m.executor.seen)
      then record m.executor { seen = Assoc.insert op.id m.clock m.executor.seen }
      else m.executor;
  starts =
      if Assoc.has op.type m.executor.handlers && not (Assoc.has op.id m.executor.seen)
      then (op.id, m.clock) ∷ m.starts
      else m.starts;
}

called-Solo :
    {i : ℕ} {m last : Shared} (op : Operation)
    → m.owner ≡ none
    → Solo i m (called op) last
    → last ≡ after op m
called-Solo op free (taken busy (unknown _ missing) rest) = idle-Solo rest ∙ ground arith
called-Solo op free (taken busy (find _ found) (taken busy' (lock _) rest)) =
    inside-Solo op rest ∙ ground arith

Solo-called :
    (i : ℕ) (m : Shared) (op : Operation) → m.owner ≡ none → Solo i m (called op) (after op m)
Solo-called i m op free = elim (Bool-cases (Assoc.has op.type m.executor.handlers)) [
  | inr missing ↦
      subst (λ l. Solo i m (called op) l) (ground arith) (taken tt (unknown free missing) out)
  | inl found ↦ elim (Bool-cases (Assoc.has op.id m.executor.seen)) [
    | inl seen ↦
        subst (λ l. Solo i m (called op) l) (ground arith)
          (taken tt (find free found) (taken tt (lock free) (taken tt (skip seen) out)))
    | inr new ↦
        subst (λ l. Solo i m (called op) l) (ground arith)
          (taken tt (find free found)
            (taken tt (lock free) (taken tt (mark new) (taken tt enter (taken tt finish out)))))
  ]
]

module _ (W : World) (redact : Text → Text) where
  executor-after :
      (op : Operation) (h : History) (m : Shared)
      → m.clock ≡ W.now h
      → (after op m).executor ≡ (execute W redact m.executor op h).1
  unfolding execute
  executor-after op h m at_time = elim (Option-cases (Assoc.lookup op.type m.executor.handlers)) [
    | inl e ↦ ground arith
    | inr (f, e) ↦ ground arith
  ]

  -- When the mutex is free and no other goroutine moves, at the time of the call: a goroutine that
  -- called Execute can be outside again with a shared state exactly if that has the mutex free, the
  -- executor that `execute` leaves, the same clock, and one more operation marked for its handler
  -- if the type is known and the ID is new, and none more if not.
  pub Solo-execute :
      (i : ℕ) (op : Operation) (h : History) (m last : Shared)
      → m.owner ≡ none
      → m.clock ≡ W.now h
      → Solo i m (called op) last ↔ (
          last ≡ record m {
            owner = none;
            executor = (execute W redact m.executor op h).1;
            starts =
                if Assoc.has op.type m.executor.handlers && not (Assoc.has op.id m.executor.seen)
                then (op.id, m.clock) ∷ m.starts
                else m.starts;
          })
  Solo-execute i op h m last free at_time =
      let same =
        ap (λ (x : Executor). record (after op m) { executor = x })
          (executor-after op h m at_time) in
      (
        λ way. called-Solo op free way ∙ same,
        λ e. subst (λ l. Solo i m (called op) l) (same ∙ sym e) (Solo-called i m op free),
      )
