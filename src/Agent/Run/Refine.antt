-- ===== src/Agent/Run/Refine.antt =====
-- The goroutines of Run together serve the operations as one sequential loop would
-- (internal/agent/agent.go).
use routestack_agent.Base.{
  ℕ, Text, Bool, false, List, [], ◌∷◌, ◌++◌, map, append-nil, append_assoc, Option, none, some, not,
  ◌≡◌, refl, sym, ap, ◌∙◌, ◌⊎◌, inl, inr,
}
use routestack_agent.World.{World, History}
use routestack_agent.Executor.{Executor, Operation, execute, evict}
use routestack_agent.Executor.Window.{Event, delivery, tick}
use routestack_agent.Agent.Poll.{CompleteRequest, report}
use routestack_agent.Agent.Run.{
  Agent, Poller, executing, reporting, is_alive, launch, settled, executed, reported, evicted, Move,
  claim, leave, refuse, no_work, accept, retry, abandon, execution, completion, beat, ticker, halt,
  eviction, signal, shutdown, graceful, deadline, Step, move, Reach, here, next,
}

-- The reports, and the executor and the calls after them.
abbrev pub Served : Type 0
Served = List CompleteRequest × Executor × History

abbrev pub prepend : List CompleteRequest → Served → Served
prepend cs (ds, x, h) = (cs ++ ds, x, h)

-- The report that is being sent.
abbrev pub pending : Poller → List CompleteRequest
pending (reporting c) = c ∷ []
pending _ = []

prepend-prepend :
    (cs ds : List CompleteRequest) (r : Served) → prepend cs (prepend ds r) ≡ prepend (cs ++ ds) r
prepend-prepend cs ds (es, x, h) = ap (λ l. (l, x, h)) (sym (append_assoc cs ds es))

sent-snoc :
    (sent : List (CompleteRequest × Bool)) (p : CompleteRequest × Bool)
    → map (λ q. q.0) (sent ++ p ∷ []) ++ [] ≡ map (λ q. q.0) sent ++ p.0 ∷ []
sent-snoc [] p = refl
sent-snoc (q ∷ sent) p = ap (λ l. q.0 ∷ l) (sent-snoc sent p)

module _ (W : World) (redact : Text → Text) where
  -- After a panic nothing more is served.
  unfoldable pub after : Option CompleteRequest → Served → Executor × History → Served
  after none rest (x, h) = ([], x, h)
  after (some c) rest _ = prepend (c ∷ []) rest

  -- One loop that serves the events in their order, each with its report before the next.
  unfoldable pub serve : Executor → List Event → History → Served
  unfolding after
  serve x [] h = ([], x, h)
  serve x (tick now ∷ es) h = serve (evict now x) es h
  serve x (delivery op ∷ es) h =
      let (o, x', h') = execute W redact x op h in
      after (report W redact op o) (serve x' es h') (x', h')

  module _ (x : Executor) (h : History) where
    -- What is still to come is served as if it came to the loop.
    abbrev IsAhead : Agent → Type 0
    IsAhead s =
        (more : List Event)
        → serve x (s.events ++ more) h
          ≡ prepend (map (λ p. p.0) s.sent ++ pending s.poller) (serve s.executor more s.history)

    abbrev pub IsServed : Agent → Type 0
    IsServed s =
        serve x s.events h ≡ (map (λ p. p.0) s.sent ++ pending s.poller, s.executor, s.history)

    -- Only a panic ends the serving.
    abbrev Holds : Agent → Type 0
    Holds s = IsAhead s ⊎ ((is_alive s.main ≡ false) × IsServed s)

    evicted-IsAhead : (now : ℕ) (s : Agent) → IsAhead s → IsAhead (evicted now s)
    unfolding evicted serve
    evicted-IsAhead now s inv more =
        rw (append_assoc s.events (tick now ∷ []) more) (inv (tick now ∷ more))

    reported-IsAhead :
        (c : CompleteRequest) (s : Agent)
        → s.poller ≡ reporting c
        → IsAhead s
        → IsAhead (reported c s)
    unfolding reported
    reported-IsAhead c s e inv more = rw (sent-snoc s.sent (c, not s.cancelled)) (rw e at inv more)

    -- What follows Execute.
    settled-Holds :
        (o : Option CompleteRequest) (s : Agent)
        → ((more : List Event)
            → serve x (s.events ++ more) h
              ≡ prepend
                  (map (λ p. p.0) s.sent)
                  (after o (serve s.executor more s.history) (s.executor, s.history)))
        → Holds (settled o s)
    unfolding settled after is_alive serve
    settled-Holds none s served = inr (refl, rw (append-nil s.events) at (served []))
    settled-Holds (some c) s served = inl (λ more.
        served more
        ∙ prepend-prepend (map (λ p. p.0) s.sent) (c ∷ []) (serve s.executor more s.history))

    executed-Holds :
        (op : Operation) (s : Agent)
        → s.poller ≡ executing op
        → IsAhead s
        → Holds (executed W redact op s)
    unfolding executed serve
    executed-Holds op s e inv =
        let (o, x', h') = execute W redact s.executor op s.history in
        let before : (more : List Event)
            → serve x (s.events ++ more) h
              ≡ prepend (map (λ p. p.0) s.sent) (serve s.executor more s.history) =
          λ more. rw (append-nil (map (λ p. p.0) s.sent)) at (rw e at inv more) in
        settled-Holds (report W redact op o)
          (record s { executor = x'; history = h'; events = s.events ++ delivery op ∷ [] })
          (λ more. rw (append_assoc s.events (delivery op ∷ []) more) (before (delivery op ∷ more)))

    Move-Holds : {s t : Agent} → Move W redact s t → IsAhead s → Holds t
    Move-Holds (claim e _) inv = inl (λ more. rw e at inv more)
    Move-Holds (leave e _) inv = inl (λ more. rw e at inv more)
    Move-Holds (refuse e) inv = inl (λ more. rw e at inv more)
    Move-Holds (no_work e) inv = inl (λ more. rw e at inv more)
    Move-Holds (accept op e) inv = inl (λ more. rw e at inv more)
    Move-Holds (retry e) inv = inl (λ more. rw e at inv more)
    Move-Holds (abandon e _) inv = inl (λ more. rw e at inv more)
    Move-Holds (execution op e) inv = executed-Holds op _ e inv
    Move-Holds (completion c e) inv = inl (reported-IsAhead c _ e inv)
    Move-Holds (beat _) inv = inl inv
    Move-Holds (ticker _) inv = inl inv
    Move-Holds (halt _ _) inv = inl inv
    Move-Holds (eviction now) inv = inl (evicted-IsAhead now _ inv)
    Move-Holds signal inv = inl inv
    Move-Holds (shutdown _ _) inv = inl inv
    Move-Holds (graceful _ _ _) inv = inl inv
    Move-Holds (deadline _) inv = inl inv

    Step-Holds : {s t : Agent} → Step W redact s t → Holds s → Holds t
    Step-Holds (move alive m) (inl inv) = Move-Holds m inv
    Step-Holds (move alive m) (inr (dead, _)) = absurd cc

    Reach-Holds : {s : Agent} → Reach W redact (launch x h) s → Holds s
    unfolding launch
    Reach-Holds here = inl (λ more. refl)
    Reach-Holds (next r step) = Step-Holds step (Reach-Holds r)

    -- However the goroutines of Run interleave, and whenever the context ends: the reports sent and
    -- the one being sent, the executor and the calls on the host are exactly those of one loop that
    -- serves the same operations and the same ticks of the eviction in their order.
    pub Reach-IsServed : {s : Agent} → Reach W redact (launch x h) s → IsServed s
    unfolding serve
    Reach-IsServed {s} r = elim (Reach-Holds r) [
      | inl inv ↦
          rw (append-nil s.events, append-nil (map (λ p. p.0) s.sent ++ pending s.poller)) at
            (inv [])
      | inr (_, served) ↦ served
    ]
