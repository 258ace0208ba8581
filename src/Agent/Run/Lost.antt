-- ===== src/Agent/Run/Lost.antt =====
-- Which reports the end of the context can make fail (Run and operationPollLoop of
-- internal/agent/agent.go).
use routestack_agent.Base.{
  Text, Bool, true, not, List, [], ◌∷◌, ◌++◌, Option, none, some, ◌≡◌, refl, ◌⊎◌, inl, inr, All,
  All-append, Bool-cases,
}
use routestack_agent.World.{World, History}
use routestack_agent.Executor.{Executor, Operation}
use routestack_agent.Agent.Poll.{CompleteRequest}
use routestack_agent.Agent.Run.{
  Agent, Poller, ready, executing, reporting, stopped, launch, settled, executed, reported, evicted,
  Move, claim, leave, refuse, no_work, accept, retry, abandon, execution, completion, beat, ticker,
  halt, eviction, signal, shutdown, graceful, deadline, move, Reach, here, next,
}

abbrev Sent : Type 0
Sent = List (CompleteRequest × Bool)

abbrev AllTimely : Sent → Type 0
AllTimely sent = All (λ p. p.1 ≡ true) sent

-- Every report but the last was sent before the context was done.
abbrev pub ButLast : Sent → Type 0
ButLast [] = Unit
ButLast (p ∷ []) = Unit
ButLast (p ∷ q ∷ sent) = (p.1 ≡ true) × ButLast (q ∷ sent)

ButLast-timely : (sent : Sent) → AllTimely sent → ButLast sent
ButLast-timely [] h = tt
ButLast-timely (p ∷ []) h = tt
ButLast-timely (p ∷ q ∷ sent) (e, h) = (e, ButLast-timely (q ∷ sent) h)

ButLast-snoc :
    (sent : Sent) (p : CompleteRequest × Bool) → AllTimely sent → ButLast (sent ++ p ∷ [])
ButLast-snoc [] p h = tt
ButLast-snoc (q ∷ []) p (e, h) = (e, tt)
ButLast-snoc (q ∷ r ∷ sent) p (e, h) = (e, ButLast-snoc (r ∷ sent) p h)

-- A loop that cannot send another report once the context is done.
abbrev IsLeaving : Poller → Type 0
IsLeaving ready = Unit
IsLeaving stopped = Unit
IsLeaving _ = ⊥

abbrev Holds : Agent → Type 0
Holds s = AllTimely s.sent ⊎ ((s.cancelled ≡ true) × IsLeaving s.poller × ButLast s.sent)

module _ (W : World) (redact : Text → Text) where
  reported-Holds :
      (c : CompleteRequest) (s : Agent) → s.poller ≡ reporting c → Holds s → Holds (reported c s)
  unfolding reported
  reported-Holds c s e (inl timely) = elim (Bool-cases s.cancelled) [
    | inl done ↦ inr (done, tt, ButLast-snoc s.sent (c, not s.cancelled) timely)
    | inr live ↦
        inl (
          All-append (λ p. p.1 ≡ true) s.sent ((c, not s.cancelled) ∷ []) timely (rw live refl, tt))
  ]
  reported-Holds c s e (inr (_, leaving, _)) = absurd (rw e at leaving)

  settled-Holds : (o : Option CompleteRequest) (s : Agent) → AllTimely s.sent → Holds (settled o s)
  unfolding settled
  settled-Holds none s timely = inl timely
  settled-Holds (some c) s timely = inl timely

  executed-Holds :
      (op : Operation) (s : Agent)
      → s.poller ≡ executing op
      → Holds s
      → Holds (executed W redact op s)
  unfolding executed
  executed-Holds op s e (inl timely) = settled-Holds _ _ timely
  executed-Holds op s e (inr (_, leaving, _)) = absurd (rw e at leaving)

  Move-Holds : {s t : Agent} → Move W redact s t → Holds s → Holds t
  unfolding evicted
  Move-Holds (execution op e) inv = executed-Holds op _ e inv
  Move-Holds (completion c e) inv = reported-Holds c _ e inv
  Move-Holds (claim e live) (inl timely) = inl timely
  Move-Holds (claim e live) (inr (done, _, _)) = absurd cc
  Move-Holds (leave e _) (inl timely) = inl timely
  Move-Holds (leave e _) (inr (done, _, last)) = inr (done, tt, last)
  Move-Holds (refuse e) (inl timely) = inl timely
  Move-Holds (refuse e) (inr (_, leaving, _)) = absurd (rw e at leaving)
  Move-Holds (no_work e) (inl timely) = inl timely
  Move-Holds (no_work e) (inr (_, leaving, _)) = absurd (rw e at leaving)
  Move-Holds (accept op e) (inl timely) = inl timely
  Move-Holds (accept op e) (inr (_, leaving, _)) = absurd (rw e at leaving)
  Move-Holds (retry e) (inl timely) = inl timely
  Move-Holds (retry e) (inr (_, leaving, _)) = absurd (rw e at leaving)
  Move-Holds (abandon e _) (inl timely) = inl timely
  Move-Holds (abandon e _) (inr (_, leaving, _)) = absurd (rw e at leaving)
  Move-Holds (beat _) inv = inv
  Move-Holds (ticker _) inv = inv
  Move-Holds (halt _ _) inv = inv
  Move-Holds (eviction now) inv = inv
  Move-Holds signal (inl timely) = inl timely
  Move-Holds signal (inr (_, leaving, last)) = inr (refl, leaving, last)
  Move-Holds (shutdown _ _) inv = inv
  Move-Holds (graceful _ _ _) inv = inv
  Move-Holds (deadline _) inv = inv

  Reach-Holds : (x : Executor) (h : History) {s : Agent} → Reach W redact (launch x h) s → Holds s
  unfolding launch
  Reach-Holds x h here = inl tt
  Reach-Holds x h (next r (move alive m)) = Move-Holds m (Reach-Holds x h r)

  -- However the goroutines of Run interleave: every report but the last is sent before the context
  -- is done, so the end of the context makes at most one report fail, that of the operation that
  -- was under way.
  pub Reach-ButLast :
      (x : Executor) (h : History) {s : Agent} → Reach W redact (launch x h) s → ButLast s.sent
  Reach-ButLast x h {s} r = elim (Reach-Holds x h r) [
    | inl timely ↦ ButLast-timely s.sent timely
    | inr (_, _, last) ↦ last
  ]
