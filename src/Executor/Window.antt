-- ===== src/Executor/Window.antt =====
-- The one-hour window of idempotency: Execute and evictLoop of internal/executor/executor.go.
use routestack_agent.Base.{
  ℕ, ◌+◌, ◌≤◌, ◌<◌, Text, true, List, [], ◌∷◌, none, some, not, ◌≡◌, refl, ap, ◌∙◌, arith,
  text_eq_iff, ltb,
}
use routestack_agent.Base.Assoc
use routestack_agent.Base.Assoc.{NodupKeys}
use routestack_agent.World.{World, History}
use routestack_agent.Executor.{
  Executor, Operation, Handler, execute, evict, conclude, returned, already_processed,
}

-- What happens to an executor: an operation is delivered, or the ticker of evictLoop fires.
pub data Event : Type 0 where
  delivery : Operation → Event
  tick : ℕ → Event

-- Each ID has one mark.
abbrev pub IsWellFormed : Executor → Type 0
IsWellFormed x = NodupKeys x.seen

abbrev pub TicksBy : ℕ → List Event → Type 0
TicksBy limit [] = Unit
TicksBy limit (delivery op ∷ es) = TicksBy limit es
TicksBy limit (tick now ∷ es) = (now ≤ limit) × TicksBy limit es

module _ (W : World) (redact : Text → Text) where
  unfoldable pub step : Executor → Event → History → Executor × History
  step x (delivery op) h = let (_, x', h') = execute W redact x op h in (x', h')
  step x (tick now) h = (evict now x, h)

  unfoldable pub run_events : Executor → List Event → History → Executor × History
  unfolding step
  run_events x [] h = (x, h)
  run_events x (e ∷ es) h = let (x', h') = step x e h in run_events x' es h'

  step-IsWellFormed :
      (x : Executor) (e : Event) (h : History) → IsWellFormed x → IsWellFormed (step x e h).0
  unfolding step execute
  step-IsWellFormed x (delivery op) h w =
      ground (arith, Assoc.insert-NodupKeys op.id (W.now h) x.seen w)
  step-IsWellFormed x (tick now) h w =
      unfold evict in Assoc.keep-NodupKeys (λ t. not (ltb (t + 3600) now)) x.seen w

  handlers-step : (x : Executor) (e : Event) (h : History) → (step x e h).0.handlers ≡ x.handlers
  unfolding step execute evict
  handlers-step x (delivery op) h = ground arith
  handlers-step x (tick now) h = refl

  -- One event within the hour keeps a mark.
  mark-step :
      (x : Executor) (e : Event) (h : History) (id : Text) (t : ℕ)
      → IsWellFormed x
      → Assoc.lookup id x.seen ≡ some t
      → TicksBy (t + 3600) (e ∷ [])
      → Assoc.lookup id (step x e h).0.seen ≡ some t
  unfolding step execute evict
  mark-step x (delivery op) h id t w m _ =
      ground (arith, text_eq_iff op.id id, Assoc.lookup-insert op.id id (W.now h) x.seen)
  mark-step x (tick now) h id t w m b =
      rw (Assoc.lookup-keep (λ s. not (ltb (s + 3600) now)) id x.seen w, m) (ground arith)

  mark-run_events :
      (es : List Event) (x : Executor) (h : History) (id : Text) (t : ℕ)
      → IsWellFormed x
      → Assoc.lookup id x.seen ≡ some t
      → TicksBy (t + 3600) es
      → (Assoc.lookup id (run_events x es h).0.seen ≡ some t)
        × ((run_events x es h).0.handlers ≡ x.handlers)
  unfolding run_events
  mark-run_events [] x h id t w m b = (m, refl)
  mark-run_events (delivery op ∷ es) x h id t w m b =
      let e = delivery op in
      let rest =
        mark-run_events es (step x e h).0 (step x e h).1 id t (step-IsWellFormed x e h w)
          (mark-step x e h id t w m tt) b in
      (rest.0, rest.1 ∙ handlers-step x e h)
  mark-run_events (tick now ∷ es) x h id t w m b =
      let e = tick now in
      let rest =
        mark-run_events es (step x e h).0 (step x e h).1 id t (step-IsWellFormed x e h w)
          (mark-step x e h id t w m (b.0, tt)) b.1 in
      (rest.0, rest.1 ∙ handlers-step x e h)

  execute-seen :
      (x : Executor) (op : Operation) (h : History)
      → Assoc.has op.type x.handlers ≡ true
      → Assoc.has op.id x.seen ≡ true
      → execute W redact x op h ≡ (returned already_processed, x, h)
  unfolding execute
  execute-seen x op h known seen = ground arith

  mark-execute :
      (x : Executor) (op : Operation) (h : History)
      → Assoc.has op.type x.handlers ≡ true
      → Assoc.lookup op.id x.seen ≡ none
      → Assoc.lookup op.id (step x (delivery op) h).0.seen ≡ some (W.now h)
  unfolding step execute
  mark-execute x op h known fresh =
      ground (arith, text_eq_iff op.id op.id, Assoc.lookup-insert op.id op.id (W.now h) x.seen)

  -- Once an operation of a known type with a new ID was executed, then whatever else is delivered
  -- and as long as the evictions come within an hour of it, any operation of the same ID and of a
  -- known type is answered "already processed": it calls nothing and changes nothing.
  pub replay_in_window :
      (x : Executor) (op again : Operation) (es : List Event) (h : History)
      → IsWellFormed x
      → Assoc.has op.type x.handlers ≡ true
      → Assoc.lookup op.id x.seen ≡ none
      → TicksBy (W.now h + 3600) es
      → again.id ≡ op.id
      → Assoc.has again.type x.handlers ≡ true
      → let (x', h') = run_events x (delivery op ∷ es) h in
        execute W redact x' again h' ≡ (returned already_processed, x', h')
  unfolding run_events
  replay_in_window x op again es h w known fresh within same known' =
      let e = delivery op in
      let x₁ = (step x e h).0 in
      let rest =
        mark-run_events es x₁ (step x e h).1 op.id (W.now h) (step-IsWellFormed x e h w)
          (mark-execute x op h known fresh) within in
      let same_handlers = rest.1 ∙ handlers-step x e h in
      execute-seen (run_events x₁ es (step x e h).1).0 again (run_events x₁ es (step x e h).1).1
        (rw same_handlers known') (rw same (ap Assoc.is_some rest.0))

  -- An eviction more than an hour after the mark forgets the ID: an operation of that ID reaches its
  -- handler again, and is marked with the time of that execution.
  pub replay_after_window :
      (x : Executor) (op : Operation) (handler : Handler) (h : History) (t now : ℕ)
      → IsWellFormed x
      → Assoc.lookup op.type x.handlers ≡ some handler
      → Assoc.lookup op.id x.seen ≡ some t
      → t + 3600 < now
      → let (outcome, x', h') = execute W redact (evict now x) op h in
        (outcome ≡ conclude W redact op (handler op h).0)
        × (h' ≡ (handler op h).1)
        × (Assoc.lookup op.id x'.seen ≡ some (W.now h))
  unfolding execute evict
  replay_after_window x op handler h t now w known m late =
      let stays = λ (s : ℕ). not (ltb (s + 3600) now) in
      ground (
        arith,
        Assoc.lookup-keep stays op.id x.seen w,
        Assoc.lookup-insert op.id op.id (W.now h) (Assoc.keep stays x.seen),
        text_eq_iff op.id op.id,
      )
