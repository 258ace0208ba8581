-- ===== src/Agent/Run/Shutdown.antt =====
-- How Run of internal/agent/agent.go ends.
use routestack_agent.Base.{
  ℕ, ◌+◌, ◌≤◌, suc, Text, true, [], ◌∷◌, ◌++◌, Option, none, some, ◌≡◌, refl, ◌∙◌, ◌⊎◌, inl, inr,
  arith,
}
use routestack_agent.World.{World}
use routestack_agent.Executor.{execute}
use routestack_agent.Executor.Window.{delivery}
use routestack_agent.Agent.Poll.{CompleteRequest, report}
use routestack_agent.Agent.Run.{
  Agent, Poller, ready, claiming, backing_off, executing, reporting, stopped, Heart, beating,
  waiting, halted, Main, running, shutting_down, returned, crashed, is_alive, settled, executed,
  reported, Move, leave, no_work, abandon, execution, completion, beat, halt, signal, shutdown,
  graceful, move, Reach, here, next,
}

-- Run has returned after both goroutines, or a panic ended the program.
abbrev pub IsOver : Agent → Type 0
IsOver s = (s.main ≡ crashed) ⊎ ((s.main ≡ returned) × (s.poller ≡ stopped) × (s.heart ≡ halted))

module _ (W : World) (redact : Text → Text) where
  Reach-trans : {s t u : Agent} → Reach W redact s t → Reach W redact t u → Reach W redact s u
  Reach-trans r here = r
  Reach-trans r (next q step) = next (Reach-trans r q) step

  pub steps : {s t : Agent} → Reach W redact s t → ℕ
  steps here = 0
  steps (next r step) = suc (steps r)

  steps-Reach_trans :
      {s t u : Agent} (r : Reach W redact s t) (q : Reach W redact t u)
      → steps (Reach-trans r q) ≡ steps r + steps q
  unfolding Reach-trans steps
  steps-Reach_trans r here = omega arith
  steps-Reach_trans r (next q step) = omega (arith, steps-Reach_trans r q)

  -- At most the given number of steps.
  abbrev pub Way : ℕ → Agent → Agent → Type 0
  Way n s t = (r : Reach W redact s t) × (steps r ≤ n)

  Way-trans : {m n : ℕ} {s t u : Agent} → Way m s t → Way n t u → Way (m + n) s u
  Way-trans (r, hr) (q, hq) = (Reach-trans r q, omega (arith, steps-Reach_trans r q))

  longer : {m n : ℕ} {s t : Agent} → m ≤ n → Way m s t → Way n s t
  longer h (r, hr) = (r, omega arith)

  stay : {s : Agent} → Way 0 s s
  stay = (here, unfold steps in omega arith)

  -- One move of a program that is alive.
  one : {s t : Agent} → is_alive s.main ≡ true → Move W redact s t → Way 1 s t
  one alive m = (next here (move alive m), unfold steps in omega arith)

  after_move :
      {n : ℕ} {s t u : Agent}
      → is_alive s.main ≡ true
      → Move W redact s t
      → Way n t u
      → Way (1 + n) s u
  after_move alive m r = Way-trans (one alive m) r

  -- The loop of operations ends, and the rest stands still, unless it panics.
  abbrev Stops : ℕ → Agent → Type 0
  Stops n s =
      (t : Agent) × Way n s t
      × ((t.main ≡ crashed) ⊎ ((t.main ≡ s.main) × (t.cancelled ≡ true) × (t.poller ≡ stopped)))

  later : {m n : ℕ} {s : Agent} → m ≤ n → Stops m s → Stops n s
  later h (t, way, end) = (t, longer h way, end)

  ready-Stops :
      (s : Agent) → is_alive s.main ≡ true → s.cancelled ≡ true → s.poller ≡ ready → Stops 1 s
  ready-Stops s alive c e =
      (record s { poller = stopped }, one alive (leave e c), inr (refl, c, refl))

  reporting-Stops :
      (r : CompleteRequest) (s : Agent)
      → is_alive s.main ≡ true
      → s.cancelled ≡ true
      → s.poller ≡ reporting r
      → Stops 2 s
  unfolding reported
  reporting-Stops r s alive c e =
      let (t, reach, end) = ready-Stops (reported r s) alive c refl in
      (t, after_move alive (completion r e) reach, end)

  settled-Stops :
      (o : Option CompleteRequest) (s : Agent)
      → is_alive s.main ≡ true
      → s.cancelled ≡ true
      → (t : Agent) × Way 2 (settled o s) t
        × ((t.main ≡ crashed) ⊎ ((t.main ≡ s.main) × (t.cancelled ≡ true) × (t.poller ≡ stopped)))
  unfolding settled
  settled-Stops none s alive c = (settled none s, longer (omega arith) stay, inl refl)
  settled-Stops (some r) s alive c =
      reporting-Stops r (record s { poller = reporting r }) alive c refl

  stop_poller :
      (p : Poller) (s : Agent)
      → is_alive s.main ≡ true
      → s.cancelled ≡ true
      → s.poller ≡ p
      → Stops 3 s
  unfolding executed
  stop_poller ready s alive c e = later (omega arith) (ready-Stops s alive c e)
  stop_poller claiming s alive c e =
      let (t, reach, end) = ready-Stops (record s { poller = ready }) alive c refl in
      (t, longer (omega arith) (after_move alive (no_work e) reach), end)
  stop_poller backing_off s alive c e = (
    record s { poller = stopped },
    longer (omega arith) (one alive (abandon e c)),
    inr (refl, c, refl),
  )
  stop_poller (executing op) s alive c e =
      let (o, x', h') = execute W redact s.executor op s.history in
      let (t, reach, end) =
        settled-Stops (report W redact op o)
          (record s { executor = x'; history = h'; events = s.events ++ delivery op ∷ [] }) alive
          c in
      (t, after_move alive (execution op e) reach, end)
  stop_poller (reporting r) s alive c e = later (omega arith) (reporting-Stops r s alive c e)
  stop_poller stopped s alive c e = (s, longer (omega arith) stay, inr (refl, c, e))

  stop_heart :
      (b : Heart) (s : Agent)
      → is_alive s.main ≡ true
      → s.cancelled ≡ true
      → s.heart ≡ b
      → (t : Agent) × Way 2 s t
        × (t.main ≡ s.main)
        × (t.cancelled ≡ true)
        × (t.poller ≡ s.poller)
        × (t.heart ≡ halted)
  stop_heart beating s alive c e = (
    record s { heart = halted; beats = suc s.beats },
    after_move alive (beat e) (one alive (halt refl c)),
    refl,
    c,
    refl,
    refl,
  )
  stop_heart waiting s alive c e = (
    record s { heart = halted },
    longer (omega arith) (one alive (halt e c)),
    refl,
    c,
    refl,
    refl,
  )
  stop_heart halted s alive c e = (s, longer (omega arith) stay, refl, c, refl, e)

  return_now :
      (m : Main) (s : Agent)
      → s.main ≡ m
      → is_alive m ≡ true
      → s.cancelled ≡ true
      → s.poller ≡ stopped
      → s.heart ≡ halted
      → (t : Agent) × Way 2 s t × IsOver t
  unfolding is_alive
  return_now running s e alive c p b = (
    record s { main = returned },
    after_move (ground arith) (shutdown e c) (one refl (graceful refl p b)),
    inr (refl, p, b),
  )
  return_now shutting_down s e alive c p b = (
    record s { main = returned },
    longer (omega arith) (one (ground arith) (graceful e p b)),
    inr (refl, p, b),
  )
  return_now returned s e alive c p b = absurd cc
  return_now crashed s e alive c p b = absurd cc

  -- In whatever state the program is, unless it has ended: in at most eight steps from there the
  -- context can be done and both goroutines and then Run have returned, or the nil result of a
  -- handler has ended the program by a panic.
  pub can_return : (s : Agent) → is_alive s.main ≡ true → (t : Agent) × Way 8 s t × IsOver t
  can_return s alive =
      let s0 : Agent = record s { cancelled = true } in
      let (s1, r1, end) = stop_poller s.poller s0 alive refl refl in
      let r = after_move alive signal r1 in
      elim end [
        | inl panic ↦ (s1, longer (omega arith) r, inl panic)
        | inr (m1, c1, p1) ↦
            let alive1 : is_alive s1.main ≡ true = rw m1 alive in
            let (s2, r2, m2, c2, p2, b2) = stop_heart s1.heart s1 alive1 c1 refl in
            let (t, r3, over) = return_now s2.main s2 refl (rw (m2, m1) alive) c2 (p2 ∙ p1) b2 in
            (t, Way-trans r (Way-trans r2 r3), over)
      ]
