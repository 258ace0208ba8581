-- ===== src/Executor/Threads/Progress.antt =====
-- No goroutine waits for ever for the mutex of internal/executor/executor.go.
use routestack_agent.Base.{
  ℕ, zero, suc, ◌≤◌, false, none, ◌==◌, ◌≡◌, refl, ◌∙◌, arith, Bool-cases, Option-cases, inl, inr,
  ==_iff,
}
use routestack_agent.Base.Assoc
use routestack_agent.Executor.{Executor, Operation}
use routestack_agent.Executor.Threads.Mutex.{Reach-IsHeld}
use routestack_agent.Executor.Threads.{
  Shared, Place, idle, called, known, inside, handling, Turn, unknown, find, lock, skip, mark,
  finish, Threads, update, Step, turn, begin, Reach, marked, enter,
}

-- At most so many steps.
pub data Within : ℕ → Threads → Threads → Type 0 where
  stay : {n : ℕ} {s : Threads} → Within n s s
  go : {n : ℕ} {s t u : Threads} → Step s t → Within n t u → Within (suc n) s u

-- A turn of one goroutine leaves the others where they are.
record Advanced (i : ℕ) (s : Threads) (m : Shared) (p : Place) : Type 0 where
  after : Threads
  step : Step s after
  shared : after.shared ≡ m
  moved : after.place i ≡ p
  others : (j : ℕ) → ¬ (j ≡ i) → after.place j ≡ s.place j

update_self : (i : ℕ) (f : ℕ → Place) (p : Place) → update f i p i ≡ p
update_self i f p = rw ((==_iff i i).1 refl) refl

update_other : (i : ℕ) (f : ℕ → Place) (p : Place) (j : ℕ) → ¬ (j ≡ i) → update f i p j ≡ f j
update_other i f p j differ =
    let e : (i == j) ≡ false = ground (arith, ==_iff i j, differ) in rw e refl

advance :
    (i : ℕ) (s : Threads) {p p' : Place} {m : Shared}
    → s.place i ≡ p
    → Turn i s.shared p m p'
    → Advanced i s m p'
advance i s {p} {p'} {m} at_p move =
    let here_move : Turn i s.shared (s.place i) m p' = rw at_p move in
    record {
      after = record { shared = m; place = update s.place i p' };
      step = turn i here_move;
      shared = refl;
      moved = update_self i s.place p';
      others = update_other i s.place p';
    }

-- Goroutine i can be outside in so many steps.
abbrev pub CanLeave : ℕ → ℕ → Threads → Type 0
CanLeave n i s = (t : Threads) × Within n s t × (t.place i ≡ idle)

-- After a turn of goroutine i.
follow :
    {n : ℕ} (i : ℕ) (s : Threads) {p p' : Place} {m : Shared}
    → s.place i ≡ p
    → Turn i s.shared p m p'
    → ((s' : Threads) → s'.shared ≡ m → s'.place i ≡ p' → CanLeave n i s')
    → CanLeave (suc n) i s
follow i s at_p move rest =
    let a = advance i s at_p move in
    let (t, way, out) = rest a.after a.shared a.moved in (t, go a.step way, out)

handling-CanLeave :
    (i : ℕ) (op : Operation) (s : Threads) → s.place i ≡ handling op → CanLeave 1 i s
handling-CanLeave i op s e = follow i s e finish (λ s' m out. (s', stay, out))

marked-CanLeave : (i : ℕ) (op : Operation) (s : Threads) → s.place i ≡ marked op → CanLeave 2 i s
marked-CanLeave i op s e = follow i s e enter (λ s' m begun. handling-CanLeave i op s' begun)

inside-CanLeave : (i : ℕ) (op : Operation) (s : Threads) → s.place i ≡ inside op → CanLeave 3 i s
inside-CanLeave i op s e = elim (Bool-cases (Assoc.has op.id s.shared.executor.seen)) [
  | inl seen ↦ follow i s e (skip seen) (λ s' m out. (s', stay, out))
  | inr new ↦ follow i s e (mark new) (λ s' m at_work. marked-CanLeave i op s' at_work)
]

known-CanLeave :
    (i : ℕ) (op : Operation) (s : Threads)
    → s.shared.owner ≡ none
    → s.place i ≡ known op
    → CanLeave 4 i s
known-CanLeave i op s free e = follow i s e (lock free) (λ s' m held. inside-CanLeave i op s' held)

called-CanLeave :
    (i : ℕ) (op : Operation) (s : Threads)
    → s.shared.owner ≡ none
    → s.place i ≡ called op
    → CanLeave 5 i s
called-CanLeave i op s free e = elim (Bool-cases (Assoc.has op.type s.shared.executor.handlers)) [
  | inl found ↦
      follow i s e (find free found) (λ s' m there. known-CanLeave i op s' (rw m free) there)
  | inr missing ↦ follow i s e (unknown free missing) (λ s' m out. (s', stay, out))
]

Within-longer : {m n : ℕ} {s t : Threads} → m ≤ n → Within m s t → Within n s t
Within-longer less stay = stay
Within-longer {m = suc m} {n = zero} less (go step way) = absurd (omega arith)
Within-longer {m = suc m} {n = suc n} less (go step way) = go step (Within-longer (omega arith) way)

CanLeave-longer : {m n : ℕ} (i : ℕ) {s : Threads} → m ≤ n → CanLeave m i s → CanLeave n i s
CanLeave-longer i less (t, way, out) = (t, Within-longer less way, out)

-- With the mutex free.
free-CanLeave :
    (i : ℕ) (p : Place) (s : Threads) → s.shared.owner ≡ none → s.place i ≡ p → CanLeave 5 i s
free-CanLeave i idle s free e = (s, stay, e)
free-CanLeave i (called op) s free e = called-CanLeave i op s free e
free-CanLeave i (known op) s free e = CanLeave-longer i (omega arith) (known-CanLeave i op s free e)
free-CanLeave i (inside op) s free e = CanLeave-longer i (omega arith) (inside-CanLeave i op s e)
free-CanLeave i (marked op) s free e = CanLeave-longer i (omega arith) (marked-CanLeave i op s e)
free-CanLeave i (handling op) s free e =
    CanLeave-longer i (omega arith) (handling-CanLeave i op s e)

-- Goroutine j, between Lock and Unlock, makes way for goroutine i.
release :
    (i j : ℕ) (op : Operation) (p : Place) (s : Threads)
    → ¬ (i ≡ j)
    → s.place j ≡ inside op
    → s.place i ≡ p
    → CanLeave 6 i s
release i j op p s differ held e = elim (Bool-cases (Assoc.has op.id s.shared.executor.seen)) [
  | inl seen ↦
      let a = advance j s held (skip seen) in
      let (t, way, out) = free-CanLeave i p a.after (rw a.shared refl) (a.others i differ ∙ e) in
      (t, go a.step way, out)
  | inr new ↦
      let a = advance j s held (mark new) in
      let (t, way, out) = free-CanLeave i p a.after (rw a.shared refl) (a.others i differ ∙ e) in
      (t, go a.step way, out)
]

-- From every state that goroutines around Execute and evictLoop reach when all start outside, each
-- goroutine can be outside again in at most six steps: no path leaves the mutex locked. A handler
-- may return at any moment.
pub Reach-CanLeave :
    (x : Executor) (now : ℕ) (s : Threads) (i : ℕ) → Reach (begin x now) s → CanLeave 6 i s
Reach-CanLeave x now s i path = elim (Option-cases s.shared.owner) [
  | inl free ↦ CanLeave-longer i (omega arith) (free-CanLeave i (s.place i) s free refl)
  | inr (j, owned) ↦
      let (op, held) = Reach-IsHeld path (λ j owned. absurd (cc owned)) j owned in
      elim (Bool-cases (i == j)) [
        | inl same ↦
            let own : s.place i ≡ inside op = rw ((==_iff i j).0 same) held in
            CanLeave-longer i (omega arith) (inside-CanLeave i op s own)
        | inr other ↦ release i j op (s.place i) s (λ same. grind (arith, ==_iff i j)) held refl
      ]
]
