-- ===== src/Executor/Threads/Mutex.antt =====
-- The mutex of internal/executor/executor.go: who is between Lock and Unlock.
use routestack_agent.Base.{ℕ, some, ◌==◌, ◌≡◌, refl, arith, Bool-cases, inl, inr, ==_iff}
use routestack_agent.Executor.{Executor, Operation}
use routestack_agent.Executor.Threads.{
  Shared, Place, idle, called, known, inside, handling, Turn, call, unknown, find, lock, skip, mark,
  finish, Threads, Step, turn, eviction, pass, begin, Reach, here, next, marked, enter,
}

-- A goroutine between Lock and Unlock owns the mutex.
abbrev pub Owns : ℕ → Shared → Place → Type 0
Owns i m (inside op) = m.owner ≡ some i
Owns i m _ = Unit

Owns-map :
    (m m' : Shared) (j : ℕ) (q : Place)
    → (m.owner ≡ some j → m'.owner ≡ some j)
    → Owns j m q
    → Owns j m' q
Owns-map m m' j idle f o = tt
Owns-map m m' j (called op) f o = tt
Owns-map m m' j (known op) f o = tt
Owns-map m m' j (inside op) f o = f o
Owns-map m m' j (marked op) f o = tt
Owns-map m m' j (handling op) f o = tt

-- The goroutine that moves.
turn-Owns_self : {i : ℕ} {m m' : Shared} {p p' : Place} → Turn i m p m' p' → Owns i m' p'
turn-Owns_self (call op) = tt
turn-Owns_self (unknown _ _) = tt
turn-Owns_self (find _ _) = tt
turn-Owns_self (lock _) = refl
turn-Owns_self (skip _) = tt
turn-Owns_self (mark _) = tt
turn-Owns_self enter = tt
turn-Owns_self finish = tt

-- Each other goroutine.
turn-Owns :
    {i : ℕ} {m m' : Shared} {p p' : Place} (j : ℕ) (q : Place)
    → Turn i m p m' p'
    → ¬ (i ≡ j)
    → Owns i m p
    → Owns j m q
    → Owns j m' q
turn-Owns j q (call op) differ own o = o
turn-Owns j q (unknown _ _) differ own o = o
turn-Owns j q (find _ _) differ own o = o
turn-Owns {i} {m} j q (lock free) differ own o =
    Owns-map m (record m { owner = some i }) j q (λ taken. grind arith) o
turn-Owns {i} {m} {m'} j q (skip _) differ own o = Owns-map m m' j q (λ taken. grind arith) o
turn-Owns {i} {m} {m'} j q (mark _) differ own o = Owns-map m m' j q (λ taken. grind arith) o
turn-Owns j q enter differ own o = o
turn-Owns j q finish differ own o = o

-- Every goroutine between Lock and Unlock owns the mutex.
abbrev pub IsExclusive : Threads → Type 0
IsExclusive s = (j : ℕ) → Owns j s.shared (s.place j)

step-IsExclusive : {s t : Threads} → Step s t → IsExclusive s → IsExclusive t
step-IsExclusive {s} (turn i {m} {p} move) own j = elim (Bool-cases (i == j)) [
  | inl same ↦
      let held : Owns i m p = turn-Owns_self move in rw same (rw ((==_iff i j).0 same) at held)
  | inr differ ↦
      rw differ (turn-Owns j (s.place j) move (λ same. grind (arith, ==_iff i j)) (own i) (own j))
]
step-IsExclusive {s} {t} (eviction free) own j =
    Owns-map s.shared t.shared j (s.place j) (λ taken. taken) (own j)
step-IsExclusive {s} {t} (pass now later) own j =
    Owns-map s.shared t.shared j (s.place j) (λ taken. taken) (own j)

pub Reach-IsExclusive : {s t : Threads} → Reach s t → IsExclusive s → IsExclusive t
Reach-IsExclusive here own = own
Reach-IsExclusive (next path step) own = step-IsExclusive step (Reach-IsExclusive path own)

-- Who owns the mutex is between Lock and Unlock.
abbrev pub Held : ℕ → Shared → Place → Type 0
Held i m p = m.owner ≡ some i → (op : Operation) × (p ≡ inside op)

turn-Held_self :
    {i : ℕ} {m m' : Shared} {p p' : Place} → Turn i m p m' p' → Held i m p → Held i m' p'
turn-Held_self (call op) held owned = absurd (cc (held owned).1)
turn-Held_self (unknown free _) held owned = absurd (cc (free, owned))
turn-Held_self (find free _) held owned = absurd (cc (free, owned))
turn-Held_self (lock {op} free) held owned = (op, refl)
turn-Held_self (skip _) held owned = absurd (cc owned)
turn-Held_self (mark _) held owned = absurd (cc owned)
turn-Held_self enter held owned = absurd (cc (held owned).1)
turn-Held_self finish held owned = absurd (cc (held owned).1)

turn-Held :
    {i : ℕ} {m m' : Shared} {p p' : Place} (j : ℕ) (q : Place)
    → Turn i m p m' p'
    → ¬ (i ≡ j)
    → Held j m q
    → Held j m' q
turn-Held j q (call op) differ held owned = held owned
turn-Held j q (unknown _ _) differ held owned = held owned
turn-Held j q (find _ _) differ held owned = held owned
turn-Held j q (lock free) differ held owned = absurd (grind arith)
turn-Held j q (skip _) differ held owned = absurd (cc owned)
turn-Held j q (mark _) differ held owned = absurd (cc owned)
turn-Held j q enter differ held owned = held owned
turn-Held j q finish differ held owned = held owned

abbrev pub IsHeld : Threads → Type 0
IsHeld s = (j : ℕ) → Held j s.shared (s.place j)

step-IsHeld : {s t : Threads} → Step s t → IsHeld s → IsHeld t
step-IsHeld {s} (turn i {m} {p} move) held j = elim (Bool-cases (i == j)) [
  | inl same ↦
      let after : Held i m p = turn-Held_self move (held i) in
      rw same (rw ((==_iff i j).0 same) at after)
  | inr differ ↦
      rw differ (turn-Held j (s.place j) move (λ same. grind (arith, ==_iff i j)) (held j))
]
step-IsHeld (eviction free) held j = held j
step-IsHeld (pass now later) held j = held j

pub Reach-IsHeld : {s t : Threads} → Reach s t → IsHeld s → IsHeld t
Reach-IsHeld here held = held
Reach-IsHeld (next path step) held = step-IsHeld step (Reach-IsHeld path held)

-- Reached when every goroutine starts outside of Execute: at most one goroutine is between Lock and
-- Unlock.
Reach-exclusive :
    (x : Executor) (now : ℕ) (s : Threads) (i j : ℕ) (op op' : Operation)
    → Reach (begin x now) s
    → s.place i ≡ inside op
    → s.place j ≡ inside op'
    → i ≡ j
Reach-exclusive x now s i j op op' path first second =
    let own = Reach-IsExclusive path (λ j. tt) in
    let a : s.shared.owner ≡ some i = rw first at (own i) in
    let b : s.shared.owner ≡ some j = rw second at (own j) in grind arith
