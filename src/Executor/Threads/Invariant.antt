-- ===== src/Executor/Threads/Invariant.antt =====
-- What holds of the goroutines in every reachable state (internal/executor/executor.go).
use routestack_agent.Base.{
  ℕ, ◌+◌, ◌≤◌, ◌<◌, Text, false, List, [], ◌∷◌, none, some, not, ltb, ◌≡◌, ◌⊎◌, inl, inr, arith,
  All, text_eq, text_eq_iff, Bool-cases,
}
use routestack_agent.Base.Assoc
use routestack_agent.Base.Assoc.{NodupKeys}
use routestack_agent.Executor.{evict}
use routestack_agent.Executor.Threads.{
  Shared, Place, Turn, call, unknown, find, lock, skip, mark, finish, Threads, Step, turn, eviction,
  pass, Reach, here, next, enter,
}

-- The mark of a start is in the window, or more than an hour old.
abbrev pub IsMarked : Shared → Text × ℕ → Type 0
IsMarked m (id, t) =
    (t + 3600 < m.clock) ⊎ ((k : ℕ) × (Assoc.lookup id m.executor.seen ≡ some k) × (t ≤ k))

-- Two starts of one ID are more than an hour apart.
abbrev pub IsApart : Text × ℕ → Text × ℕ → Type 0
IsApart (id, t) (id', t') = (text_eq id' id ≡ false) ⊎ (t' + 3600 < t)

abbrev pub IsSpaced : List (Text × ℕ) → Type 0
IsSpaced [] = Unit
IsSpaced (p ∷ ps) = All (IsApart p) ps × IsSpaced ps

pub record Marks (m : Shared) : Type 0 where
  pub unique : NodupKeys m.executor.seen
  pub marked : All (IsMarked m) m.starts
  pub spaced : IsSpaced m.starts

All-map {ℓ} :
    {A : Type ℓ} {P Q : A → Type 0} → ((a : A) → P a → Q a) → (xs : List A) → All P xs → All Q xs
All-map f [] h = tt
All-map f (x ∷ xs) (h, hs) = (f x h, All-map f xs hs)

-- The effect of Execute between Lock and Unlock on a new ID.
marking : Text → Shared → Shared
marking id m = record m {
  owner = none;
  executor = record m.executor { seen = Assoc.insert id m.clock m.executor.seen };
  starts = (id, m.clock) ∷ m.starts;
}

marking-IsMarked :
    (id : Text) (m : Shared)
    → Assoc.has id m.executor.seen ≡ false
    → (p : Text × ℕ) → IsMarked m p
    → IsMarked (marking id m) p
unfolding marking
marking-IsMarked id m fresh (id', t) (inl old) = inl old
marking-IsMarked id m fresh (id', t) (inr (k, e, le)) =
    inr (
      k,
      ground (arith, Assoc.lookup-insert id id' m.clock m.executor.seen, text_eq_iff id id'),
      le,
    )

marking-IsApart :
    (id : Text) (m : Shared)
    → Assoc.has id m.executor.seen ≡ false
    → (p : Text × ℕ) → IsMarked m p
    → IsApart (id, m.clock) p
marking-IsApart id m fresh (id', t) (inl old) = inr old
marking-IsApart id m fresh (id', t) (inr (k, e, le)) = inl (ground (arith, text_eq_iff id' id))

evict-IsMarked :
    (m : Shared)
    → NodupKeys m.executor.seen
    → (p : Text × ℕ) → IsMarked m p
    → IsMarked (record m { executor = evict m.clock m.executor }) p
unfolding evict
evict-IsMarked m u (id', t) (inl old) = inl old
evict-IsMarked m u (id', t) (inr (k, e, le)) = elim (Bool-cases (ltb (k + 3600) m.clock)) [
  | inl late ↦ inl (ground arith)
  | inr recent ↦ inr (
    k,
    ground (arith, Assoc.lookup-keep (λ t. not (ltb (t + 3600) m.clock)) id' m.executor.seen u),
    le,
  )
]

later-IsMarked :
    (m : Shared) (now : ℕ)
    → m.clock ≤ now
    → (p : Text × ℕ) → IsMarked m p
    → IsMarked (record m { clock = now }) p
later-IsMarked m now later (id', t) (inl old) = inl (omega arith)
later-IsMarked m now later (id', t) (inr kept) = inr kept

marking-Marks :
    (id : Text) (m : Shared) → Assoc.has id m.executor.seen ≡ false → Marks m → Marks (marking id m)
unfolding marking
marking-Marks id m fresh inv = record {
  unique = Assoc.insert-NodupKeys id m.clock m.executor.seen inv.unique;
  marked = (
    inr (
      m.clock,
      ground (arith, Assoc.lookup-insert id id m.clock m.executor.seen, text_eq_iff id id),
      omega arith,
    ),
    All-map (marking-IsMarked id m fresh) m.starts inv.marked,
  );
  spaced = (All-map (marking-IsApart id m fresh) m.starts inv.marked, inv.spaced);
}

turn-Marks : {i : ℕ} {m m' : Shared} {p p' : Place} → Turn i m p m' p' → Marks m → Marks m'
unfolding marking
turn-Marks (call op) inv = inv
turn-Marks (unknown _ _) inv = inv
turn-Marks (find _ _) inv = inv
turn-Marks (lock _) inv = record { unique = inv.unique; marked = inv.marked; spaced = inv.spaced }
turn-Marks (skip _) inv = record { unique = inv.unique; marked = inv.marked; spaced = inv.spaced }
turn-Marks {i} {m} (mark {op} fresh) inv = marking-Marks op.id m fresh inv
turn-Marks enter inv = inv
turn-Marks finish inv = inv

step-Marks : {s t : Threads} → Step s t → Marks s.shared → Marks t.shared
unfolding evict
step-Marks (turn i move) inv = turn-Marks move inv
step-Marks {s} (eviction free) inv = record {
  unique = Assoc.keep-NodupKeys (λ t. not (ltb (t + 3600) s.shared.clock)) _ inv.unique;
  marked = All-map (evict-IsMarked s.shared inv.unique) _ inv.marked;
  spaced = inv.spaced;
}
step-Marks {s} (pass now later) inv = record {
  unique = inv.unique;
  marked = All-map (later-IsMarked s.shared now later) _ inv.marked;
  spaced = inv.spaced;
}

pub Reach-Marks : {s t : Threads} → Reach s t → Marks s.shared → Marks t.shared
Reach-Marks here inv = inv
Reach-Marks (next path step) inv = step-Marks step (Reach-Marks path inv)
