-- ===== src/Examples/Goroutines.antt =====
-- Goroutines that call Execute at the same time.
use routestack_agent.Base.{◌↔◌, ℕ, some, [], ◌∷◌, ◌≡◌, refl, arith, codes, text_eq, none}
use routestack_agent.Base.Assoc.{lookup, insert, keep}
use routestack_agent.Executor.{evict, execute}
use routestack_agent.Executor.Threads.{
  Threads, Shared, Place, called, known, inside, update, idle, call, find, lock, skip, mark, turn,
  eviction, pass, begin, Reach, here, next,
}
use routestack_agent.Executor.Threads.Invariant.{IsSpaced}
use routestack_agent.Executor.Threads.Progress.{CanLeave, Reach-CanLeave}
use routestack_agent.Executor.Threads.Spacing.{Reach-IsSpaced, Solo, Solo-execute}
use routestack_agent.Examples.Operations.{pong, fresh, ping}
use routestack_agent.Examples.Node.{host, keep_text, nothing}

-- Goroutine 0 starts the operation, goroutine 1 skips it, and starts it again after an hour.
Reach-IsSpaced_example : IsSpaced ((codes "a", 3700) ∷ (codes "a", 0) ∷ [])
unfolding lookup insert keep text_eq evict
Reach-IsSpaced_example =
    let a = ping (codes "a") in
    let p1 = next (next here (turn 0 (call a))) (turn 1 (call a)) in
    let p2 = next (next p1 (turn 1 (find refl refl))) (turn 0 (find refl refl)) in
    let p3 = next (next p2 (turn 0 (lock refl))) (turn 0 (mark refl)) in
    let p4 = next (next p3 (turn 1 (lock refl))) (turn 1 (skip refl)) in
    let p5 = next (next p4 (pass 3700 (omega arith))) (eviction refl) in
    let p6 = next (next p5 (turn 1 (call a))) (turn 1 (find refl refl)) in
    let p7 = next (next p6 (turn 1 (lock refl))) (turn 1 (mark refl)) in
    Reach-IsSpaced (fresh pong) 0 _ tt p7

abbrev at_first : Shared
at_first = record { clock = host.now nothing; owner = none; executor = fresh pong; starts = [] }

abbrev at_end : Shared
at_end = record at_first { starts = (codes "a", host.now nothing) ∷ [] }

Solo-execute_example : Solo 2 at_first (called (ping (codes "a"))) at_end ↔ (
    at_end ≡ record at_first {
      owner = none;
      executor = (execute host keep_text (fresh pong) (ping (codes "a")) nothing).1;
      starts = (codes "a", host.now nothing) ∷ [];
    })
unfolding lookup
Solo-execute_example =
    Solo-execute host keep_text 2 (ping (codes "a")) nothing at_first at_end refl refl

abbrev at_lock : ℕ → Place
at_lock =
    let a = ping (codes "a") in
    let both_called = update (update (λ i. idle) 0 (called a)) 1 (called a) in
    update (update (update both_called 1 (known a)) 0 (known a)) 0 (inside a)

-- Goroutine 1 waits for goroutine 0, which is between Lock and Unlock.
abbrev waiting : Threads
waiting = record {
  shared = record { clock = 0; owner = some 0; executor = fresh pong; starts = [] };
  place = at_lock;
}

waiting-Reach : Reach (begin (fresh pong) 0) waiting
unfolding lookup
waiting-Reach =
    let a = ping (codes "a") in
    let p1 = next (next here (turn 0 (call a))) (turn 1 (call a)) in
    let p2 = next (next p1 (turn 1 (find refl refl))) (turn 0 (find refl refl)) in
    next p2 (turn 0 (lock refl))

Reach-CanLeave_example : CanLeave 6 1 waiting
Reach-CanLeave_example = Reach-CanLeave (fresh pong) 0 waiting 1 waiting-Reach
