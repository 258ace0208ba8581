-- ===== src/Handlers/Table/Order.antt =====
-- The order in which cmd/routestack-agent/main.go registers its handlers makes no difference to what
-- the agent reports, nor to the calls that it makes.

use mathlib.Core.List.{Perm}
use mathlib.Core.Option
use mathlib.Core.Quot
use mathlib.Core.Quot.{Quot, Quot-set}
use routestack_agent.Base.{
  Text, List, [], ◌∷◌, Option, none, some, ◌≡◌, refl, ap, ◌∙◌, sym, Option-cases, inl, inr,
}
use routestack_agent.World.{World, History, ok, err}
use routestack_agent.Executor.{Executor, Handler, register}
use routestack_agent.Executor.Registry.{SameMaps, Registry, Alike, enter-mk, execute-Alike}
use routestack_agent.Executor.Registry.Order.{enter_all, enter_all-Perm}
use routestack_agent.Agent.Poll.{CompleteRequest, Claim, continue, poll}
use routestack_agent.Handlers.Table.{register_all}

register_all-view :
    (l : List (Text × Handler)) (x : Executor)
    → enter_all l (Quot.mk x) ≡ Option.map Quot.mk (register_all l x)
unfolding enter_all register_all Option.bind
register_all-view [] x = refl
register_all-view ((t, f) ∷ l) x = elim (Option-cases (register t f x)) [
  | inl e ↦ rw (enter-mk (t, f) x, register_all, e) refl
  | inr (y, e) ↦ rw (enter-mk (t, f) x, register_all, e) (register_all-view l y)
]

module _ (W : World) (redact : Text → Text) where
  continue-Alike :
      (c : Option CompleteRequest) (r r' : List CompleteRequest × Executor × History)
      (x y : Executor) (h : History)
      → Alike r r'
      → SameMaps x y
      → Alike (continue W redact c r (x, h)) (continue W redact c r' (y, h))
  unfolding continue
  continue-Alike none r r' x y h rest same = (refl, same, refl)
  continue-Alike (some c) (cs, _, _) (ds, _, _) x y h (reports, maps, calls) same =
      (ap (λ rs. c ∷ rs) reports, maps, calls)

  poll-Alike :
      (claims : List Claim) (h : History) (x y : Executor)
      → SameMaps x y
      → Alike (poll W redact claims x h) (poll W redact claims y h)
  unfolding poll
  poll-Alike [] h x y s = (refl, s, refl)
  poll-Alike (err e ∷ claims) h x y s = poll-Alike claims h x y s
  poll-Alike (ok none ∷ claims) h x y s = poll-Alike claims h x y s
  poll-Alike (ok (some op) ∷ claims) h x y s =
      let (outcome, same, calls) = execute-Alike W redact op h x y s in
      rw (outcome, calls) (continue-Alike _ _ _ _ _ _ (poll-Alike claims _ _ _ same) same)

  -- The reports, the maps of the executor afterwards, and the calls.
  abbrev pub Served : Type 0
  Served = List CompleteRequest × Registry × History

  Served_set : IsSet Served
  Served_set = hlevel Quot-set

  -- What the loop makes of an executor, up to the order of its maps.
  abbrev pub served : List Claim → History → Executor → Served
  served claims h x = let (reports, y, k) = poll W redact claims x h in (reports, Quot.mk y, k)

  served-SameMaps :
      (claims : List Claim) (h : History) (x y : Executor)
      → SameMaps x y
      → served claims h x ≡ served claims h y
  served-SameMaps claims h x y s =
      let (reports, maps, calls) = poll-Alike claims h x y s in
      λ i. (reports i, Quot.sound maps i, calls i)

  serve_registry : List Claim → History → Registry → Served
  serve_registry claims h = Quot.lift Served_set (served claims h) (served-SameMaps claims h)

  serve_registry-view :
      (claims : List Claim) (h : History) (o : Option Executor)
      → Option.map (serve_registry claims h) (Option.map Quot.mk o) ≡ Option.map (served claims h) o
  unfolding serve_registry
  serve_registry-view claims h none = refl
  serve_registry-view claims h (some x) = refl

  -- When the same handlers are registered in another order: the registration panics in both cases or
  -- in none, and then the loop sends the same reports, makes the same calls on the host and leaves
  -- executors whose maps have the same entries, whatever is claimed.
  pub served-register_all :
      (l m : List (Text × Handler)) (x : Executor) (claims : List Claim) (h : History)
      → Perm l m
      → Option.map (served claims h) (register_all l x)
        ≡ Option.map (served claims h) (register_all m x)
  served-register_all l m x claims h perm =
      sym (serve_registry-view claims h (register_all l x))
      ∙ ap (Option.map (serve_registry claims h)) (
          sym (register_all-view l x) ∙ enter_all-Perm l m (Quot.mk x) perm ∙ register_all-view m x)
      ∙ serve_registry-view claims h (register_all m x)
