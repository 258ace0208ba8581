-- ===== src/Executor/Registry/Order.antt =====
-- The order of the calls of Register makes no difference (internal/executor/executor.go).
use mathlib.Core.Path.{fun_ext}
use mathlib.Core.Logic.{∥∥₁_elim}
use mathlib.Core.Quot
use mathlib.Core.Option
use mathlib.Core.List.{Perm, Permᴰ}
use mathlib.Core.Quot.{Quot, Quot-set}
use routestack_agent.Base.{
  Text, Bool, false, List, [], ◌∷◌, Option, none, some, ◌≡◌, refl, ap, ◌∙◌, sym, arith, ◌||◌,
  text_eq, text_eq_iff, Bool-cases, inl, inr, if◌then◌else◌,
}
use routestack_agent.Base.Assoc
use routestack_agent.Executor.{Executor, Handler, register}
use routestack_agent.Executor.Registry.{Registry, Registry_set, enter, enter-mk}

clash : Text → Text → Executor → Bool
clash t u x = Assoc.has t x.handlers || Assoc.has u x.handlers || text_eq t u

-- What two calls of Register leave, when none panics.
both : Text × Handler → Text × Handler → Executor → Option Executor
unfolding clash
both (t, f) (u, g) x =
    if clash t u x
    then none
    else some (record x { handlers = Assoc.insert u g (Assoc.insert t f x.handlers) })

register-both :
    (p q : Text × Handler) (x : Executor)
    → Option.bind (register p.0 p.1 x) (register q.0 q.1) ≡ both p q x
unfolding register both clash Option.bind
register-both (t, f) (u, g) x = ground (arith, Assoc.has-insert t u f x.handlers)

clash_comm : (t u : Text) (x : Executor) → clash t u x ≡ clash u t x
unfolding clash
clash_comm t u x = ground (arith, text_eq_iff t u, text_eq_iff u t)

clash-text_eq : (t u : Text) (x : Executor) → clash t u x ≡ false → text_eq t u ≡ false
unfolding clash
clash-text_eq t u x e = ground arith

insert_comm :
    {V : Type 0} (t u k : Text) (f g : V) (m : List (Text × V))
    → text_eq t u ≡ false
    → Assoc.lookup k (Assoc.insert u g (Assoc.insert t f m))
      ≡ Assoc.lookup k (Assoc.insert t f (Assoc.insert u g m))
insert_comm t u k f g m differ = ground (
  arith,
  Assoc.lookup-insert u k g (Assoc.insert t f m),
  Assoc.lookup-insert t k f m,
  Assoc.lookup-insert t k f (Assoc.insert u g m),
  Assoc.lookup-insert u k g m,
  text_eq_iff t k,
  text_eq_iff u k,
  text_eq_iff t u,
)

both_comm :
    (p q : Text × Handler) (x : Executor)
    → Path (Option Registry) (Option.map Quot.mk (both p q x)) (Option.map Quot.mk (both q p x))
unfolding both
both_comm (t, f) (u, g) x = elim (Bool-cases (clash t u x)) [
  | inl e ↦ rw (both, ← clash_comm t u x, e) refl
  | inr e ↦
      rw (both, ← clash_comm t u x, e)
        (ap some (
          Quot.sound (record {
            handlers = λ k. insert_comm t u k f g x.handlers (clash-text_eq t u x e);
            seen = λ k. refl;
          })))
]

bind-enter :
    (q : Text × Handler) (o : Option Executor)
    → Option.bind (Option.map Quot.mk o) (enter q)
      ≡ Option.map Quot.mk (Option.bind o (register q.0 q.1))
unfolding Option.bind
bind-enter q none = refl
bind-enter q (some x) = enter-mk q x

enter_comm :
    (p q : Text × Handler) (r : Registry)
    → Option.bind (enter p r) (enter q) ≡ Option.bind (enter q r) (enter p)
enter_comm p q =
    Quot.ind (λ r. Registry_set _ _)
      (λ x.
        rw
          (
            enter-mk p x,
            enter-mk q x,
            bind-enter q,
            bind-enter p,
            register-both p q x,
            register-both q p x,
          )
          (both_comm p q x))

unfoldable pub enter_all : List (Text × Handler) → Registry → Option Registry
enter_all [] r = some r
enter_all (p ∷ ps) r = Option.bind (enter p r) (enter_all ps)

bind_assoc :
    {A B C : Type 0} (o : Option A) (f : A → Option B) (g : B → Option C)
    → Option.bind (Option.bind o f) g ≡ Option.bind o (λ a. Option.bind (f a) g)
unfolding Option.bind
bind_assoc none f g = refl
bind_assoc (some a) f g = refl

enter_all_swap :
    (p q : Text × Handler) (l : List (Text × Handler)) (r : Registry)
    → enter_all (p ∷ q ∷ l) r ≡ enter_all (q ∷ p ∷ l) r
unfolding enter_all
enter_all_swap p q l r =
    sym (bind_assoc (enter p r) (enter q) (enter_all l))
    ∙ ap (λ o. Option.bind o (enter_all l)) (enter_comm p q r)
    ∙ bind_assoc (enter q r) (enter p) (enter_all l)

enter_all-Permᴰ :
    {l m : List (Text × Handler)} → Permᴰ l m → (r : Registry) → enter_all l r ≡ enter_all m r
unfolding enter_all
enter_all-Permᴰ Permᴰ.nil r = refl
enter_all-Permᴰ (Permᴰ.cons {b = p} e perm) r =
    rw e (ap (Option.bind (enter p r)) (fun_ext (enter_all-Permᴰ perm)))
enter_all-Permᴰ (Permᴰ.swap {a' = p} {b' = q} {l = l} e e') r = rw (e, e') (enter_all_swap q p l r)
enter_all-Permᴰ (Permᴰ.trans p q) r = enter_all-Permᴰ p r ∙ enter_all-Permᴰ q r

-- The order of the entries makes no difference.
pub enter_all-Perm :
    (l m : List (Text × Handler)) (r : Registry) → Perm l m → enter_all l r ≡ enter_all m r
enter_all-Perm l m r perm = ∥∥₁_elim perm (Registry_set _ _) (λ p. enter_all-Permᴰ p r)
