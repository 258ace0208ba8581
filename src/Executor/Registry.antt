-- ===== src/Executor/Registry.antt =====
-- The executor up to the order of its maps (internal/executor/executor.go): Go promises none, and no
-- answer depends on it.
pub mod Order
use mathlib.Core.Quot
use mathlib.Core.Quot.{Quot, Quot-set}
use mathlib.Core.Option
use routestack_agent.Base.{
  Text, Bool, true, false, List, [], ◌∷◌, Option, none, some, ◌≡◌, refl, ap, ◌∙◌, sym, arith,
  text_eq, text_eq_iff, Bool-cases, Option-cases, inl, inr, if◌then◌else◌,
}
use routestack_agent.Base.Assoc
use routestack_agent.World.{World, History, Call}
use routestack_agent.Executor.{Executor, Operation, Handler, execute, dispatch, register, Outcome}

-- The same maps, as they are looked up.
pub record SameMaps (x y : Executor) : Type 0 where
  pub handlers : (k : Text) → Assoc.lookup k x.handlers ≡ Assoc.lookup k y.handlers
  pub seen : (k : Text) → Assoc.lookup k x.seen ≡ Assoc.lookup k y.seen

abbrev pub Registry : Type 0
Registry = Quot SameMaps

insert-SameLookups :
    {V : Type 0} (key : Text) (v : V) (m n : List (Text × V))
    → ((k : Text) → Assoc.lookup k m ≡ Assoc.lookup k n)
    → (k : Text) → Assoc.lookup k (Assoc.insert key v m) ≡ Assoc.lookup k (Assoc.insert key v n)
insert-SameLookups key v m n same k =
    rw (Assoc.lookup-insert key k v m, Assoc.lookup-insert key k v n, same k) refl

-- The same outcome and history, and the same maps.
abbrev pub Alike : {A : Type 0} → A × Executor × History → A × Executor × History → Type 0
Alike (a, x, h) (b, y, k) = (a ≡ b) × SameMaps x y × (h ≡ k)

module _ (W : World) (redact : Text → Text) where
  dispatch-Alike :
      (f : Handler) (op : Operation) (h : History) (x y : Executor)
      → SameMaps x y
      → Alike (dispatch W redact f x op h) (dispatch W redact f y op h)
  unfolding dispatch
  dispatch-Alike f op h x y s = elim (Bool-cases (Assoc.has op.id x.seen)) [
    | inl e ↦ rw (dispatch, ← s.seen op.id, e) (refl, s, refl)
    | inr e ↦
        rw (dispatch, ← s.seen op.id, e)
          (
            refl,
            record {
              handlers = s.handlers;
              seen = insert-SameLookups op.id (W.now h) x.seen y.seen s.seen;
            },
            refl,
          )
  ]

  pub execute-Alike :
      (op : Operation) (h : History) (x y : Executor)
      → SameMaps x y
      → Alike (execute W redact x op h) (execute W redact y op h)
  unfolding execute
  execute-Alike op h x y s = elim (Option-cases (Assoc.lookup op.type x.handlers)) [
    | inl e ↦ rw (execute, ← s.handlers op.type, e) (refl, s, refl)
    | inr (f, e) ↦ rw (execute, ← s.handlers op.type, e) (dispatch-Alike f op h x y s)
  ]

-- Register, of the maps.
view : Option Executor → Option Registry
view = Option.map Quot.mk

pub Registry_set : IsSet (Option Registry)
Registry_set = hlevel Quot-set

register-view :
    (op_type : Text) (f : Handler) (x y : Executor)
    → SameMaps x y
    → view (register op_type f x) ≡ view (register op_type f y)
unfolding view register
register-view op_type f x y s = elim (Bool-cases (Assoc.has op_type x.handlers)) [
  | inl e ↦ rw (register, ← s.handlers op_type, e) refl
  | inr e ↦
      rw (register, ← s.handlers op_type, e)
        (ap some (
          Quot.sound (record {
            handlers = insert-SameLookups op_type f x.handlers y.handlers s.handlers;
            seen = s.seen;
          })))
]

pub enter : Text × Handler → Registry → Option Registry
unfolding view
enter (op_type, f) =
    Quot.lift Registry_set (λ x. view (register op_type f x)) (register-view op_type f)

pub enter-mk :
    (p : Text × Handler) (x : Executor)
    → enter p (Quot.mk x) ≡ Option.map Quot.mk (register p.0 p.1 x)
unfolding enter view
enter-mk p x = refl
