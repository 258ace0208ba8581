-- ===== src/Executor/Dedup.antt =====
-- Operations that are delivered again have no effect (Execute of internal/executor/executor.go).
use mathlib.Core.Path.{fun_ext}
use routestack_agent.Base.{
  Text, Bool, true, false, List, [], ◌∷◌, not, ◌&&◌, ◌||◌, ◌≡◌, refl, ap, ◌∙◌, sym, arith, text_eq,
  text_eq_iff, Bool-cases, inl, inr, if◌then◌else◌, All,
}
use routestack_agent.Base.Assoc
use routestack_agent.World.{World, History}
use routestack_agent.Executor.{Executor, Operation, Handler, execute}

-- The operations that reach a handler: of a known type, and the first of their ID.
abbrev pub effective : List (Text × Handler) → (Text → Bool) → List Operation → List Operation
effective handlers seen [] = []
effective handlers seen (op ∷ ops) =
    let taken = op ∷ effective handlers (λ k. text_eq op.id k || seen k) ops in
    let skipped = effective handlers seen ops in
    if Assoc.has op.type handlers && not (seen op.id) then taken else skipped

-- An ID that is in neither list.
Fresh : Text → List Operation → Type 0
Fresh k = All (λ op. text_eq op.id k ≡ false)

abbrev pub DistinctIds : List Operation → Type 0
DistinctIds [] = Unit
DistinctIds (op ∷ ops) = All (λ p. text_eq op.id p.id ≡ false) ops × DistinctIds ops

module _ (handlers : List (Text × Handler)) where
  effective-unseen :
      (k : Text) (seen : Text → Bool) (ops : List Operation)
      → seen k ≡ true
      → All (λ op. text_eq k op.id ≡ false) (effective handlers seen ops)
  effective-unseen k seen [] h = tt
  effective-unseen k seen (op ∷ ops) h = ground (
    arith,
    text_eq_iff k op.id,
    effective-unseen k (λ j. text_eq op.id j || seen j) ops,
    effective-unseen k seen ops h,
  )

  effective-DistinctIds :
      (seen : Text → Bool) (ops : List Operation) → DistinctIds (effective handlers seen ops)
  effective-DistinctIds seen [] = tt
  effective-DistinctIds seen (op ∷ ops) = ground (
    arith,
    text_eq_iff op.id op.id,
    effective-unseen op.id (λ j. text_eq op.id j || seen j) ops,
    effective-DistinctIds (λ j. text_eq op.id j || seen j) ops,
    effective-DistinctIds seen ops,
  )

module _ (W : World) (redact : Text → Text) where
  unfoldable pub deliver : Executor → Operation → History → Executor × History
  unfolding execute
  deliver x op h = let (_, x', h') = execute W redact x op h in (x', h')

  -- The executor and the calls made, after operations that come one after the other.
  unfoldable pub deliver_all : Executor → List Operation → History → Executor × History
  deliver_all x [] h = (x, h)
  deliver_all x (op ∷ ops) h = let (x', h') = deliver x op h in deliver_all x' ops h'

  deliver_skipped :
      (x : Executor) (op : Operation) (h : History)
      → (Assoc.has op.type x.handlers && not (Assoc.has op.id x.seen)) ≡ false
      → deliver x op h ≡ (x, h)
  unfolding deliver
  deliver_skipped x op h e = ground arith

  deliver_taken :
      (x : Executor) (op : Operation) (h : History)
      → (Assoc.has op.type x.handlers && not (Assoc.has op.id x.seen)) ≡ true
      → (deliver x op h).0 ≡ record x { seen = Assoc.insert op.id (W.now h) x.seen }
  unfolding deliver
  deliver_taken x op h e = ground arith

  marked :
      (x : Executor) (op : Operation) (h : History)
      → (Assoc.has op.type x.handlers && not (Assoc.has op.id x.seen)) ≡ true
      → (k : Text) → (text_eq op.id k || Assoc.has k x.seen) ≡ Assoc.has k (deliver x op h).0.seen
  marked x op h e k = rw (deliver_taken x op h e) (sym (Assoc.has-insert op.id k (W.now h) x.seen))

  effective_after :
      (x : Executor) (op : Operation) (ops : List Operation) (h : History)
      → (Assoc.has op.type x.handlers && not (Assoc.has op.id x.seen)) ≡ true
      → let x' = (deliver x op h).0 in
        effective x'.handlers (λ k. Assoc.has k x'.seen) ops
        ≡ effective x.handlers (λ k. text_eq op.id k || Assoc.has k x.seen) ops
  effective_after x op ops h e =
      ap (λ f. effective (deliver x op h).0.handlers f ops) (sym (fun_ext (marked x op h e)))
      ∙ ap (λ (y : Executor). effective y.handlers (λ k. text_eq op.id k || Assoc.has k x.seen) ops)
          (deliver_taken x op h e)

  deliver_all-effective :
      (x : Executor) (ops : List Operation) (h : History)
      → deliver_all x ops h ≡ deliver_all x (effective x.handlers (λ k. Assoc.has k x.seen) ops) h
  unfolding deliver_all
  deliver_all-effective x [] h = refl
  deliver_all-effective x (op ∷ ops) h =
      elim (Bool-cases (Assoc.has op.type x.handlers && not (Assoc.has op.id x.seen))) [
        | inl e ↦ rw e (
            deliver_all-effective (deliver x op h).0 ops (deliver x op h).1
            ∙ ap (λ es. deliver_all (deliver x op h).0 es (deliver x op h).1)
                (effective_after x op ops h e))
        | inr e ↦ rw (e, deliver_skipped x op h e) (deliver_all-effective x ops h)
      ]

  -- Delivering a list of operations leaves the same executor and makes the same calls as delivering
  -- only the operations of a known type whose ID was not seen before, the first of each ID; and no
  -- two of those have the same ID.
  pub deliver_all_once :
      (x : Executor) (ops : List Operation) (h : History)
      → let firsts = effective x.handlers (λ k. Assoc.has k x.seen) ops in
        (deliver_all x ops h ≡ deliver_all x firsts h) × DistinctIds firsts
  deliver_all_once x ops h = (
    deliver_all-effective x ops h,
    effective-DistinctIds x.handlers (λ k. Assoc.has k x.seen) ops,
  )
