-- ===== src/Firewall/Chain.antt =====
-- What ApplyRevision of internal/firewall/manager.go leaves in the routestack chain.
use mathlib.Core.Path.{subst}
use routestack_agent.Base.{
  ℕ, ◌+◌, Text, true, false, List, [], ◌∷◌, ◌++◌, ◌≡◌, ◌⊎◌, inl, inr, refl, arith, codes,
  is_negative, append_assoc, append-nil, List-cases, Bool-cases, ap, sym, ◌∙◌, decimal,
}
use routestack_agent.World.{World, History, Result, Result-cases, ok, err}
use routestack_agent.Components.{show_list}
use routestack_agent.Firewall.{
  Rule, Ruleset, chain_name, iptables, ensure_chain, add_rules, apply_revision,
}
use routestack_agent.Firewall.Commands.{
  chain_of, wanted, iptables-err, chain-ensure_chain, flush-ok, append-ok,
}

module _ (W : World) where
  -- All rules were added, or those before one that iptables refused.
  abbrev pub Added :
      List (List Text) → List (List Text) → Result (Unit {0}) → List (List Text) → Type 0
  Added before rules r now =
      ((r ≡ ok tt) × (now ≡ before ++ rules))
      ⊎ ((m : Text) × (front : List (List Text)) × (refused : List Text) × (back : List (List Text))
          × (r ≡ err m)
          × (rules ≡ front ++ refused ∷ back)
          × (now ≡ before ++ front))

  Added-cons :
      (before : List (List Text)) (rule : List Text) (rules : List (List Text))
      (r : Result (Unit {0})) (now : List (List Text))
      → Added (before ++ rule ∷ []) rules r now
      → Added before (rule ∷ rules) r now
  Added-cons before rule rules r now (inl (e, n)) =
      inl (e, n ∙ append_assoc before (rule ∷ []) rules)
  Added-cons before rule rules r now (inr (m, front, refused, back, e, split, n)) = inr (
    m,
    rule ∷ front,
    refused,
    back,
    e,
    ap (λ l. rule ∷ l) split,
    n ∙ append_assoc before (rule ∷ []) front,
  )

  module _ (i : ℕ) (rule : Rule) (rs : List Rule) (h : History) (a : Text) (args : List Text) where
    abbrev adding : Result (Unit {0}) × History
    adding = iptables W (codes "-A" ∷ chain_name ∷ a ∷ args) h

    add_rules-next :
        rule.args ≡ a ∷ args
        → adding.0 ≡ ok tt
        → add_rules W i (rule ∷ rs) h ≡ add_rules W (i + 1) rs adding.1
    unfolding add_rules
    add_rules-next e p = ground arith

    add_rules-refused :
        (m : Text)
        → rule.args ≡ a ∷ args
        → adding.0 ≡ err m
        → add_rules W i (rule ∷ rs) h ≡ (
          err (
              codes "apply rule "
              ++ decimal i
              ++ codes " ("
              ++ show_list (a ∷ args)
              ++ codes "): "
              ++ m),
          adding.1,
        )
    unfolding add_rules
    add_rules-refused m e p = ground arith

  add_rules-skip :
      (i : ℕ) (rule : Rule) (rs : List Rule) (h : History)
      → rule.args ≡ []
      → add_rules W i (rule ∷ rs) h ≡ add_rules W (i + 1) rs h
  unfolding add_rules
  add_rules-skip i rule rs h e = ground arith

  add_rules-Added :
      (i : ℕ) (rs : List Rule) (h : History)
      → let (r, h') = add_rules W i rs h in Added (chain_of W h) (wanted rs) r (chain_of W h')
  add_rules-Added i [] h = unfold add_rules in inl (refl, sym (append-nil (chain_of W h)))
  add_rules-Added i (rule ∷ rs) h = elim (List-cases rule.args) [
    | inl e ↦ rw (add_rules-skip i rule rs h e, e) (add_rules-Added (i + 1) rs h)
    | inr (a, args, e) ↦ elim (Result-cases (iptables W (codes "-A" ∷ chain_name ∷ a ∷ args) h).0) [
      | inl (_, p) ↦
          rw (add_rules-next i rule rs h a args e p, e)
            (Added-cons _ _ _ _ _
              (rw (← append-ok W (a ∷ args) h p) (add_rules-Added (i + 1) rs _)))
      | inr (m, p) ↦
          rw (add_rules-refused i rule rs h a args m e p, e)
            (inr (
              _,
              [],
              a ∷ args,
              wanted rs,
              refl,
              refl,
              iptables-err W _ h m p ∙ sym (append-nil (chain_of W h)),
            ))
    ]
  ]

  module _ (rs : Ruleset) (h : History) (valid : is_negative rs.revision ≡ false) where
    abbrev ready : History
    ready = (ensure_chain W h).1

    abbrev flushed : Result (Unit {0}) × History
    flushed = iptables W (codes "-F" ∷ chain_name ∷ []) ready

    apply_unready :
        (m : Text) → (ensure_chain W h).0 ≡ err m → apply_revision W rs h ≡ (err m, ready)
    unfolding apply_revision
    apply_unready m e = ground arith

    apply_unflushed :
        (m : Text)
        → (ensure_chain W h).0 ≡ ok tt
        → flushed.0 ≡ err m
        → apply_revision W rs h ≡ (err (codes "flush " ++ chain_name ++ codes ": " ++ m), flushed.1)
    unfolding apply_revision
    apply_unflushed m e p = ground arith

    apply_flushed :
        (ensure_chain W h).0 ≡ ok tt
        → flushed.0 ≡ ok tt
        → apply_revision W rs h ≡ add_rules W 0 rs.rules flushed.1
    unfolding apply_revision
    apply_flushed e p = ground arith

    abbrev Applied : Result (Unit {0}) × History → Type 0
    Applied (r, h') =
        let now = chain_of W h' in
        ((m : Text) × (r ≡ err m) × (now ≡ chain_of W h)) ⊎ Added [] (wanted rs.rules) r now

    apply-Applied : Applied (apply_revision W rs h)
    apply-Applied = elim (Result-cases (ensure_chain W h).0) [
      | inr (m, e) ↦ rw (apply_unready m e) (inl (m, refl, chain-ensure_chain W h))
      | inl (_, e) ↦ elim (Result-cases flushed.0) [
        | inr (m, p) ↦
            rw (apply_unflushed m e p)
              (inl (_, refl, iptables-err W _ ready m p ∙ chain-ensure_chain W h))
        | inl (_, p) ↦ rw (apply_flushed e p) (
            inr (
              subst
                (λ before.
                  let (r, h') = add_rules W 0 rs.rules flushed.1 in
                  Added before (wanted rs.rules) r (chain_of W h'))
                (flush-ok W ready p) (add_rules-Added 0 rs.rules flushed.1)))
      ]
    ]

  -- A negative revision is refused without a call. Otherwise, by what iptables documents: if the
  -- revision is applied, the chain holds exactly the rules of the set that are not empty, in order,
  -- whatever it held before; and if it fails, the chain either holds what it held before, or it holds
  -- the rules before the one that iptables refused, and no more.
  pub apply_revision-chain :
      (rs : Ruleset) (h : History)
      → let (r, h') = apply_revision W rs h in
        let now = chain_of W h' in
        ((is_negative rs.revision ≡ true) × ((m : Text) × (r ≡ err m)) × (h' ≡ h))
        ⊎ ((is_negative rs.revision ≡ false)
            × (((m : Text) × (r ≡ err m) × (now ≡ chain_of W h))
                ⊎ Added [] (wanted rs.rules) r now))
  unfolding apply_revision
  apply_revision-chain rs h = elim (Bool-cases (is_negative rs.revision)) [
    | inl bad ↦ inl (bad, (codes "revision must be non-negative", ground arith), ground arith)
    | inr good ↦ inr (good, apply-Applied rs h good)
  ]
