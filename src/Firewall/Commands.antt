-- ===== src/Firewall/Commands.antt =====
-- What the calls of iptables leave in the routestack chain (internal/firewall/manager.go), by what
-- iptables documents: -F empties the chain, -A appends a rule, a command that fails changes nothing,
-- and the commands on other chains leave this one alone.

use routestack_agent.Base.{
  Text, List, [], ◌∷◌, ◌++◌, Option, none, some, ◌≡◌, refl, arith, codes, text_eq, if◌then◌else◌,
  ◌∙◌,
}
use routestack_agent.World.{World, History, command, ok, err, run_command}
use routestack_agent.Firewall.{Rule, chain_name, iptables, ensure_chain, link, link_unless}

abbrev pub effect : List Text → List (List Text) → List (List Text)
effect (op ∷ chain ∷ rule) rules =
    if text_eq chain chain_name
    then (if text_eq op (codes "-F")
        then []
        else if text_eq op (codes "-A")
        then rules ++ rule ∷ []
        else rules)
    else rules
effect _ rules = rules

abbrev pub if_done : Option Text → List (List Text) → List (List Text) → List (List Text)
if_done none new old = new
if_done (some e) new old = old

if_done_same : (o : Option Text) (rules : List (List Text)) → if_done o rules rules ≡ rules
if_done_same none rules = refl
if_done_same (some e) rules = refl

-- The rules in the chain after the calls of a history.
abbrev pub chain_of : World → History → List (List Text)
chain_of W [] = []
chain_of W (command name args ∷ h) =
    if_done (W.execute h name args).failure (effect args (chain_of W h)) (chain_of W h)
chain_of W (_ ∷ h) = chain_of W h

-- The rules of a set that are not empty.
abbrev pub wanted : List Rule → List (List Text)
wanted [] = []
wanted (r ∷ rs) = elim r.args [ [] ↦ wanted rs | a ∷ args ↦ (a ∷ args) ∷ wanted rs ]

module _ (W : World) where
  pub iptables-ok :
      (args : List Text) (h : History)
      → (iptables W args h).0 ≡ ok tt
      → chain_of W (iptables W args h).1 ≡ effect args (chain_of W h)
  unfolding iptables run_command
  iptables-ok args h e = ground arith

  pub iptables-err :
      (args : List Text) (h : History) (m : Text)
      → (iptables W args h).0 ≡ err m
      → chain_of W (iptables W args h).1 ≡ chain_of W h
  unfolding iptables run_command
  iptables-err args h m e = ground arith

  -- A command that does not touch the chain.
  iptables-other :
      (args : List Text) (h : History)
      → effect args (chain_of W h) ≡ chain_of W h
      → chain_of W (iptables W args h).1 ≡ chain_of W h
  unfolding iptables run_command
  iptables-other args h e = ground arith

  chain-link : (h : History) → chain_of W (link W h).1 ≡ chain_of W h
  unfolding link text_eq
  chain-link h = iptables-other _ h refl

  chain-link_unless :
      (o : Option Text) (h : History) → chain_of W (link_unless W o h).1 ≡ chain_of W h
  unfolding link_unless text_eq
  chain-link_unless (some out) h = ground (arith, chain-link h)
  chain-link_unless none h =
      chain-link _ ∙ iptables-other (codes "-N" ∷ codes "DOCKER-USER" ∷ []) h refl

  pub chain-ensure_chain : (h : History) → chain_of W (ensure_chain W h).1 ≡ chain_of W h
  unfolding ensure_chain text_eq run_command
  chain-ensure_chain h =
      chain-link_unless _ _
      ∙ if_done_same _ _
      ∙ iptables-other (codes "-N" ∷ chain_name ∷ []) h refl

  pub flush-ok :
      (h : History)
      → (iptables W (codes "-F" ∷ chain_name ∷ []) h).0 ≡ ok tt
      → chain_of W (iptables W (codes "-F" ∷ chain_name ∷ []) h).1 ≡ []
  unfolding text_eq
  flush-ok h e = iptables-ok (codes "-F" ∷ chain_name ∷ []) h e

  pub append-ok :
      (rule : List Text) (h : History)
      → (iptables W (codes "-A" ∷ chain_name ∷ rule) h).0 ≡ ok tt
      → chain_of W (iptables W (codes "-A" ∷ chain_name ∷ rule) h).1 ≡ chain_of W h ++ rule ∷ []
  unfolding text_eq
  append-ok rule h e = iptables-ok (codes "-A" ∷ chain_name ∷ rule) h e
