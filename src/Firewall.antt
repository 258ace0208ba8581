-- ===== src/Firewall.antt =====
-- internal/firewall/manager.go: the routestack chain of iptables. `iptables` is run through the World.
pub mod Commands
pub mod Chain
use routestack_agent.Base.{
  ℕ, ◌+◌, ℤ, Text, Bool, List, [], ◌∷◌, ◌++◌, Option, none, some, codes, contains, is_negative,
  decimal, join, if◌then◌else◌,
}
use routestack_agent.World.{
  World, M, CommandResult, Result, ok, err, ◌>>=◌, ◌>>◌, pure, fail, attempt, wrap, run_command,
}
use routestack_agent.Components.{show_list}

pub record Rule : Type 0 where
  pub args : List Text

pub record Ruleset : Type 0 where
  pub revision : ℤ
  pub rules : List Rule

abbrev pub chain_name : Text
chain_name = codes "ROUTESTACK-FWD"

abbrev pub outcome : CommandResult → M (Unit {0})
outcome r = elim r.failure [ none ↦ pure tt | some e ↦ fail e ]

module _ (W : World) where
  -- runner.Run(ctx, "iptables", args...)
  unfoldable pub iptables : List Text → M (Unit {0})
  unfolding run_command
  iptables args = do r ← run_command W (codes "iptables") args; outcome r

  -- The listing of DOCKER-USER, if there is one.
  unfoldable pub listed : CommandResult → Option Text
  listed r = elim r.failure [ none ↦ some r.output | some e ↦ none ]

  unfoldable pub link : M (Unit {0})
  link = iptables (codes "-I" ∷ codes "DOCKER-USER" ∷ codes "1" ∷ codes "-j" ∷ chain_name ∷ [])

  unfoldable pub link_unless : Option Text → M (Unit {0})
  link_unless (some out) = if contains out chain_name then pure tt else link
  link_unless none = do attempt (iptables (codes "-N" ∷ codes "DOCKER-USER" ∷ [])); link

  -- ensureChain
  unfoldable pub ensure_chain : M (Unit {0})
  ensure_chain = do
    attempt (iptables (codes "-N" ∷ chain_name ∷ []))
    r ←
        run_command W (codes "iptables")
          (codes "-L" ∷ codes "DOCKER-USER" ∷ codes "--line-numbers" ∷ codes "-n" ∷ [])
    link_unless (listed r)

  -- The loop over the rules from index i.
  unfoldable pub add_rules : ℕ → List Rule → M (Unit {0})
  add_rules i [] = pure tt
  add_rules i (rule ∷ rules) =
      let rest = add_rules (i + 1) rules in
      elim rule.args [
        | [] ↦ rest
        | a ∷ args ↦ do
          wrap
              (codes "apply rule "
                ++ decimal i
                ++ codes " ("
                ++ show_list (a ∷ args)
                ++ codes "): ")
              (iptables (codes "-A" ∷ chain_name ∷ a ∷ args))
          rest
      ]

  -- ApplyRevision
  unfoldable pub apply_revision : Ruleset → M (Unit {0})
  apply_revision rs =
      if is_negative rs.revision then fail (codes "revision must be non-negative") else do
        ensure_chain
        wrap (codes "flush " ++ chain_name ++ codes ": ") (iptables (codes "-F" ∷ chain_name ∷ []))
        add_rules 0 rs.rules
