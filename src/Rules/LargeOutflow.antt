-- ===== src/Rules/LargeOutflow.antt =====
-- internal/rules/outflow.go: LargeOutflow.
use tx_firewall.Base.{String, List, [], ◌∷◌, concat, join}
use tx_firewall.Base.Exec.{Exec, ◌>>=◌, pure}
use tx_firewall.Geth.{Geth}
use tx_firewall.Analysis.{Analysis}
use tx_firewall.Rules.{Finding, Rule, weight_high, one_finding}
use tx_firewall.Rules.Outflows.{Outflow, describe_all}

abbrev pub name : String
name = "large-outflow"

-- `find` is the detector's Find.
module _ (g : Geth) {W : Type 0} (find : Analysis → Exec W (List Outflow)) where
  unfoldable pub evaluate : Analysis → Exec W (List Finding)
  evaluate a = find a >>= λ outflows. pure (
      one_finding name weight_high
        (λ os. concat ("large outflow: " ∷ join ", " (describe_all g os) ∷ [])) outflows)

  unfoldable pub rule : Rule W
  unfolding evaluate
  rule = record { name = name; evaluate = evaluate }
