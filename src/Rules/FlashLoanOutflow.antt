-- ===== src/Rules/FlashLoanOutflow.antt =====
-- internal/rules/flashloan.go.
pub mod Paired
use tx_firewall.Base.{String, List, [], ◌∷◌, concat, join, contains, is_empty, not, if◌then◌else◌}
use tx_firewall.Base.Exec.{Exec, ◌>>=◌, pure}
use tx_firewall.Geth.{Geth, Address}
use tx_firewall.Analysis.{Analysis}
use tx_firewall.Analysis.Loans.{FlashLoan, lenders_of}
use tx_firewall.Rules.{Finding, Rule, weight_high, one_finding}
use tx_firewall.Rules.Outflows.{Outflow, describe_all}

abbrev pub name : String
name = "flash-loan-outflow"

-- The second loop: the outflows of holders that are no lenders.
unfoldable pub drained_from : List Address → List Outflow → List Outflow
drained_from lenders [] = []
drained_from lenders (o ∷ os) =
    let rest = drained_from lenders os in if not (contains o.holder lenders) then o ∷ rest else rest

-- `find` is the detector's Find.
module _ (g : Geth) {W : Type 0} (find : Analysis → Exec W (List Outflow)) where
  open g use {address_hex}

  unfoldable pub describe_loans : List FlashLoan → List String
  describe_loans [] = []
  describe_loans (l ∷ ls) =
      concat (address_hex l.lender ∷ " (" ∷ l.source ∷ ")" ∷ []) ∷ describe_loans ls

  unfoldable pub evaluate : Analysis → Exec W (List Finding)
  unfolding drained_from describe_loans
  evaluate a =
      if is_empty a.flash_loans
      then pure []
      else find a >>= λ outflows. pure (
          one_finding name weight_high
            (λ drained. concat (
              "flash loan from "
              ∷ join ", " (describe_loans a.flash_loans)
              ∷ " with large outflow: "
              ∷ join ", " (describe_all g drained)
              ∷ []))
            (drained_from (lenders_of a.flash_loans) outflows))

  unfoldable pub rule : Rule W
  unfolding evaluate
  rule = record { name = name; evaluate = evaluate }
