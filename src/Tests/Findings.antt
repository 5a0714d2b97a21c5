-- ===== src/Tests/Findings.antt =====
-- The rules on concrete analyses.
use tx_firewall.Base.{
  ◌^◌, String, true, false, none, some, List, [], ◌∷◌, map, ◌≡◌, refl, ok, concat, join, is_empty,
}
use tx_firewall.Base.Exec.{Returns, pure}
use tx_firewall.Geth.{Address}
use tx_firewall.Analysis.{Analysis, from_tx, created_in_tx, tx_addresses}
use tx_firewall.Chainstate.{no_code, established}
use tx_firewall.Rules.{Finding, one_finding}
use tx_firewall.Rules.One.{reported}
use tx_firewall.Rules.Sanctioned
use tx_firewall.Rules.Sanctioned.Hits.{Checked, evaluate-Checked}
use tx_firewall.Rules.UnlimitedApproval
use tx_firewall.Rules.UnlimitedApproval.Found.{evaluate_approvals}
use tx_firewall.Rules.NftDrainer
use tx_firewall.Rules.NftDrainer.Found.{evaluate_grants}
use tx_firewall.Rules.DelegatecallToFresh
use tx_firewall.Rules.DelegatecallToFresh.Found.{evaluate-Finds}
use tx_firewall.Rules.Outflows
use tx_firewall.Rules.Outflows.Found.{find-losses}
use tx_firewall.Rules.LargeOutflow
use tx_firewall.Rules.FlashLoanOutflow
use tx_firewall.Rules.FlashLoanOutflow.Paired.{IsPair, evaluate-IsPair}
use tx_firewall.Analysis.Loans.{lenders_of}
use tx_firewall.Base.{decimal}
use tx_firewall.Tests.World.{geth, decoded}

program : Unit {0}
unfolding one_finding reported concat join UnlimitedApproval.describe NftDrainer.describe
    created_in_tx from_tx tx_addresses DelegatecallToFresh.is_delegate Sanctioned.rule
    Sanctioned.check_all
program = tt

answering : {A : Type 0} (a : A) → Returns {W = Unit {0}} (λ w. Unit {0}) (pure a) (ok a)
answering a = record { at = λ w h. (refl, tt) }

-- an unlimited approval, an approval for all, a delegated call and a drained vault
abbrev analysis : Analysis
analysis = record (from_tx decoded) {
  approvals =
      record { token = 8; owner = 5; spender = 9; amount = 2 ^ 128 }
      ∷ record { token = 8; owner = 5; spender = 9; amount = 1 }
      ∷ [];
  approvals_for_all =
      record { collection = 8; owner = 5; operator = 9; approved = true }
      ∷ record { collection = 8; owner = 5; operator = 9; approved = false }
      ∷ [];
  frames = record { type = "DELEGATECALL"; from = 6; to = 9; value = none; depth = 0 } ∷ [];
  flows = record { asset = 8; holder = 6; out = 90; into = 10 } ∷ [];
}

abbrev one : String → String → List Finding
one rule reason = record { rule = rule; hard_block = false; weight = 20; reason = reason } ∷ []

evaluate_approvals_example :
    ((UnlimitedApproval.evaluate geth (λ x. pure true) analysis tt).0
      ≡ ok (
          one "unlimited-approval-to-fresh-contract"
            "unlimited approval to recently deployed contract: token 0x to 0x"))
    × Unit {0}
unfolding program
evaluate_approvals_example =
    evaluate_approvals geth {W = Unit {0}} {P = λ w. Unit {0}} (λ x. pure true) (λ x. true)
      (λ x. answering true) analysis tt tt

evaluate_grants_example :
    ((NftDrainer.evaluate geth (λ x. pure no_code) analysis tt).0
      ≡ ok (one "nft-drainer" "approval for all NFTs: collection 0x to EOA 0x"))
    × Unit {0}
unfolding program
evaluate_grants_example =
    evaluate_grants geth {W = Unit {0}} {P = λ w. Unit {0}} (λ x. pure no_code) (λ x. no_code)
      (λ x. answering no_code) analysis tt tt

evaluate-Finds_example :
    (fs : List Finding) × ((DelegatecallToFresh.evaluate geth (λ x. pure true) analysis tt).0
      ≡ ok fs)
    × (is_empty fs ≡ false)
    × Unit {0}
unfolding program
evaluate-Finds_example =
    evaluate-Finds geth {W = Unit {0}} {P = λ w. Unit {0}} (λ x. pure true) (λ x. true)
      (λ x. answering true) analysis tt tt

find-losses_example :
    ((Outflows.find geth (λ x. pure established) (λ asset x. pure (some 100)) 50 analysis tt).0
      ≡ ok (record { asset = 8; holder = 6; net = 80; balance = 100 } ∷ []))
    × Unit {0}
unfolding program
find-losses_example =
    find-losses geth {W = Unit {0}} {P = λ w. Unit {0}} (λ x. pure established)
      (λ asset x. pure (some 100)) (λ x. established) (λ asset x. some 100)
      (λ x. answering established) (λ asset x. answering (some 100)) 50 analysis tt tt

-- every address is a hit
evaluate-Checked_example :
    (hits : List Address) × Checked geth {W = Unit {0}}
      (λ x. pure true)
      analysis.addresses
      tt
      hits
      ((Sanctioned.rule geth (λ x. pure true)).evaluate analysis tt).1
    × (map (Sanctioned.finding_for geth) (5 ∷ 6 ∷ []) ≡ map (Sanctioned.finding_for geth) hits)
unfolding program
evaluate-Checked_example =
    evaluate-Checked geth {W = Unit {0}} (λ x. pure true) analysis tt
      (map (Sanctioned.finding_for geth) (5 ∷ 6 ∷ [])) refl

-- a loan of address 7, and a vault that is not the lender
abbrev vault : Outflows.Outflow
vault = record { asset = 8; holder = 6; net = 80; balance = 100 }

abbrev lent : Analysis
lent = record (from_tx decoded) {
  flash_loans = record { lender = 7; token = 8; amount = none; source = "Aave V3" } ∷ [];
}

abbrev heavy : String → String → List Finding
heavy rule reason = record { rule = rule; hard_block = false; weight = 40; reason = reason } ∷ []

abbrev loan_finding : List Finding
loan_finding =
    heavy "flash-loan-outflow"
      "flash loan from 0x (Aave V3) with large outflow: 80% of token 0x held by 0x (80 of 100)"

abbrev large_finding : List Finding
large_finding = heavy "large-outflow" "large outflow: 80% of token 0x held by 0x (80 of 100)"

drained_loan : IsPair loan_finding large_finding
unfolding FlashLoanOutflow.evaluate LargeOutflow.evaluate one_finding lenders_of concat join decimal
    Outflows.describe Outflows.describe_all FlashLoanOutflow.drained_from
    FlashLoanOutflow.describe_loans from_tx
drained_loan =
    evaluate-IsPair geth {W = Unit {0}} {P = λ w. Unit {0}} (λ b. pure (vault ∷ [])) lent
      (vault ∷ []) (answering (vault ∷ [])) tt tt loan_finding large_finding tt tt refl refl refl
