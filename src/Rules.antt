-- ===== src/Rules.antt =====
-- internal/rules/rules.go: what a rule is, and what it reports.
pub mod One
pub mod Fresh
pub mod Sanctioned
pub mod PrivilegeChange
pub mod DeployAndCall
pub mod DelegatecallToFresh
pub mod UnlimitedApproval
pub mod NftDrainer
pub mod Outflows
pub mod LargeOutflow
pub mod FlashLoanOutflow
use tx_firewall.Base.{ℕ, String, Bool, true, false, List, [], ◌∷◌}
use tx_firewall.Base.Exec.{Exec}
use tx_firewall.Analysis.{Analysis}

pub record Finding : Type 0 where
  pub rule : String
  pub hard_block : Bool
  pub weight : ℕ
  pub reason : String

-- The interface: Name, and Evaluate over the state `W` of what the rule asks.
pub record Rule (W : Type 0) : Type 0 where
  pub name : String
  pub evaluate : Analysis → Exec W (List Finding)

abbrev pub weight_high : ℕ
weight_high = 40

abbrev pub weight_medium : ℕ
weight_medium = 20

-- The end of each weighted rule: nothing, or one finding with the reason built from the matches.
unfoldable pub one_finding {ℓ} :
    {A : Type ℓ} → String → ℕ → (List A → String) → List A → List Finding
one_finding rule weight reason [] = []
one_finding rule weight reason (x ∷ xs) =
    record { rule = rule; hard_block = false; weight = weight; reason = reason (x ∷ xs) } ∷ []
