-- ===== src/Rules/UnlimitedApproval.antt =====
-- internal/rules/approval.go.
pub mod Found
use tx_firewall.Base.{
  ℕ, ◌^◌, String, Bool, Option, none, some, List, [], ◌∷◌, ◌++◌, concat, join, ltb, ◌==◌,
  if◌then◌else◌,
}
use tx_firewall.Base.Exec.{Exec, ◌>>=◌, pure}
use tx_firewall.Geth.{Geth, Address}
use tx_firewall.Analysis.{Analysis}
use tx_firewall.Events.Approval.{Approval}
use tx_firewall.Chainstate.{FreshnessChecker}
use tx_firewall.Rules.{Finding, Rule, weight_medium, one_finding}
use tx_firewall.Rules.Fresh.{is_fresh}

abbrev pub name : String
name = "unlimited-approval-to-fresh-contract"

-- UnlimitedAmount
abbrev pub unlimited_amount : ℕ
unlimited_amount = 2 ^ 128

module _ {ℓ} {V : Type ℓ} where
  -- A map keyed by addresses, as the loop's local variable.
  unfoldable pub get_answer : Address → List (Address × V) → Option V
  get_answer addr [] = none
  get_answer addr ((a, v) ∷ m) = if a == addr then some v else get_answer addr m

module _ (g : Geth) {W : Type 0} (fresh : FreshnessChecker W) where
  open g use {address_hex}

  unfoldable pub describe : Approval → String
  describe ap = concat ("token " ∷ address_hex ap.token ∷ " to " ∷ address_hex ap.spender ∷ [])

  -- The loop of Evaluate.
  unfoldable pub find_approvals :
      Analysis → List (Address × Bool) → List String → List Approval → Exec W (List String)
  find_approvals a checked approvals [] = pure approvals
  find_approvals a checked approvals (ap ∷ aps) =
      if ltb ap.amount unlimited_amount
      then find_approvals a checked approvals aps
      else elim (get_answer ap.spender checked) [
        | some hit ↦
            find_approvals a checked (if hit then approvals ++ describe ap ∷ [] else approvals) aps
        | none ↦ is_fresh g fresh a ap.spender >>= λ hit.
            find_approvals a ((ap.spender, hit) ∷ checked)
              (if hit then approvals ++ describe ap ∷ [] else approvals) aps
      ]

  unfoldable pub evaluate : Analysis → Exec W (List Finding)
  unfolding find_approvals
  evaluate a = find_approvals a [] [] a.approvals >>= λ approvals. pure (
      one_finding name weight_medium
        (λ parts.
          concat ("unlimited approval to recently deployed contract: " ∷ join ", " parts ∷ []))
        approvals)

  unfoldable pub rule : Rule W
  unfolding evaluate
  rule = record { name = name; evaluate = evaluate }
