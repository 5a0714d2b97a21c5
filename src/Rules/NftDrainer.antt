-- ===== src/Rules/NftDrainer.antt =====
-- internal/rules/nftdrainer.go.
pub mod Found
use tx_firewall.Base.{
  String, none, some, List, [], ◌∷◌, ◌++◌, concat, join, wrap, not, str_eq, if◌then◌else◌,
}
use tx_firewall.Base.Exec.{Exec, ◌>>=◌, pure, on_error}
use tx_firewall.Geth.{Geth, Address}
use tx_firewall.Analysis.{Analysis, created_in_tx}
use tx_firewall.Events.Approval.{ApprovalForAll}
use tx_firewall.Chainstate.{Status, no_code, fresh, established, StatusReader}
use tx_firewall.Rules.{Finding, Rule, weight_medium, one_finding}
use tx_firewall.Rules.UnlimitedApproval.{get_answer}

abbrev pub name : String
name = "nft-drainer"

abbrev pub kind_of : Status → String
kind_of no_code = "EOA"
kind_of fresh = "recently deployed contract"
kind_of established = ""

module _ (g : Geth) {W : Type 0} (status : StatusReader W) where
  open g use {address_hex}

  -- operatorKind
  unfoldable pub operator_kind : Analysis → Address → Exec W String
  operator_kind a operator =
      if created_in_tx a operator
      then pure "recently deployed contract"
      else on_error (wrap (concat ("status of " ∷ address_hex operator ∷ []))) (status operator)
        >>= λ s. pure (kind_of s)

  unfoldable pub describe : ApprovalForAll → String → String
  describe ap kind = concat (
      "collection "
      ∷ address_hex ap.collection
      ∷ " to "
      ∷ kind
      ∷ " "
      ∷ address_hex ap.operator
      ∷ [])

  -- `if k != ""`
  unfoldable pub add_grant : List String → ApprovalForAll → String → List String
  add_grant grants ap kind =
      if not (str_eq kind "") then grants ++ describe ap kind ∷ [] else grants

  -- The loop of Evaluate.
  unfoldable pub find_grants :
      Analysis → List (Address × String) → List String → List ApprovalForAll → Exec W (List String)
  find_grants a kinds grants [] = pure grants
  find_grants a kinds grants (ap ∷ aps) =
      if not ap.approved
      then find_grants a kinds grants aps
      else elim (get_answer ap.operator kinds) [
        | some kind ↦ find_grants a kinds (add_grant grants ap kind) aps
        | none ↦ operator_kind a ap.operator >>= λ kind.
            find_grants a ((ap.operator, kind) ∷ kinds) (add_grant grants ap kind) aps
      ]

  unfoldable pub evaluate : Analysis → Exec W (List Finding)
  unfolding find_grants
  evaluate a = find_grants a [] [] a.approvals_for_all >>= λ grants. pure (
      one_finding name weight_medium
        (λ parts. concat ("approval for all NFTs: " ∷ join ", " parts ∷ [])) grants)

  unfoldable pub rule : Rule W
  unfolding evaluate
  rule = record { name = name; evaluate = evaluate }
