-- ===== src/Firewall/Decision/Weighted.antt =====
-- What the weighted rules that newScreener wires add to the score (cmd/firewall/main.go).
use tx_firewall.Base.{
  ℕ, false, List, [], ◌∷◌, refl, ◌∙◌, ap, ok, sum_by, is_empty, arith, Bool-cases, inl, inr,
}
use tx_firewall.Base.Exec.{Returns, Returns-bind, Returns-pure}
use tx_firewall.Geth.{Geth, Address}
use tx_firewall.TxDecode.{Decoded}
use tx_firewall.Simulate.{CallFrame}
use tx_firewall.Analysis.{Analysis, created_in_tx}
use tx_firewall.Rules.PrivilegeChange
use tx_firewall.Rules.PrivilegeChange.Found.{changes-keep}
use tx_firewall.Rules.DeployAndCall
use tx_firewall.Rules.DelegatecallToFresh
use tx_firewall.Rules.DelegatecallToFresh.Found.{find_targets-Finds}
use tx_firewall.Rules.UnlimitedApproval
use tx_firewall.Rules.UnlimitedApproval.Found.{evaluate_approvals}
use tx_firewall.Rules.NftDrainer
use tx_firewall.Rules.NftDrainer.Found.{evaluate_grants}
use tx_firewall.Rules.Outflows.Found.{find-losses}
use tx_firewall.Rules.LargeOutflow
use tx_firewall.Rules.FlashLoanOutflow
use tx_firewall.Rules.FlashLoanOutflow.Paired.{large-Returns, flash-Returns}
use tx_firewall.Firewall.{ScreenerConfig, weighted_rules, find_outflows}
use tx_firewall.Firewall.Decision.{
  Answers, worth, view, changes_privilege, calls_deployed, delegates, approves, grants, lost,
  drains, exploits_loan,
}
use tx_firewall.Firewall.Decision.Found.{
  Adds, AllAdd, one_finding-Adds, reported-Adds, is_empty-map, is_empty-keep, is_empty-called,
  is_empty-drained,
}
use tx_firewall.Firewall.Decision.Hits.{Flags}

-- As long as `P` holds, the oracle and the node answer so, and their answers leave it true.
pub record IsAnswering {W : Type 0} (P : W → Type 0) (cfg : ScreenerConfig W) (known : Answers)
    : Type 0 where
  pub oracle : Flags P cfg.oracle known.flagged
  pub freshness : (x : Address) → Returns P (cfg.freshness x) (ok (known.is_fresh x))
  pub status : (x : Address) → Returns P (cfg.status x) (ok (known.status x))
  pub balances :
      (asset holder : Address)
      → Returns P (cfg.balances asset holder) (ok (known.balance asset holder))

module _ (g : Geth) {W : Type 0} (P : W → Type 0) (cfg : ScreenerConfig W) (known : Answers)
    (answers : IsAnswering P cfg known) (percent : ℕ) (d : Decoded) (t : CallFrame) where
  abbrev a : Analysis
  a = view g known percent d t

  privilege-Adds :
      Adds P
        (worth (changes_privilege g known percent d t) 40)
        false
        ((PrivilegeChange.rule g).evaluate a)
  unfolding PrivilegeChange.rule PrivilegeChange.evaluate created_in_tx
  privilege-Adds =
      one_finding-Adds P _ _ 40 _ (PrivilegeChange.changes g a [] a.privileged) _ (Returns-pure _) (
        ap is_empty (changes-keep g a [] a.privileged)
        ∙ (is_empty-map (PrivilegeChange.describe g) _ ∙ is_empty-keep _ a.privileged))

  deployed-Adds :
      Adds P
        (worth (calls_deployed g known percent d t) 20)
        false
        ((DeployAndCall.rule g).evaluate a)
  unfolding DeployAndCall.rule DeployAndCall.evaluate
  deployed-Adds = one_finding-Adds P _ _ 20 _ _ _ (Returns-pure _) (is_empty-called g d t)

  approved-Adds :
      Adds P
        (worth (approves g known percent d t) 20)
        false
        ((UnlimitedApproval.rule g cfg.freshness).evaluate a)
  unfolding UnlimitedApproval.rule
  approved-Adds =
      reported-Adds P _ _ 20 _ _ _
        (record { at = evaluate_approvals g cfg.freshness known.is_fresh answers.freshness a })
        (is_empty-map _ _ ∙ is_empty-keep _ a.approvals)

  granted-Adds :
      Adds P
        (worth (grants g known percent d t) 20)
        false
        ((NftDrainer.rule g cfg.status).evaluate a)
  unfolding NftDrainer.rule
  granted-Adds =
      reported-Adds P _ _ 20 _ _ _
        (record { at = evaluate_grants g cfg.status known.status answers.status a })
        (is_empty-map _ _ ∙ is_empty-keep _ a.approvals_for_all)

  delegated-Adds :
      Adds P
        (worth (delegates g known percent d t) 20)
        false
        ((DelegatecallToFresh.rule g cfg.freshness).evaluate a)
  unfolding DelegatecallToFresh.rule DelegatecallToFresh.evaluate
  delegated-Adds =
      let (found, gives, e) =
        find_targets-Finds g cfg.freshness known.is_fresh answers.freshness a [] [] a.frames
          (λ new. cc) in
      one_finding-Adds P _ _ 20 _ found _ (Returns-bind _ _ found gives (Returns-pure _)) e

  finds : Returns P (find_outflows g cfg percent a) (ok (lost g known percent d t))
  unfolding find_outflows
  finds = record {
    at =
        find-losses g cfg.status cfg.balances known.status known.balance answers.status
          answers.balances percent a;
  }

  drained-Adds :
      Adds P
        (worth (drains g known percent d t) 40)
        false
        ((LargeOutflow.rule g (find_outflows g cfg percent)).evaluate a)
  unfolding LargeOutflow.rule
  drained-Adds =
      one_finding-Adds P _ _ 40 _ (lost g known percent d t) _
        (large-Returns g (find_outflows g cfg percent) a _ finds) (ground arith)

  exploited-Adds :
      Adds P
        (worth (exploits_loan g known percent d t) 40)
        false
        ((FlashLoanOutflow.rule g (find_outflows g cfg percent)).evaluate a)
  unfolding FlashLoanOutflow.rule FlashLoanOutflow.evaluate sum_by
  exploited-Adds = elim (Bool-cases (is_empty a.flash_loans)) [
    | inl no_loan ↦ rw no_loan ([], Returns-pure [], refl, refl)
    | inr loan ↦ rw loan (
        one_finding-Adds P _ _ 40 _ _ _
          (rw loan at (flash-Returns g (find_outflows g cfg percent) a _ finds loan))
          (is_empty-drained a.flash_loans (lost g known percent d t)))
  ]

  abbrev pub worths : List ℕ
  worths =
      worth (changes_privilege g known percent d t) 40
      ∷ worth (calls_deployed g known percent d t) 20
      ∷ worth (delegates g known percent d t) 20
      ∷ worth (approves g known percent d t) 20
      ∷ worth (grants g known percent d t) 20
      ∷ worth (drains g known percent d t) 40
      ∷ worth (exploits_loan g known percent d t) 40
      ∷ []

  pub weighted-AllAdd : AllAdd P a worths (weighted_rules g cfg percent)
  unfolding weighted_rules
  weighted-AllAdd = (
    privilege-Adds,
    (
      deployed-Adds,
      (delegated-Adds, (approved-Adds, (granted-Adds, (drained-Adds, (exploited-Adds, tt))))),
    ),
  )
