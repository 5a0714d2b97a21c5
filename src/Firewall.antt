-- ===== src/Firewall.antt =====
-- cmd/firewall/main.go: the screening pipeline as newScreener wires it.
pub mod Wiring
pub mod Listed
pub mod Scores
pub mod Headline
pub mod Decision
pub mod Settings
pub mod Main
use tx_firewall.Base.{◌>>=◌, ℕ, Bool, Option, none, some, List, [], ◌∷◌, Result, ok, err}
use tx_firewall.Base.Int.{ℤ}
use tx_firewall.Base.Exec.{Exec}
use tx_firewall.Geth.{Geth, Address}
use tx_firewall.TxDecode.{Decoded}
use tx_firewall.Simulate.{CallFrame}
use tx_firewall.Sanctions.{Checker}
use tx_firewall.Sanctions.Listed.{ListChecker, list_checker}
use tx_firewall.Sanctions.Any.{any_checker}
use tx_firewall.Chainstate.{FreshnessChecker, StatusReader, BalanceReader}
use tx_firewall.Analysis.{Analysis}
use tx_firewall.Rules.{Rule}
use tx_firewall.Rules.Sanctioned
use tx_firewall.Rules.PrivilegeChange
use tx_firewall.Rules.DeployAndCall
use tx_firewall.Rules.DelegatecallToFresh
use tx_firewall.Rules.UnlimitedApproval
use tx_firewall.Rules.NftDrainer
use tx_firewall.Rules.Outflows
use tx_firewall.Rules.LargeOutflow
use tx_firewall.Rules.FlashLoanOutflow
use tx_firewall.Risk.{Verdict, Engine, new_engine}
use tx_firewall.Screen.{screen}

-- screenerConfig, with what the sanctions list's file and newOracle gave.
pub record ScreenerConfig (W : Type 0) : Type 0 where
  pub list : Result ListChecker
  -- the cached oracle; `none` if SANCTIONS_ORACLE_RPC is empty
  pub oracle : Option (Result (Checker W))
  pub threshold : ℤ
  pub outflow_percent : ℤ
  pub simulator : Decoded → Exec W CallFrame
  pub freshness : FreshnessChecker W
  pub status : StatusReader W
  pub balances : BalanceReader W

-- The checkers, the list first.
unfoldable pub checkers :
    {W : Type 0} → ListChecker → Option (Result (Checker W)) → Result (List (Checker W))
checkers list none = ok (list_checker list ∷ [])
checkers list (some (ok oracle)) = ok (list_checker list ∷ oracle ∷ [])
checkers list (some (err e)) = err e

module _ (g : Geth) {W : Type 0} (cfg : ScreenerConfig W) where
  -- The detector that two rules share.
  unfoldable pub find_outflows : ℕ → Analysis → Exec W (List Outflows.Outflow)
  find_outflows percent = Outflows.find g cfg.status cfg.balances percent

  -- The arguments of NewEngine behind the first.
  unfoldable pub weighted_rules : ℕ → List (Rule W)
  weighted_rules percent =
      PrivilegeChange.rule g
      ∷ DeployAndCall.rule g
      ∷ DelegatecallToFresh.rule g cfg.freshness
      ∷ UnlimitedApproval.rule g cfg.freshness
      ∷ NftDrainer.rule g cfg.status
      ∷ LargeOutflow.rule g (find_outflows percent)
      ∷ FlashLoanOutflow.rule g (find_outflows percent)
      ∷ []

  unfoldable pub rules : List (Checker W) → ℕ → List (Rule W)
  rules checker percent = Sanctioned.rule g (any_checker checker) ∷ weighted_rules percent

  -- newScreener, up to the engine.
  unfoldable pub new_screener_engine : Result (Engine W)
  new_screener_engine = do
    list ← cfg.list
    checker ← checkers list cfg.oracle
    percent ← Outflows.check_percent cfg.outflow_percent
    new_engine cfg.threshold (rules checker percent)

  -- The screener around it.
  unfoldable pub screener : Engine W → Decoded → Exec W Verdict
  screener engine = screen g cfg.simulator engine
