-- ===== src/Firewall/Decision.antt =====
-- What the screener of cmd/firewall decides on a trace, in the terms of the trace and of what the
-- node and the oracle answer.
pub mod Found
pub mod Hits
pub mod Weighted
pub mod Taken
pub mod Forwarded
use tx_firewall.Base.{
  map, ℕ, ◌+◌, Bool, true, false, Option, some, List, not, ◌&&◌, ◌||◌, any, contains, is_empty,
  if◌then◌else◌,
}
use tx_firewall.Geth.{Geth, Address}
use tx_firewall.TxDecode.{Decoded}
use tx_firewall.Simulate.{CallFrame}
use tx_firewall.Chainstate.{Status}
use tx_firewall.Sanctions.Listed.{ListChecker, is_listed}
use tx_firewall.Analysis.{Analysis, build}
use tx_firewall.Rules.DeployAndCall.Deployed.{is_called}
use tx_firewall.Rules.DelegatecallToFresh.Found as Delegates
use tx_firewall.Rules.UnlimitedApproval.Found as Approvals
use tx_firewall.Rules.NftDrainer.Found.{is_grant}
use tx_firewall.Rules.Outflows.{Outflow}
use tx_firewall.Rules.Outflows.Found.{losses}

-- The oracle's answer on an address, and the node's.
pub record Answers : Type 0 where
  pub flagged : Address → Bool
  pub is_fresh : Address → Bool
  pub status : Address → Status
  pub balance : Address → Address → Option ℕ

abbrev pub worth : Bool → ℕ → ℕ
worth b n = if b then n else 0

abbrev pub is_sanctioned : Answers → ListChecker → Address → Bool
is_sanctioned known list x = contains x list.set || known.flagged x

module _ (g : Geth) (known : Answers) (percent : ℕ) (d : Decoded) (t : CallFrame) where
  abbrev pub view : Analysis
  view = build g d (some t)

  -- A contract that was there before gets a new owner, admin, implementation or role.
  abbrev pub changes_privilege : Bool
  changes_privilege = any (λ pc. not (contains pc.contract view.created)) view.privileged

  abbrev pub calls_deployed : Bool
  calls_deployed = any (λ f. is_called f.to false t) view.frames

  abbrev pub delegates : Bool
  delegates = any (Delegates.is_risky known.is_fresh view) view.frames

  abbrev pub approves : Bool
  approves = any (Approvals.is_risky known.is_fresh view) view.approvals

  abbrev pub grants : Bool
  grants = any (is_grant known.status view) view.approvals_for_all

  abbrev pub lost : List Outflow
  lost = losses known.status known.balance percent view view.flows

  abbrev pub drains : Bool
  drains = not (is_empty lost)

  -- There is a flash loan, and a loss of somebody else than a lender.
  abbrev pub exploits_loan : Bool
  exploits_loan =
      not (is_empty view.flash_loans)
      && any (λ o. not (contains o.holder (map (λ l. l.lender) view.flash_loans))) lost

  abbrev pub points : ℕ
  points =
      worth changes_privilege 40
      + worth calls_deployed 20
      + worth delegates 20
      + worth approves 20
      + worth grants 20
      + worth drains 40
      + worth exploits_loan 40

  abbrev pub touches_sanctioned : ListChecker → Bool
  touches_sanctioned list = any (is_sanctioned known list) view.addresses
