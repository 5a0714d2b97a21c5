-- ===== src/Chainstate.antt =====
-- internal/chainstate: what the rules ask of the chain's history and state.
pub mod Freshness
pub mod Known
pub mod Balances
use tx_firewall.Base.{ℕ, Bool, true, false, Option}
use tx_firewall.Base.Exec.{Exec}
use tx_firewall.Geth.{Address}

-- Status
pub data Status : Type 0 where
  no_code fresh established : Status

-- StatusReader.Status, over the state of whatever is asked.
abbrev pub StatusReader : Type 0 → Type 0
StatusReader W = Address → Exec W Status

-- FreshnessChecker.IsFreshContract
abbrev pub FreshnessChecker : Type 0 → Type 0
FreshnessChecker W = Address → Exec W Bool

-- BalanceReader.Balance of an asset and a holder; `none` stands for `ok == false`.
abbrev pub BalanceReader : Type 0 → Type 0
BalanceReader W = Address → Address → Exec W (Option ℕ)

-- `s == Fresh`
abbrev pub is_fresh : Status → Bool
is_fresh no_code = false
is_fresh fresh = true
is_fresh established = false
