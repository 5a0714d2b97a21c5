-- ===== src/Rules/Outflows.antt =====
-- internal/rules/outflow.go: OutflowDetector.
pub mod Found
use tx_firewall.Base.{
  ℕ, ◌*◌, ◌/◌, String, Bool, Option, none, some, List, [], ◌∷◌, ◌++◌, Result, ok, err, plain,
  concat, wrap, decimal, not, ◌||◌, ◌==◌, ltb, if◌then◌else◌,
}
use tx_firewall.Base.Int.{ℤ, pos, negsuc, pos_part, is_positive}
use tx_firewall.Base.Exec.{Exec, ◌>>=◌, pure, on_error}
use tx_firewall.Geth.{Geth, Address, zero_address}
use tx_firewall.Analysis.{Analysis, created_in_tx}
use tx_firewall.Analysis.Flows.{Flow, net_out, eth}
use tx_firewall.Chainstate.{Status, no_code, fresh, established, StatusReader, BalanceReader}

-- Find only reports positive amounts, so both are natural numbers.
pub record Outflow : Type 0 where
  pub asset : Address
  pub holder : Address
  pub net : ℕ
  pub balance : ℕ

-- NewOutflowDetector's check of its percentage, which it keeps.
unfoldable pub check_percent : ℤ → Result ℕ
check_percent (negsuc n) = err (plain "large outflow percentage must be between 1 and 100")
check_percent (pos percent) =
    if ltb percent 1 || ltb 100 percent
    then err (plain "large outflow percentage must be between 1 and 100")
    else ok percent

-- The first `if` of the loop: the flow is not a loss of an address that was there before.
unfoldable pub is_skipped : Analysis → Flow → Bool
is_skipped a f =
    not (is_positive (net_out f)) || f.holder == zero_address || created_in_tx a f.holder

-- net/balance > percent/100, in integers.
unfoldable pub exceeds : ℕ → ℕ → ℕ → Bool
exceeds percent net balance = ltb (balance * percent) (net * 100)

-- What is appended to `found` once the balance is read.
unfoldable pub outflow_of : ℕ → Flow → Option ℕ → List Outflow
outflow_of percent f none = []
outflow_of percent f (some bal) =
    if bal == 0
    then []
    else if exceeds percent (pos_part (net_out f)) bal
    then record { asset = f.asset; holder = f.holder; net = pos_part (net_out f); balance = bal }
      ∷ []
    else []

module _ (g : Geth) where
  open g use {address_hex}

  -- Outflow.String
  unfoldable pub describe : Outflow → String
  describe o =
      let asset = if o.asset == eth then "ETH" else concat ("token " ∷ address_hex o.asset ∷ []) in
      concat (
        decimal (o.net * 100 / o.balance)
        ∷ "% of "
        ∷ asset
        ∷ " held by "
        ∷ address_hex o.holder
        ∷ " ("
        ∷ decimal o.net
        ∷ " of "
        ∷ decimal o.balance
        ∷ ")"
        ∷ [])

  unfoldable pub describe_all : List Outflow → List String
  describe_all [] = []
  describe_all (o ∷ os) = describe o ∷ describe_all os

  module _ {W : Type 0} (status : StatusReader W) (balances : BalanceReader W) (percent : ℕ) where
    -- The round behind the status, for an address that has code.
    unfoldable pub measure : Flow → Status → Exec W (List Outflow)
    measure f no_code = pure []
    measure f fresh = balances f.asset f.holder >>= λ bal. pure (outflow_of percent f bal)
    measure f established = balances f.asset f.holder >>= λ bal. pure (outflow_of percent f bal)

    -- One round of the loop: what it appends to `found`.
    unfoldable pub inspect : Analysis → Flow → Exec W (List Outflow)
    inspect a f =
        if is_skipped a f
        then pure []
        else on_error (wrap (concat ("status of " ∷ address_hex f.holder ∷ []))) (status f.holder)
          >>= λ s. measure f s

    unfoldable pub find_in : Analysis → List Outflow → List Flow → Exec W (List Outflow)
    find_in a found [] = pure found
    find_in a found (f ∷ fs) = inspect a f >>= λ more. find_in a (found ++ more) fs

    -- OutflowDetector.Find
    unfoldable pub find : Analysis → Exec W (List Outflow)
    unfolding find_in
    find a = find_in a [] a.flows
