-- ===== src/Chainstate/Balances.antt =====
-- internal/chainstate/balance.go: what a holder owns before the transaction.
pub mod Encoded
use tx_firewall.Base.{
  ℕ, Bytes, Option, none, some, [], ◌∷◌, ◌++◌, Result, ok, err, wrap, as_rpc_error, concat, length,
  take, ◌==◌, not, set_bytes, if◌then◌else◌,
}
use tx_firewall.Base.Exec.{Exec, ◌>>=◌, pure, on_error}
use tx_firewall.Geth.{Geth, Address, zero_address}
use tx_firewall.Chainstate.{BalanceReader}

module _ (g : Geth) where
  open g use {address_hex, address_bytes, left_pad_32, keccak256}

  unfoldable pub balance_of_selector : Bytes
  balance_of_selector = take 4 (keccak256 "balanceOf(address)")

  unfoldable pub balance_of_calldata : Address → Bytes
  balance_of_calldata holder = balance_of_selector ++ left_pad_32 (address_bytes holder)

  -- The end of Balance: what the token's answer means.
  unfoldable pub read_balance : Address → Address → Result Bytes → Result (Option ℕ)
  read_balance asset holder (ok out) =
      if not (length out == 32) then ok none else ok (some (set_bytes out))
  read_balance asset holder (err e) = elim (as_rpc_error e) [
    | some rpc_err ↦ ok none
    | none ↦
        err (wrap (concat ("balance of " ∷ address_hex holder ∷ " in " ∷ address_hex asset ∷ [])) e)
  ]

  module _ {W : Type 0} (balance_at : Address → Exec W ℕ)
      (call_contract : Address → Bytes → Exec W Bytes) where
    -- The branch for ETH.
    unfoldable pub eth_balance : Address → Exec W (Option ℕ)
    eth_balance holder =
        on_error (wrap (concat ("ETH balance of " ∷ address_hex holder ∷ []))) (balance_at holder)
        >>= λ bal. pure (some bal)

    unfoldable pub token_balance : Address → Address → Exec W (Option ℕ)
    token_balance asset holder w =
        let (r, w') = call_contract asset (balance_of_calldata holder) w in
        (read_balance asset holder r, w')

    -- RPCBalances.Balance
    unfoldable pub balance : BalanceReader W
    unfolding eth_balance token_balance
    balance asset holder =
        if asset == zero_address then eth_balance holder else token_balance asset holder
