-- ===== src/Chainstate/Freshness.antt =====
-- internal/chainstate/chainstate.go: RPCFreshness, by two reads of a contract's code.
pub mod History
pub mod Ageing
use tx_firewall.Base.{
  ℕ, ◌-◌, Bytes, Option, none, some, [], ◌∷◌, wrap, concat, decimal, ltb, is_empty, if◌then◌else◌,
}
use tx_firewall.Base.Exec.{Exec, ◌>>=◌, ◌>>◌, pure, on_error}
use tx_firewall.Geth.{Geth, Address, zero_address}
use tx_firewall.Chainstate.{
  Status, no_code, fresh, established, StatusReader, FreshnessChecker, is_fresh,
}

-- The arithmetic of pastBlock.
unfoldable pub block_before : ℕ → ℕ → ℕ
block_before window latest = if ltb latest window then 0 else latest - window

module _ (g : Geth) (window : ℕ) {W : Type 0} (block_number : Exec W ℕ)
    (code_at : Address → Option ℕ → Exec W Bytes) where
  open g use {address_hex}

  -- pastBlock; the client's calls are parameters, and `none` is the latest block.
  unfoldable pub past_block : Exec W ℕ
  past_block =
      on_error (wrap "latest block") block_number >>= λ latest. pure (block_before window latest)

  -- The end of Status, with the old code read.
  unfoldable pub status_of_old : Bytes → Status
  status_of_old old_code = if is_empty old_code then fresh else established

  unfoldable pub status_of_code : Address → Bytes → Exec W Status
  unfolding past_block status_of_old
  status_of_code addr [] = pure no_code
  status_of_code addr (b ∷ bs) = do
    past ← past_block
    old_code ←
        on_error (wrap (concat ("code of " ∷ address_hex addr ∷ " at block " ∷ decimal past ∷ [])))
          (code_at addr (some past))
    pure (status_of_old old_code)

  -- RPCFreshness.Status
  unfoldable pub status : StatusReader W
  unfolding status_of_code
  status addr = do
    code ← on_error (wrap (concat ("code of " ∷ address_hex addr ∷ []))) (code_at addr none)
    status_of_code addr code

  -- RPCFreshness.IsFreshContract
  unfoldable pub is_fresh_contract : FreshnessChecker W
  unfolding status
  is_fresh_contract addr = do s ← status addr; pure (is_fresh s)

  -- RPCFreshness.Verify
  unfoldable pub verify : Exec W (Unit {0})
  unfolding past_block
  verify = do
    past ← past_block
    on_error
        (wrap (
          concat (
            "node cannot read state at block "
            ∷ decimal past
            ∷ " ("
            ∷ decimal window
            ∷ " blocks back); use an archive node or a smaller window"
            ∷ [])))
        (code_at zero_address (some past))
    pure tt
