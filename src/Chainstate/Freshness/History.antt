-- ===== src/Chainstate/Freshness/History.antt =====
-- What the status of an address says of the chain's history.
use tx_firewall.Base.{
  ℕ, ◌-◌, Bytes, Option, none, some, [], ◌∷◌, ◌≡◌, ok, is_empty, if◌then◌else◌, arith,
}
use tx_firewall.Base.Exec.{Exec, Returns, Returns-bind, Returns-pure, Returns-on_error}
use tx_firewall.Geth.{Geth, Address}
use tx_firewall.Chainstate.{Status, no_code, fresh, established}
use tx_firewall.Chainstate.Freshness.{
  block_before, past_block, status_of_old, status_of_code, status,
}

pub block_before_lem : (window latest : ℕ) → block_before window latest ≡ latest - window
unfolding block_before
block_before_lem window latest = ground arith

-- The status by the code that the address has at a block, and had `window` blocks before it or, on
-- a chain that is younger, at the first.
abbrev pub status_at : ℕ → ℕ → (ℕ → Bytes) → Status
status_at window latest code =
    if is_empty (code latest)
    then no_code
    else if is_empty (code (latest - window))
    then fresh
    else established

-- The block that is asked for.
abbrev pub block_of : ℕ → Option ℕ → ℕ
block_of latest none = latest
block_of latest (some n) = n

module _ (g : Geth) (window : ℕ) {W : Type 0} {P : W → Type 0} (block_number : Exec W ℕ)
    (code_at : Address → Option ℕ → Exec W Bytes) (latest : ℕ) (code : Address → ℕ → Bytes)
    (number : Returns P block_number (ok latest))
    (codes : (addr : Address) (n : Option ℕ)
      → Returns P (code_at addr n) (ok (code addr (block_of latest n)))) where
  past_block-Returns : Returns P (past_block g window block_number code_at) (ok (latest - window))
  unfolding past_block
  past_block-Returns =
      Returns-bind _ _ latest (Returns-on_error _ block_number latest number)
        (rw block_before_lem (Returns-pure (latest - window)))

  status_of_code-Returns :
      (addr : Address) (now : Bytes)
      → Returns P (status_of_code g window block_number code_at addr now) (
          ok (
            if is_empty now
            then no_code
            else if is_empty (code addr (latest - window))
            then fresh
            else established))
  unfolding status_of_code status_of_old
  status_of_code-Returns addr [] = Returns-pure no_code
  status_of_code-Returns addr (b ∷ bs) = Returns-bind _ _ (latest - window) past_block-Returns (
      Returns-bind _ _ (code addr (latest - window))
        (Returns-on_error _ (code_at addr (some (latest - window))) _
          (codes addr (some (latest - window))))
        (Returns-pure _))

  -- As long as the node's latest block and the code at its blocks do not change, the status gives no
  -- error: an address without code at the latest block has none, and one with code is fresh exactly
  -- if it had none `window` blocks before, or at the first block of a younger chain.
  pub status-history :
      (addr : Address) (w : W)
      → P w
      → ((status g window block_number code_at addr w).0 ≡ ok (status_at window latest (code addr)))
        × P (status g window block_number code_at addr w).1
  unfolding status
  status-history addr w p =
      (Returns-bind _ _ (code addr latest)
          (Returns-on_error _ (code_at addr none) _ (codes addr none))
          (status_of_code-Returns addr (code addr latest))).at
        w p
