-- ===== src/Rules/Fresh.antt =====
-- internal/rules/approval.go: isFresh, which three rules share.
pub mod Answers
use tx_firewall.Base.{true, [], ◌∷◌, wrap, concat, if◌then◌else◌}
use tx_firewall.Base.Exec.{pure, on_error}
use tx_firewall.Geth.{Geth}
use tx_firewall.Analysis.{Analysis, created_in_tx}
use tx_firewall.Chainstate.{FreshnessChecker}

module _ (g : Geth) {W : Type 0} (fresh : FreshnessChecker W) (a : Analysis) where
  open g use {address_hex}

  unfoldable pub is_fresh : FreshnessChecker W
  is_fresh addr =
      if created_in_tx a addr
      then pure true
      else on_error (wrap (concat ("freshness of " ∷ address_hex addr ∷ []))) (fresh addr)
