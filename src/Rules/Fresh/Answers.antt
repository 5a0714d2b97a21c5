-- ===== src/Rules/Fresh/Answers.antt =====
-- isFresh, where the node gives an address the same answer throughout.
use tx_firewall.Base.{contains, Bool, ◌||◌, ◌≡◌, refl, ok, Bool-cases, inl, inr}
use tx_firewall.Base.Exec.{Returns}
use tx_firewall.Geth.{Geth, Address}
use tx_firewall.Analysis.{Analysis, created_in_tx}
use tx_firewall.Chainstate.{FreshnessChecker}
use tx_firewall.Rules.Fresh.{is_fresh}

-- The transaction created the contract, or the node calls it fresh.
abbrev pub is_new : (Address → Bool) → Analysis → Address → Bool
is_new f a addr = contains addr a.created || f addr

pub is_fresh-Returns :
    (g : Geth) {W : Type 0} {P : W → Type 0} (fresh : FreshnessChecker W) (f : Address → Bool)
    (a : Analysis) (addr : Address)
    → Returns P (fresh addr) (ok (f addr))
    → Returns P (is_fresh g fresh a addr) (ok (is_new f a addr))
unfolding is_fresh created_in_tx
is_fresh-Returns g {W} {P} fresh f a addr h = record { at = at }
  where
    at :
        (w : W)
        → P w
        → ((is_fresh g fresh a addr w).0 ≡ ok (is_new f a addr)) × P (is_fresh g fresh a addr w).1
    at w p = elim (Bool-cases (contains addr a.created)) [
      | inl here ↦ rw here (refl, p)
      | inr there ↦ let (e, q) = h.at w p in rw (there, e) (refl, q)
    ]
