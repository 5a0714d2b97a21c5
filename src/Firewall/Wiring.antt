-- ===== src/Firewall/Wiring.antt =====
-- What newScreener has checked and built when it gives an engine.
use tx_firewall.Base.{
  >>=-inv, ℕ, zero, suc, Option, none, some, List, [], ◌∷◌, ◌≡◌, Result, ok, err,
}
use tx_firewall.Base.Int.{ℤ, pos, negsuc}
use tx_firewall.Geth.{Geth}
use tx_firewall.Sanctions.{Checker}
use tx_firewall.Sanctions.Listed.{ListChecker, list_checker}
use tx_firewall.Rules.{Rule}
use tx_firewall.Rules.Outflows
use tx_firewall.Risk.{Engine, new_engine}
use tx_firewall.Firewall.{ScreenerConfig, checkers, rules, new_screener_engine}

pub new_engine-rules :
    {W : Type 0} (threshold : ℤ) (rs : List (Rule W)) {e : Engine W}
    → new_engine threshold rs ≡ ok e
    → e.rules ≡ rs
unfolding new_engine
new_engine-rules (pos zero) rs h = cc
new_engine-rules (pos (suc n)) rs h = cc
new_engine-rules (negsuc n) rs h = cc

pub checkers-first :
    {W : Type 0} (list : ListChecker) (oracle : Option (Result (Checker W))) {cs : List (Checker W)}
    → checkers list oracle ≡ ok cs
    → (rest : List (Checker W)) × (cs ≡ list_checker list ∷ rest)
unfolding checkers
checkers-first list none h = ([], cc)
checkers-first list (some (ok oracle)) h = (oracle ∷ [], cc)
checkers-first list (some (err e)) h = cc

pub new_screener_engine-inv :
    (g : Geth) {W : Type 0} (cfg : ScreenerConfig W) {engine : Engine W}
    → new_screener_engine g cfg ≡ ok engine
    → (list : ListChecker) × (cs : List (Checker W)) × (percent : ℕ) × (cfg.list ≡ ok list)
      × (checkers list cfg.oracle ≡ ok cs)
      × (Outflows.check_percent cfg.outflow_percent ≡ ok percent)
      × (engine.rules ≡ rules g cfg cs percent)
unfolding new_screener_engine
new_screener_engine-inv g cfg built =
    let (list, h₁, read) = >>=-inv _ cfg.list built in
    let (cs, h₂, made) = >>=-inv _ (checkers list cfg.oracle) h₁ in
    let (percent, h₃, checked) = >>=-inv _ (Outflows.check_percent cfg.outflow_percent) h₂ in
    (list, cs, percent, read, made, checked, new_engine-rules cfg.threshold _ h₃)
