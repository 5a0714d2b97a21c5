-- ===== src/Firewall/Listed.antt =====
-- A transaction that touches an address on the list, followed from the list's checker through
-- the rule, the engine and the screener to the proxy's handler.
use tx_firewall.Base.{
  ℕ, Bool, true, false, List, [], ◌∷◌, ◌++◌, ◌≡◌, refl, any-append, contains, arith, inl, inr,
  Bool-cases, if◌then◌else◌, ◌==◌, ==_iff,
}
use tx_firewall.Base.Exec.{anything, IfOk, IfOk-continue, IfOk-remap, remap}
use tx_firewall.Geth.{Geth, Address}
use tx_firewall.Sanctions.{Checker}
use tx_firewall.Sanctions.Listed.{ListChecker, is_listed, list_checker}
use tx_firewall.Sanctions.Any.{any_checker}
use tx_firewall.Analysis.{Analysis}
use tx_firewall.Rules.{Finding, Rule}
use tx_firewall.Rules.Sanctioned.{finding_for, check_all}
use tx_firewall.Risk.{Verdict, Engine, no_verdict, add_findings, judge, run_rules, evaluate}
use tx_firewall.Proxy.Passing.{IsBlocked}
use tx_firewall.Risk.Blocking.{any_hard, add_findings-block}

abbrev pub IsHit : Bool → Type 0
IsHit b = b ≡ true

-- A listed address is a hit of any list of checkers that begins with the list.
pub any_checker-listed :
    {W : Type 0} (list : ListChecker) (rest : List (Checker W)) (addr : Address) (w : W)
    → is_listed list addr ≡ true
    → IfOk IsHit (any_checker (list_checker list ∷ rest) addr w).0
unfolding any_checker list_checker
any_checker-listed list rest addr w h = rw h refl

abbrev pub IsHard : List Finding → Type 0
IsHard fs = any_hard fs ≡ true

module _ (g : Geth) {W : Type 0} (checker : Checker W) where
  -- The findings after a round of the loop.
  abbrev grown : Address → List Finding → Bool → List Finding
  grown a fs hit = if hit then fs ++ finding_for g a ∷ [] else fs

  grown-keeps : (a : Address) (fs : List Finding) (hit : Bool) → IsHard fs → IsHard (grown a fs hit)
  grown-keeps a fs true h = ground (arith, any-append (λ f. f.hard_block) fs (finding_for g a ∷ []))
  grown-keeps a fs false h = h

  grown-IsHard :
      (a : Address) (fs : List Finding) (hit : Bool) → IsHit hit → IsHard (grown a fs hit)
  unfolding finding_for
  grown-IsHard a fs true h =
      ground (arith, any-append (λ f. f.hard_block) fs (finding_for g a ∷ []))
  grown-IsHard a fs false h = cc

  check_all-keeps :
      (addrs : List Address) (fs : List Finding) (w : W)
      → IsHard fs
      → IfOk IsHard (check_all g checker fs addrs w).0
  unfolding check_all
  check_all-keeps [] fs w h = h
  check_all-keeps (a ∷ as_) fs w h =
      IfOk-continue (λ hit. Unit {0}) IsHard (remap _ (checker a w).0) _ _ (anything _)
        λ hit _. check_all-keeps as_ (grown a fs hit) _ (grown-keeps a fs hit h)

  module _ (addr : Address) (hits : (w : W) → IfOk IsHit (checker addr w).0) where
    pub check_all-IsHard :
        (addrs : List Address) (fs : List Finding) (w : W)
        → contains addr addrs ≡ true
        → IfOk IsHard (check_all g checker fs addrs w).0
    unfolding check_all
    check_all-IsHard [] fs w h = cc
    check_all-IsHard (a ∷ as_) fs w h = elim (Bool-cases (a == addr)) [
      | inl same ↦
          let e : a ≡ addr = (==_iff a addr).0 same in
          IfOk-continue IsHit IsHard (remap _ (checker a w).0) _ _
            (IfOk-remap IsHit _ (checker a w).0 (rw e (hits w)))
            λ hit yes_. check_all-keeps as_ (grown a fs hit) _ (grown-IsHard a fs hit yes_)
      | inr other ↦
          IfOk-continue (λ hit. Unit {0}) IsHard (remap _ (checker a w).0) _ _ (anything _)
            λ hit _. check_all-IsHard as_ (grown a fs hit) _ (ground arith)
    ]

module _ {W : Type 0} (a : Analysis) where
  run_rules-IsBlocked :
      (rs : List (Rule W)) (v : Verdict) (w : W)
      → IsBlocked v
      → IfOk IsBlocked (run_rules a v rs w).0
  unfolding run_rules
  run_rules-IsBlocked [] v w h = h
  run_rules-IsBlocked (r ∷ rs) v w h =
      IfOk-continue (λ fs. Unit {0}) IsBlocked (remap _ (r.evaluate a w).0) _ _ (anything _)
        λ fs _.
          run_rules-IsBlocked rs (add_findings fs v) _ (ground (arith, add_findings-block fs v))

  -- A first rule that finds a hard block decides.
  run_rules-IsHard :
      (r : Rule W) (rs : List (Rule W)) (v : Verdict) (w : W)
      → IfOk IsHard (r.evaluate a w).0
      → IfOk IsBlocked (run_rules a v (r ∷ rs) w).0
  unfolding run_rules
  run_rules-IsHard r rs v w h =
      IfOk-continue IsHard IsBlocked (remap _ (r.evaluate a w).0) _ _
        (IfOk-remap IsHard _ (r.evaluate a w).0 h)
        λ fs hard.
          run_rules-IsBlocked rs (add_findings fs v) _ (ground (arith, add_findings-block fs v))

judge-IsBlocked : (threshold : ℕ) (v : Verdict) → IsBlocked v → IsBlocked (judge threshold v)
unfolding judge
judge-IsBlocked threshold v h = ground arith

pub evaluate-IsHard :
    {W : Type 0} (e : Engine W) (r : Rule W) (rs : List (Rule W)) (a : Analysis) (w : W)
    → e.rules ≡ r ∷ rs
    → IfOk IsHard (r.evaluate a w).0
    → IfOk IsBlocked (evaluate e a w).0
unfolding evaluate
evaluate-IsHard e r rs a w shape h =
    IfOk-continue IsBlocked IsBlocked (run_rules a no_verdict e.rules w).0 _ _
      (rw shape (run_rules-IsHard a r rs no_verdict w h)) λ v. judge-IsBlocked e.threshold v
