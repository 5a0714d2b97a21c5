-- ===== src/Firewall/Scores.antt =====
-- The score of a verdict (internal/risk) and the number of findings of each weighted rule.
use tx_firewall.Base.{
  ℕ, ◌≤◌, String, List, [], ◌∷◌, ◌++◌, ◌≡◌, ◌∙◌, sym, ap, ◌||◌, Result, ok, arith, sum_by,
  sum_by-append, leb, is_empty, Bool-cases, inl, inr, if◌then◌else◌,
}
use tx_firewall.Base.Exec.{Exec, IfOk, IfOk-continue, IfOk-at, anything, remap, pure, continue}
use tx_firewall.Geth.{Geth, Address}
use tx_firewall.Analysis.{Analysis}
use tx_firewall.Sanctions.{Checker}
use tx_firewall.Sanctions.Any.{any_checker}
use tx_firewall.Rules.{Finding, Rule, one_finding}
use tx_firewall.Rules.Sanctioned
use tx_firewall.Rules.PrivilegeChange
use tx_firewall.Rules.DeployAndCall
use tx_firewall.Rules.DelegatecallToFresh
use tx_firewall.Rules.UnlimitedApproval
use tx_firewall.Rules.NftDrainer
use tx_firewall.Rules.LargeOutflow
use tx_firewall.Rules.FlashLoanOutflow
use tx_firewall.Risk.{Verdict, Engine, evaluate}
use tx_firewall.Risk.Blocking.{total, any_hard, Runs, IsVerdictOn, evaluate-Runs, IsVerdictOn-fits}
use tx_firewall.Firewall.{ScreenerConfig, rules, weighted_rules, new_screener_engine}
use tx_firewall.Firewall.Wiring.{new_screener_engine-inv}

-- The findings weigh at most `n`.
abbrev Weigh : ℕ → List Finding → Type 0
Weigh n fs = total fs ≤ n

one_finding-Weigh :
    {A : Type 0} (rule : String) (n : ℕ) (reason : List A → String) (xs : List A)
    → Weigh n (one_finding rule n reason xs)
unfolding one_finding sum_by
one_finding-Weigh rule n reason [] = omega arith
one_finding-Weigh rule n reason (x ∷ xs) = omega arith

-- Whatever a rule with this Evaluate is asked, its findings weigh at most `n`.
abbrev WeighsAtMost : {W : Type 0} → ℕ → (Analysis → Exec W (List Finding)) → Type 0
WeighsAtMost {W} n evaluate = (a : Analysis) (w : W) → IfOk (Weigh n) (evaluate a w).0

abbrev weights : List ℕ
weights = 0 ∷ 40 ∷ 20 ∷ 20 ∷ 20 ∷ 20 ∷ 40 ∷ 40 ∷ []

module _ (g : Geth) {W : Type 0} where
  check_all-Weigh :
      (checker : Checker W) (fs : List Finding) (addrs : List Address) (w : W)
      → Weigh 0 fs
      → IfOk (Weigh 0) (Sanctioned.check_all g checker fs addrs w).0
  unfolding Sanctioned.check_all Sanctioned.finding_for sum_by
  check_all-Weigh checker fs [] w h = h
  check_all-Weigh checker fs (addr ∷ addrs) w h =
      IfOk-continue (λ hit. Unit {0}) (Weigh 0) (remap _ (checker addr w).0) _ _ (anything _)
        λ hit _.
          check_all-Weigh checker (if hit then fs ++ Sanctioned.finding_for g addr ∷ [] else fs)
            addrs _
            (ground (arith, sum_by-append (λ f. f.weight) fs (Sanctioned.finding_for g addr ∷ [])))

  -- The rules that ask the outside end by one finding, from what they found.
  then_one-Weigh :
      {A B : Type 0} (r : Result B) (rule : String) (n : ℕ) (reason : List A → String)
      (select : B → List A) (w : W)
      → IfOk (Weigh n) (continue r (λ b. pure (one_finding rule n reason (select b))) w).0
  then_one-Weigh r rule n reason select w =
      IfOk-continue (λ b. Unit {0}) (Weigh n) r _ w (anything r)
        λ b _. one_finding-Weigh rule n reason (select b)

  -- The rules and their weights.
  abbrev AllWeigh : List ℕ → List (Rule W) → Type 0
  AllWeigh [] [] = Unit
  AllWeigh (n ∷ ns) (r ∷ rs) = WeighsAtMost n r.evaluate × AllWeigh ns rs
  AllWeigh _ _ = ⊥

  Runs-Weigh :
      (a : Analysis) (ns : List ℕ) (rs : List (Rule W)) (w : W) (fs : List Finding) (w' : W)
      → AllWeigh ns rs
      → Runs a rs w fs w'
      → Weigh (sum_by (λ n. n) ns) fs
  unfolding sum_by
  Runs-Weigh a [] [] w fs w' h (e, _) = rw e (omega arith)
  Runs-Weigh a [] (r ∷ rs) w fs w' h runs = absurd h
  Runs-Weigh a (n ∷ ns) [] w fs w' h runs = absurd h
  Runs-Weigh a (n ∷ ns) (r ∷ rs) w fs w' (h, hs) (here, later, w₁, p, e, more) =
      let one : Weigh n here = IfOk-at (Weigh n) (ap (λ x. x.0) p) (h a w) in
      omega (
        arith,
        ap total e,
        sum_by-append (λ f. f.weight) here later,
        one,
        Runs-Weigh a ns rs w₁ later w' hs more,
      )

  rules-AllWeigh :
      (cfg : ScreenerConfig W) (cs : List (Checker W)) (percent : ℕ)
      → AllWeigh weights (rules g cfg cs percent)
  unfolding rules weighted_rules Sanctioned.rule PrivilegeChange.rule PrivilegeChange.evaluate
      DeployAndCall.rule DeployAndCall.evaluate DelegatecallToFresh.rule
      DelegatecallToFresh.evaluate UnlimitedApproval.rule UnlimitedApproval.evaluate NftDrainer.rule
      NftDrainer.evaluate LargeOutflow.rule LargeOutflow.evaluate FlashLoanOutflow.rule
      FlashLoanOutflow.evaluate sum_by
  rules-AllWeigh cfg cs percent = (
    (λ a w. check_all-Weigh (any_checker cs) [] a.addresses w (omega arith)),
    (
      (λ a w. one_finding-Weigh _ 40 _ _),
      (
        (λ a w. one_finding-Weigh _ 20 _ _),
        (
          (λ a w. then_one-Weigh _ _ 20 _ (λ xs. xs) _),
          (
            (λ a w. then_one-Weigh _ _ 20 _ (λ xs. xs) _),
            (
              (λ a w. then_one-Weigh _ _ 20 _ (λ xs. xs) _),
              (
                (λ a w. then_one-Weigh _ _ 40 _ (λ xs. xs) _),
                (
                  (λ a w. elim (Bool-cases (is_empty a.flash_loans)) [
                    | inl none_ ↦ rw none_ (omega arith)
                    | inr some_ ↦ rw some_ (then_one-Weigh _ _ 40 _ _ _)
                  ]),
                  tt,
                ),
              ),
            ),
          ),
        ),
      ),
    ),
  )

-- With no more than 200 to add, the verdict on the findings has no overflow.
IsVerdictOn-exact :
    (threshold : ℕ) (fs : List Finding) (v : Verdict)
    → IsVerdictOn threshold fs v
    → Weigh 200 fs
    → (v.score ≡ total v.findings)
      × (v.score ≤ 200)
      × (v.block ≡ (any_hard v.findings || leb threshold v.score))
IsVerdictOn-exact threshold fs v (same, score, block) small =
    let (exact, open_) = IsVerdictOn-fits threshold fs v (same, score, block) (omega arith) in
    (
      exact ∙ sym (ap total same),
      omega (arith, exact),
      ground (arith, exact, open_, ap any_hard same),
    )

-- An engine that newScreener built gives a verdict whose score is the sum of its findings'
-- weights, without overflow: it is 200 or less, since each rule adds its weight at most once. It
-- blocks exactly if a finding is a hard block or the score is the threshold or more.
pub evaluate-exact :
    (g : Geth) {W : Type 0} (cfg : ScreenerConfig W) (engine : Engine W) (a : Analysis) (w : W)
    (v : Verdict)
    → new_screener_engine g cfg ≡ ok engine
    → (evaluate engine a w).0 ≡ ok v
    → (v.score ≡ total v.findings)
      × (v.score ≤ 200)
      × (v.block ≡ (any_hard v.findings || leb engine.threshold v.score))
unfolding sum_by
evaluate-exact g cfg engine a w v built given =
    let (_, cs, percent, _, _, _, kept) = new_screener_engine-inv g cfg built in
    let (fs, runs, verdict) = evaluate-Runs engine a w v given in
    IsVerdictOn-exact engine.threshold fs v verdict (
      Runs-Weigh g a weights (rules g cfg cs percent) w fs _ (rules-AllWeigh g cfg cs percent)
        (rw kept at runs))
