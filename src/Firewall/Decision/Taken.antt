-- ===== src/Firewall/Decision/Taken.antt =====
-- The decision that the screener of cmd/firewall takes.
use tx_firewall.Base.{
  ℕ, ◌+◌, ◌≤◌, suc, zero, Bool, true, false, List, [], ◌∷◌, ◌≡◌, sym, ◌∙◌, ap, ok, ok-injective,
  >>=-inv, ◌||◌, any, sum_by, arith, leb,
}
use tx_firewall.Base.Int.{ℤ, pos, negsuc}
use tx_firewall.Base.Exec.{Returns}
use tx_firewall.Geth.{Geth}
use tx_firewall.TxDecode.{Decoded}
use tx_firewall.Simulate.{CallFrame}
use tx_firewall.Sanctions.{Checker}
use tx_firewall.Sanctions.Listed.{ListChecker}
use tx_firewall.Sanctions.Any.{any_checker}
use tx_firewall.Rules.{Rule}
use tx_firewall.Rules.Sanctioned
use tx_firewall.Rules.Outflows.{check_percent}
use tx_firewall.Risk.{Verdict, Engine, new_engine}
use tx_firewall.Risk.Blocking.{IsVerdictOn-fits, Runs-evaluate}
use tx_firewall.Screen.{screen_trace, screen}
use tx_firewall.Firewall.{
  ScreenerConfig, weighted_rules, rules, new_screener_engine, screener, checkers,
}
use tx_firewall.Firewall.Wiring.{new_engine-rules}
use tx_firewall.Firewall.Decision.{
  Answers, worth, view, points, changes_privilege, calls_deployed, delegates, approves, grants,
  drains, exploits_loan, touches_sanctioned, is_sanctioned,
}
use tx_firewall.Firewall.Decision.Found.{RunTo, cons-RunTo, AllAdd-RunTo}
use tx_firewall.Firewall.Decision.Hits.{any_checker-Returns, sanctioned-Adds}
use tx_firewall.Firewall.Decision.Weighted.{IsAnswering, worths, weighted-AllAdd}

-- The settings that newScreener has checked.
pub record IsSetTo {W : Type 0} (cfg : ScreenerConfig W) (list : ListChecker)
    (percent threshold : ℕ) : Type 0 where
  pub named : cfg.list ≡ ok list
  pub percentage : cfg.outflow_percent ≡ pos percent
  pub limit : cfg.threshold ≡ pos threshold

check_percent-kept : (z : ℤ) (n p : ℕ) → z ≡ pos n → check_percent z ≡ ok p → p ≡ n
unfolding check_percent
check_percent-kept (pos m) n p e h = ground arith
check_percent-kept (negsuc m) n p e h = cc

new_engine-threshold :
    {W : Type 0} (z : ℤ) (n : ℕ) (rs : List (Rule W)) {e : Engine W}
    → z ≡ pos n
    → new_engine z rs ≡ ok e
    → e.threshold ≡ n
unfolding new_engine
new_engine-threshold (pos zero) n rs e h = cc
new_engine-threshold (pos (suc m)) n rs e h = cc
new_engine-threshold (negsuc m) n rs e h = cc

built-as :
    (g : Geth) {W : Type 0} (cfg : ScreenerConfig W) (list : ListChecker) (percent threshold : ℕ)
    (engine : Engine W)
    → IsSetTo cfg list percent threshold
    → new_screener_engine g cfg ≡ ok engine
    → (cs : List (Checker W)) × (checkers list cfg.oracle ≡ ok cs)
      × (engine.rules ≡ rules g cfg cs percent)
      × (engine.threshold ≡ threshold)
unfolding new_screener_engine
built-as g cfg list percent threshold engine set built =
    let (l, h₁, read) = >>=-inv _ cfg.list built in
    let (cs, h₂, made) = >>=-inv _ (checkers l cfg.oracle) h₁ in
    let (p, h₃, checked) = >>=-inv _ (check_percent cfg.outflow_percent) h₂ in
    (
      cs,
      rw (ok-injective (sym read ∙ set.named)) at made,
      new_engine-rules cfg.threshold _ h₃
          ∙ ap (rules g cfg cs)
              (check_percent-kept cfg.outflow_percent percent p set.percentage checked),
      new_engine-threshold cfg.threshold threshold _ set.limit h₃,
    )

worth-bound : (b : Bool) (n : ℕ) → worth b n ≤ n
worth-bound true n = omega arith
worth-bound false n = omega arith

or_false : (b : Bool) → (b || false) ≡ b
or_false b = ground arith

sum_of_seven :
    (a b c d e f h : ℕ)
    → 0 + sum_by (λ n. n) (a ∷ b ∷ c ∷ d ∷ e ∷ f ∷ h ∷ []) ≡ a + b + c + d + e + f + h
unfolding sum_by
sum_of_seven a b c d e f h = omega arith

module _ (g : Geth) {W : Type 0} (P : W → Type 0) (cfg : ScreenerConfig W) (known : Answers)
    (list : ListChecker) (percent threshold : ℕ) (d : Decoded) (t : CallFrame) where
  points-bound : points g known percent d t ≤ 200
  points-bound = omega (
    arith,
    worth-bound (changes_privilege g known percent d t) 40,
    worth-bound (calls_deployed g known percent d t) 20,
    worth-bound (delegates g known percent d t) 20,
    worth-bound (approves g known percent d t) 20,
    worth-bound (grants g known percent d t) 20,
    worth-bound (drains g known percent d t) 40,
    worth-bound (exploits_loan g known percent d t) 40,
  )

  rules-RunTo :
      (cs : List (Checker W)) (w : W)
      → IsAnswering P cfg known
      → checkers list cfg.oracle ≡ ok cs
      → P w
      → RunTo P
          (view g known percent d t)
          (rules g cfg cs percent)
          w
          (points g known percent d t)
          (touches_sanctioned g known percent d t list)
  unfolding rules sum_by
  rules-RunTo cs w answers made p =
      let a = view g known percent d t in
      let run =
        cons-RunTo P a (Sanctioned.rule g (any_checker cs)) (weighted_rules g cfg percent) 0
          (sum_by (λ n. n) (worths g P cfg known answers percent d t))
          (any (is_sanctioned known list) a.addresses) false w
          (sanctioned-Adds g P (any_checker cs) (is_sanctioned known list)
            (λ x. any_checker-Returns P list cfg.oracle known cs x answers.oracle made) a)
          p
          (λ w' q.
            AllAdd-RunTo P a (worths g P cfg known answers percent d t)
              (weighted_rules g cfg percent) w' (weighted-AllAdd g P cfg known answers percent d t)
              q) in
      let (fs, w', runs, weighs, hard, q) = run in
      (fs, w', runs, weighs ∙ sum_of_seven _ _ _ _ _ _ _, hard ∙ or_false _, q)

  -- While the oracle, if there is one, and the node give the same answers to the same questions:
  -- an engine that newScreener built from these settings, with a simulator that gives a trace,
  -- gives a verdict without an error. Its score is the points of the trace, and it blocks exactly if
  -- an address of the trace's analysis is on the list or flagged by the oracle, or the points are
  -- the threshold or more.
  pub screener-decides :
      (engine : Engine W) (w : W)
      → IsSetTo cfg list percent threshold
      → new_screener_engine g cfg ≡ ok engine
      → IsAnswering P cfg known
      → Returns P (cfg.simulator d) (ok t)
      → P w
      → (v : Verdict) × ((screener g cfg engine d w).0 ≡ ok v)
        × (v.score ≡ points g known percent d t)
        × (v.block ≡ (
            touches_sanctioned g known percent d t list
            || leb threshold (points g known percent d t)))
        × P (screener g cfg engine d w).1
  unfolding screener screen screen_trace
  screener-decides engine w set built answers gives p =
      let (e, q) = gives.at w p in
      let w₁ = (cfg.simulator d w).1 in
      let (cs, made, wired, limit) = built-as g cfg list percent threshold engine set built in
      let (fs, w', runs, weighs, hard, q') = rules-RunTo cs w₁ answers made q in
      let (v, done, on) =
        Runs-evaluate engine (view g known percent d t) w₁ fs w' (rw (← wired) at runs) in
      let (score, block) =
        IsVerdictOn-fits engine.threshold fs v on (omega (arith, weighs, points-bound)) in
      (
        v,
        rw e (ap (λ r. r.0) done),
        score ∙ weighs,
        block ∙ rw (hard, weighs, limit),
        rw (e, done) q',
      )
