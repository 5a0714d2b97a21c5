-- ===== src/Risk.antt =====
-- internal/risk/risk.go: the rules' findings become a verdict. Go's int has 64 bits, in two's
-- complement: a score is its bit pattern.
pub mod Blocking
use tx_firewall.Base.{
  ℕ, suc, ◌+◌, ◌%◌, ◌^◌, String, Bool, true, false, List, [], ◌∷◌, ◌++◌, Result, ok, err, plain,
  wrap, concat, not, ◌&&◌, ltb, leb, if◌then◌else◌,
}
use tx_firewall.Base.Int.{ℤ, pos, negsuc}
use tx_firewall.Base.Exec.{Exec, ◌>>=◌, pure, on_error}
use tx_firewall.Analysis.{Analysis}
use tx_firewall.Rules.{Finding, Rule}

pub record Verdict : Type 0 where
  pub block : Bool
  pub score : ℕ
  pub findings : List Finding

pub record Engine (W : Type 0) : Type 0 where
  pub rules : List (Rule W)
  pub threshold : ℕ

-- `+` on int.
unfoldable pub add_int : ℕ → ℕ → ℕ
add_int a b = (a + b) % 2 ^ 64

-- `score >= threshold` on int, for a threshold that is positive.
unfoldable pub reaches : ℕ → ℕ → Bool
reaches threshold score = ltb score (2 ^ 63) && leb threshold score

unfoldable pub new_engine : {W : Type 0} → ℤ → List (Rule W) → Result (Engine W)
new_engine (pos (suc n)) rules = ok (record { rules = rules; threshold = suc n })
new_engine _ rules = err (plain "risk threshold must be positive")

abbrev pub no_verdict : Verdict
no_verdict = record { block = false; score = 0; findings = [] }

-- One round of the inner loop.
unfoldable pub add_finding : Finding → Verdict → Verdict
add_finding f v = record {
  block = if f.hard_block then true else v.block;
  score = add_int v.score f.weight;
  findings = v.findings ++ f ∷ [];
}

unfoldable pub add_findings : List Finding → Verdict → Verdict
add_findings [] v = v
add_findings (f ∷ fs) v = add_findings fs (add_finding f v)

unfoldable pub judge : ℕ → Verdict → Verdict
judge threshold v = if reaches threshold v.score then record v { block = true } else v

module _ {W : Type 0} (a : Analysis) where
  -- The outer loop.
  unfoldable pub run_rules : Verdict → List (Rule W) → Exec W Verdict
  run_rules v [] = pure v
  run_rules v (r ∷ rs) =
      on_error (wrap (concat ("rule " ∷ r.name ∷ []))) (r.evaluate a) >>= λ findings.
      run_rules (add_findings findings v) rs

-- Engine.Evaluate
unfoldable pub evaluate : {W : Type 0} → Engine W → Analysis → Exec W Verdict
evaluate e a = run_rules a no_verdict e.rules >>= λ v. pure (judge e.threshold v)
