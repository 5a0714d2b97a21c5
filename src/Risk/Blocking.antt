-- ===== src/Risk/Blocking.antt =====
-- When the engine blocks: the verdict against the findings that it is made of.
use tx_firewall.Base.{
  err-ne-ok, ok-injective, ltb, ◌&&◌, ℕ, ◌+◌, ◌%◌, ◌^◌, ◌<◌, Bool, List, [], ◌∷◌, ◌++◌, ◌≡◌, ◌↔◌,
  ap, refl, sym, inl, inr, ok, ◌||◌, any, sum_by, leb, arith, append_assoc, append-nil,
  Result-cases, lt→ltb, ◌∙◌,
}
use tx_firewall.Analysis.{Analysis}
use tx_firewall.Rules.{Finding, Rule}
use tx_firewall.Risk.{
  Verdict, Engine, add_int, reaches, no_verdict, add_finding, add_findings, judge, run_rules,
  evaluate,
}

-- The weights' sum, as a number without bound, and whether one finding is a hard block.
abbrev pub total : List Finding → ℕ
total fs = sum_by (λ f. f.weight) fs

abbrev pub any_hard : List Finding → Bool
any_hard fs = any (λ f. f.hard_block) fs

-- A 64-bit score is not negative and is the threshold or more.
abbrev pub is_reached : ℕ → ℕ → Bool
is_reached threshold score = ltb score (2 ^ 63) && leb threshold score

-- The verdict on a list of findings.
abbrev pub IsVerdictOn : ℕ → List Finding → Verdict → Type 0
IsVerdictOn threshold fs v =
    (v.findings ≡ fs)
    × (v.score ≡ total fs % 2 ^ 64)
    × (v.block ≡ (any_hard fs || is_reached threshold (total fs % 2 ^ 64)))

add_findings-findings :
    (fs : List Finding) (v : Verdict) → (add_findings fs v).findings ≡ v.findings ++ fs
unfolding add_findings add_finding
add_findings-findings [] v = sym (append-nil _)
add_findings-findings (f ∷ fs) v =
    add_findings-findings fs (add_finding f v) ∙ append_assoc v.findings (f ∷ []) fs

add_findings-score :
    (fs : List Finding) (v : Verdict)
    → v.score < 2 ^ 64
    → (add_findings fs v).score ≡ (v.score + total fs) % 2 ^ 64
unfolding add_findings add_finding sum_by add_int
add_findings-score [] v h = omega arith
add_findings-score (f ∷ fs) v h = omega (arith, add_findings-score fs (add_finding f v))

pub add_findings-block :
    (fs : List Finding) (v : Verdict) → (add_findings fs v).block ≡ (v.block || any_hard fs)
unfolding add_findings add_finding
add_findings-block [] v = ground arith
add_findings-block (f ∷ fs) v = ground (arith, add_findings-block fs (add_finding f v))

judge-IsVerdictOn :
    (threshold : ℕ) (fs : List Finding)
    → IsVerdictOn threshold fs (judge threshold (add_findings fs no_verdict))
unfolding judge reaches
judge-IsVerdictOn threshold fs = ground (
  arith,
  add_findings-findings fs no_verdict,
  add_findings-score fs no_verdict,
  add_findings-block fs no_verdict,
)

add_findings-append :
    (fs gs : List Finding) (v : Verdict)
    → add_findings gs (add_findings fs v) ≡ add_findings (fs ++ gs) v
unfolding add_findings
add_findings-append [] gs v = refl
add_findings-append (f ∷ fs) gs v = add_findings-append fs gs (add_finding f v)

module _ {W : Type 0} (a : Analysis) where
  -- All rules ran, one after the other, and these are their findings in order.
  abbrev pub Runs : List (Rule W) → W → List Finding → W → Type 0
  Runs [] w fs w' = (fs ≡ []) × (w' ≡ w)
  Runs (r ∷ rs) w fs w' =
      (here : List Finding) × (later : List Finding) × (w₁ : W) × (r.evaluate a w ≡ (ok here, w₁))
      × (fs ≡ here ++ later)
      × Runs rs w₁ later w'

  run_rules-Runs :
      (rs : List (Rule W)) (v : Verdict) (w : W) {v' : Verdict}
      → (run_rules a v rs w).0 ≡ ok v'
      → (fs : List Finding) × Runs rs w fs (run_rules a v rs w).1 × (v' ≡ add_findings fs v)
  unfolding run_rules add_findings
  run_rules-Runs [] v w e = ([], (refl, refl), cc)
  run_rules-Runs (r ∷ rs) v w {v'} e = elim (Result-cases (r.evaluate a w).0) [
    | inl (fs, p) ↦
        let w₁ = (r.evaluate a w).1 in
        let (gs, more, q) = run_rules-Runs rs (add_findings fs v) w₁ {v' = v'} (rw p at e) in
        (fs ++ gs, (fs, gs, w₁, λ i. (p i, w₁), refl, rw p more), q ∙ add_findings-append fs gs v)
    | inr (x, p) ↦ absurd (err-ne-ok (rw p at e))
  ]

  Runs-run_rules :
      (rs : List (Rule W)) (v : Verdict) (w : W) (fs : List Finding) (w' : W)
      → Runs rs w fs w'
      → run_rules a v rs w ≡ (ok (add_findings fs v), w')
  unfolding run_rules add_findings
  Runs-run_rules [] v w fs w' (e, p) = rw (e, p)
  Runs-run_rules (r ∷ rs) v w fs w' (here, later, w₁, p, e, more) =
      rw (p, e)
        (Runs-run_rules rs (add_findings here v) w₁ later w' more
          ∙ rw (add_findings-append here later v))

pub evaluate-Runs :
    {W : Type 0} (e : Engine W) (a : Analysis) (w : W) (v : Verdict)
    → (evaluate e a w).0 ≡ ok v
    → (fs : List Finding) × Runs a e.rules w fs (evaluate e a w).1 × IsVerdictOn e.threshold fs v
unfolding evaluate
evaluate-Runs e a w v h = elim (Result-cases (run_rules a no_verdict e.rules w).0) [
  | inl (v₀, p) ↦
      let (fs, runs, q) = run_rules-Runs a e.rules no_verdict w p in
      let made : judge e.threshold v₀ ≡ v = ok-injective (rw p at h) in
      (fs, rw p runs, rw (← made, q) (judge-IsVerdictOn e.threshold fs))
  | inr (x, p) ↦ absurd (err-ne-ok (rw p at h))
]

pub Runs-evaluate :
    {W : Type 0} (e : Engine W) (a : Analysis) (w : W) (fs : List Finding) (w' : W)
    → Runs a e.rules w fs w'
    → (v : Verdict) × (evaluate e a w ≡ (ok v, w')) × IsVerdictOn e.threshold fs v
unfolding evaluate
Runs-evaluate e a w fs w' runs = (
  judge e.threshold (add_findings fs no_verdict),
  rw (Runs-run_rules a e.rules no_verdict w fs w' runs),
  judge-IsVerdictOn e.threshold fs,
)

IsVerdictOn-unique :
    (threshold : ℕ) (fs : List Finding) (u v : Verdict)
    → IsVerdictOn threshold fs u
    → IsVerdictOn threshold fs v
    → u ≡ v
IsVerdictOn-unique threshold fs u v h k = ground arith

-- The engine gives a verdict exactly if every rule runs without an error, one after the other, and
-- the verdict is the one on all of their findings in order: the score is the sum of the weights
-- modulo 2^64, and the transaction is blocked exactly if a finding is a hard block, or the score,
-- as a signed 64-bit number, is not negative and is the threshold or more.
pub evaluate_iff :
    {W : Type 0} (e : Engine W) (a : Analysis) (w w' : W) (v : Verdict)
    → (evaluate e a w ≡ (ok v, w'))
      ↔ ((fs : List Finding) × Runs a e.rules w fs w' × IsVerdictOn e.threshold fs v)
evaluate_iff e a w w' v = (
  λ h.
      let (fs, runs, verdict) = evaluate-Runs e a w v (ap (λ r. r.0) h) in
      (fs, rw (ap (λ r. r.1) h) at runs, verdict),
  λ (fs, runs, verdict).
      let (u, given, on) = Runs-evaluate e a w fs w' runs in
      given ∙ ap (λ x. (ok x, w')) (IsVerdictOn-unique e.threshold fs u v on verdict),
)

pub IsVerdictOn-fits :
    (threshold : ℕ) (fs : List Finding) (v : Verdict)
    → IsVerdictOn threshold fs v
    → total fs < 2 ^ 63
    → (v.score ≡ total fs) × (v.block ≡ (any_hard fs || leb threshold (total fs)))
IsVerdictOn-fits threshold fs v (_, score, block) h =
    let small : total fs % 2 ^ 64 ≡ total fs = omega arith in
    (score ∙ small, rw (block, small, lt→ltb (total fs) (2 ^ 63) h))
