-- ===== src/Rules/FlashLoanOutflow/Paired.antt =====
-- The rule on flash loans beside the rule on large outflows (internal/rules).
use tx_firewall.Base.{
  ◌+◌, String, false, List, [], ◌∷◌, ◌≡◌, refl, sym, ◌∙◌, ap, ok, Bool-cases, inl, inr, is_empty,
  ok-injective, concat, join,
}
use tx_firewall.Base.Exec.{Exec, Returns, Returns-bind, Returns-pure}
use tx_firewall.Geth.{Geth, Address}
use tx_firewall.Analysis.{Analysis}
use tx_firewall.Analysis.Loans.{lenders_of}
use tx_firewall.Rules.One.{is_empty-one_finding}
use tx_firewall.Rules.{Finding, weight_high, one_finding}
use tx_firewall.Rules.Outflows.{Outflow, describe_all}
use tx_firewall.Rules.LargeOutflow
use tx_firewall.Rules.FlashLoanOutflow.{name, drained_from, describe_loans, evaluate}

-- Two findings that together weigh 80.
abbrev pub IsPair : List Finding → List Finding → Type 0
IsPair (x ∷ []) (y ∷ []) = x.weight + y.weight ≡ 80
IsPair _ _ = ⊥

one_finding-IsPair :
    {A B : Type 0} (rule rule' : String) (reason : List A → String) (reason' : List B → String)
    (xs : List A) (ys : List B)
    → is_empty xs ≡ false
    → is_empty ys ≡ false
    → IsPair (one_finding rule 40 reason xs) (one_finding rule' 40 reason' ys)
unfolding one_finding
one_finding-IsPair rule rule' reason reason' [] ys h k = cc
one_finding-IsPair rule rule' reason reason' (x ∷ xs) [] h k = cc
one_finding-IsPair rule rule' reason reason' (x ∷ xs) (y ∷ ys) h k = refl

nonempty_of_drained :
    (lenders : List Address) (os : List Outflow)
    → is_empty (drained_from lenders os) ≡ false
    → is_empty os ≡ false
unfolding drained_from
nonempty_of_drained lenders [] h = h
nonempty_of_drained lenders (o ∷ os) h = refl

empty-absurd : (fs : List Finding) → [] ≡ fs → is_empty fs ≡ false → ⊥
empty-absurd [] e h = cc
empty-absurd (x ∷ xs) e h = cc

module _ (g : Geth) {W : Type 0} {P : W → Type 0} (find : Analysis → Exec W (List Outflow))
    (a : Analysis) (os : List Outflow) (finds : Returns P (find a) (ok os)) where
  pub large-Returns : Returns P (LargeOutflow.evaluate g find a) (
      ok (
        one_finding LargeOutflow.name weight_high
          (λ xs. concat ("large outflow: " ∷ join ", " (describe_all g xs) ∷ []))
          os))
  unfolding LargeOutflow.evaluate
  large-Returns = Returns-bind (find a) _ os finds (Returns-pure _)

  abbrev pub reason : Analysis → List Outflow → String
  reason b drained = concat (
      "flash loan from "
      ∷ join ", " (describe_loans g find b.flash_loans)
      ∷ " with large outflow: "
      ∷ join ", " (describe_all g drained)
      ∷ [])

  pub flash-Returns :
      is_empty a.flash_loans ≡ false
      → Returns P (evaluate g find a) (
          ok (one_finding name weight_high (reason a) (drained_from (lenders_of a.flash_loans) os)))
  unfolding evaluate
  flash-Returns loan = rw loan (Returns-bind (find a) _ os finds (Returns-pure _))

  -- As long as the detector gives the same outflows to both rules: if the rule on flash loans
  -- finds something, then it and the rule on large outflows report one finding each, and the two
  -- together weigh 80.
  pub evaluate-IsPair :
      (w w' : W) (fs gs : List Finding)
      → P w
      → P w'
      → (evaluate g find a w).0 ≡ ok fs
      → (LargeOutflow.evaluate g find a w').0 ≡ ok gs
      → is_empty fs ≡ false
      → IsPair fs gs
  unfolding evaluate
  evaluate-IsPair w w' fs gs p p' h k some_ = elim (Bool-cases (is_empty a.flash_loans)) [
    | inl no_loan ↦ absurd (empty-absurd fs (ok-injective (rw no_loan at h)) some_)
    | inr loan ↦
        let e = ok-injective (sym ((flash-Returns loan).at w p).0 ∙ h) in
        let e' = ok-injective (sym (large-Returns.at w' p').0 ∙ k) in
        let drained : is_empty (drained_from (lenders_of a.flash_loans) os) ≡ false =
          sym (is_empty-one_finding _ 40 (reason a) _) ∙ (ap is_empty e ∙ some_) in
        rw (← e, ← e')
          (one_finding-IsPair _ _ _ _ _ os drained
            (nonempty_of_drained (lenders_of a.flash_loans) os drained))
  ]
