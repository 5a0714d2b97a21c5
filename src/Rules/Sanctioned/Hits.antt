-- ===== src/Rules/Sanctioned/Hits.antt =====
-- What the rule on sanctioned addresses finds.
use tx_firewall.Base.{
  err-ne-ok, ok-injective, Bool, true, false, List, [], ◌∷◌, ◌++◌, map, ◌≡◌, refl, sym, ◌∙◌, ok,
  Result-cases, inl, inr, append_assoc, append-nil, if◌then◌else◌,
}
use tx_firewall.Geth.{Geth, Address}
use tx_firewall.Analysis.{Analysis}
use tx_firewall.Sanctions.{Checker}
use tx_firewall.Rules.{Finding}
use tx_firewall.Rules.Sanctioned.{finding_for, check_all, rule}

module _ (g : Geth) {W : Type 0} (checker : Checker W) where
  -- Every address was checked in turn, without an error, and these are the hits.
  abbrev pub Checked : List Address → W → List Address → W → Type 0
  Checked [] w hits w' = (hits ≡ []) × (w' ≡ w)
  Checked (a ∷ as_) w hits w' =
      (hit : Bool) × (later : List Address) × (w₁ : W) × (checker a w ≡ (ok hit, w₁))
      × (hits ≡ (if hit then a ∷ later else later))
      × Checked as_ w₁ later w'

  pub grown :
      (fs : List Finding) (a : Address) (hit : Bool) (later : List Address)
      → (if hit then fs ++ finding_for g a ∷ [] else fs) ++ map (finding_for g) later
        ≡ fs ++ map (finding_for g) (if hit then a ∷ later else later)
  grown fs a true later = append_assoc fs _ _
  grown fs a false later = refl

  check_all-Checked :
      (fs : List Finding) (addrs : List Address) (w : W) {found : List Finding}
      → (check_all g checker fs addrs w).0 ≡ ok found
      → (hits : List Address) × Checked addrs w hits (check_all g checker fs addrs w).1
        × (found ≡ fs ++ map (finding_for g) hits)
  unfolding check_all
  check_all-Checked fs [] w h = ([], (refl, refl), sym (ok-injective h) ∙ sym (append-nil fs))
  check_all-Checked fs (a ∷ as_) w {found} h = elim (Result-cases (checker a w).0) [
    | inl (hit, p) ↦
        let fs' = if hit then fs ++ finding_for g a ∷ [] else fs in
        let w₁ = (checker a w).1 in
        let (later, more, e) = check_all-Checked fs' as_ w₁ {found = found} (rw p at h) in
        (
          if hit then a ∷ later else later,
          (hit, later, w₁, (λ i. (p i, w₁)), refl, rw p more),
          e ∙ grown fs a hit later,
        )
    | inr (e, p) ↦ absurd (err-ne-ok (rw p at h))
  ]

  -- If the rule gives findings, then the checker answered for every address of the analysis, in
  -- their order and without an error, and there is one finding for each address that it hit.
  pub evaluate-Checked :
      (a : Analysis) (w : W) (found : List Finding)
      → ((rule g checker).evaluate a w).0 ≡ ok found
      → (hits : List Address) × Checked a.addresses w hits ((rule g checker).evaluate a w).1
        × (found ≡ map (finding_for g) hits)
  unfolding rule
  evaluate-Checked a w found h = check_all-Checked [] a.addresses w h
