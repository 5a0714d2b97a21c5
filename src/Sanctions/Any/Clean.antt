-- ===== src/Sanctions/Any/Clean.antt =====
-- When several checkers together call an address clean.
use tx_firewall.Base.{
  err-ne-ok, true, false, List, [], ◌∷◌, ◌≡◌, sym, ap, ◌↔◌, ok, Result-cases, inl, inr,
}
use tx_firewall.Geth.{Address}
use tx_firewall.Sanctions.{Checker}
use tx_firewall.Sanctions.Any.{any_checker}

-- Each checker, asked in the state that the ones before it leave, answers that it is clean.
abbrev pub AllClean : {W : Type 0} → List (Checker W) → Address → W → W → Type 0
AllClean [] addr w w' = w' ≡ w
AllClean {W} (c ∷ cs) addr w w' = (w₁ : W) × (c addr w ≡ (ok false, w₁)) × AllClean cs addr w₁ w'

any_checker-AllClean :
    {W : Type 0} (cs : List (Checker W)) (addr : Address) (w w' : W)
    → any_checker cs addr w ≡ (ok false, w')
    → AllClean cs addr w w'
unfolding any_checker
any_checker-AllClean [] addr w w' h = sym (ap (λ x. x.1) h)
any_checker-AllClean (c ∷ cs) addr w w' h = elim (Result-cases (c addr w).0) [
  | inl (true, p) ↦ absurd (hit-ne-clean (ap (λ x. x.0) (rw p at h)))
  | inl (false, p) ↦
      ((c addr w).1, λ i. (p i, (c addr w).1), any_checker-AllClean cs addr _ w' (rw p at h))
  | inr (e, p) ↦ absurd (err-ne-ok (ap (λ x. x.0) (rw p at h)))
]
  where
    hit-ne-clean : ok true ≡ ok false → ⊥
    hit-ne-clean e = cc

AllClean-any_checker :
    {W : Type 0} (cs : List (Checker W)) (addr : Address) (w w' : W)
    → AllClean cs addr w w'
    → any_checker cs addr w ≡ (ok false, w')
unfolding any_checker
AllClean-any_checker [] addr w w' h = rw h
AllClean-any_checker (c ∷ cs) addr w w' (w₁, p, h) = rw p (AllClean-any_checker cs addr w₁ w' h)

-- Several checkers together answer that an address is clean exactly if each of them, asked in the
-- state that the ones before it leave, answers so: none is skipped, and an error is not clean.
pub any_checker-clean_iff :
    {W : Type 0} (cs : List (Checker W)) (addr : Address) (w w' : W)
    → (any_checker cs addr w ≡ (ok false, w')) ↔ AllClean cs addr w w'
any_checker-clean_iff cs addr w w' =
    (any_checker-AllClean cs addr w w', AllClean-any_checker cs addr w w')
