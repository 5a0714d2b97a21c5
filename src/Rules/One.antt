-- ===== src/Rules/One.antt =====
-- internal/rules: the end that the weighted rules share.
use tx_firewall.Base.{ℕ, String, List, [], ◌∷◌, ◌≡◌, refl, is_empty, false, if◌then◌else◌}
use tx_firewall.Rules.{Finding, one_finding}

pub is_empty-one_finding :
    {A : Type 0} (rule : String) (n : ℕ) (reason : List A → String) (xs : List A)
    → is_empty (one_finding rule n reason xs) ≡ is_empty xs
unfolding one_finding
is_empty-one_finding rule n reason [] = refl
is_empty-one_finding rule n reason (x ∷ xs) = refl

-- What a weighted rule reports of what it found: nothing, or one finding with the weight that gives
-- all of it as the reason.
unfoldable pub reported : {A : Type 0} → String → ℕ → (List A → String) → List A → List Finding
reported rule n reason xs =
    if is_empty xs
    then []
    else record { rule = rule; hard_block = false; weight = n; reason = reason xs } ∷ []

pub one_finding-reported :
    {A : Type 0} (rule : String) (n : ℕ) (reason : List A → String) (xs : List A)
    → one_finding rule n reason xs ≡ reported rule n reason xs
unfolding one_finding reported
one_finding-reported rule n reason [] = refl
one_finding-reported rule n reason (x ∷ xs) = refl
