-- ===== src/Sanctions/Any.antt =====
-- internal/sanctions/any.go: several checkers in order, up to the first hit or error.
pub mod Clean
use tx_firewall.Base.{Bool, true, false, List, [], ◌∷◌}
use tx_firewall.Base.Exec.{Exec, ◌>>=◌, pure}
use tx_firewall.Sanctions.{Checker}

-- `if hit { return true, nil }`, or the rest of the loop.
abbrev pub or_else : {W : Type 0} → Exec W Bool → Bool → Exec W Bool
or_else rest true = pure true
or_else rest false = rest

-- AnyChecker.IsSanctioned
unfoldable pub any_checker : {W : Type 0} → List (Checker W) → Checker W
any_checker [] addr = pure false
any_checker (checker ∷ rest) addr = checker addr >>= or_else (any_checker rest addr)
