-- ===== src/Rules/DeployAndCall.antt =====
-- internal/rules/deploycall.go.
pub mod Found
pub mod Deployed
use tx_firewall.Base.{
  ℕ, ◌+◌, String, Bool, false, Option, none, some, List, [], ◌∷◌, ◌++◌, concat, join, not, ◌&&◌,
  leb, contains, ◌==◌, if◌then◌else◌,
}
use tx_firewall.Base.Exec.{pure}
use tx_firewall.Geth.{Geth, Address}
use tx_firewall.Analysis.{Analysis, subtree_end}
use tx_firewall.Analysis.Frames.{Frame, is_call, is_create}
use tx_firewall.Rules.{Finding, Rule, weight_medium, one_finding}

abbrev pub name : String
name = "deploy-and-call"

-- The local variables of Evaluate: the maps as association list and list of keys.
pub record Scan : Type 0 where
  pub deployed_at : List (Address × ℕ)
  pub reported : List Address
  pub called : List Address

unfoldable pub get_end : Address → List (Address × ℕ) → Option ℕ
get_end addr [] = none
get_end addr ((a, i) ∷ m) = if a == addr then some i else get_end addr m

-- `created && i >= end`
abbrev pub has_code_at : ℕ → Option ℕ → Bool
has_code_at i none = false
has_code_at i (some end) = leb end i

-- One round of the loop.
unfoldable pub visit : Analysis → ℕ → Frame → Scan → Scan
visit a i f s =
    if is_create f
    then elim (get_end f.to s.deployed_at) [
      | none ↦ record s { deployed_at = (f.to, subtree_end a i) ∷ s.deployed_at }
      | some end ↦ s
    ]
    else if is_call f
        && has_code_at i (get_end f.to s.deployed_at)
        && not (contains f.to s.reported)
    then record s { called = s.called ++ f.to ∷ []; reported = f.to ∷ s.reported }
    else s

unfoldable pub scan : Analysis → ℕ → List Frame → Scan → Scan
scan a i [] s = s
scan a i (f ∷ fs) s = scan a (i + 1) fs (visit a i f s)

abbrev pub no_scan : Scan
no_scan = record { deployed_at = []; reported = []; called = [] }

module _ (g : Geth) where
  open g use {address_hex}

  -- Addresses are listed by their text in the source.
  unfoldable pub hex_all : List Address → List String
  hex_all [] = []
  hex_all (a ∷ as_) = address_hex a ∷ hex_all as_

  unfoldable pub evaluate : Analysis → List Finding
  unfolding hex_all
  evaluate a =
      one_finding name weight_medium
        (λ called. concat (
          "contract deployed and called in the same transaction: "
          ∷ join ", " (hex_all called)
          ∷ []))
        (scan a 0 a.frames no_scan).called

  unfoldable pub rule : {W : Type 0} → Rule W
  unfolding evaluate
  rule = record { name = name; evaluate = λ a. pure (evaluate a) }
