-- ===== src/Rules/DelegatecallToFresh.antt =====
-- internal/rules/delegatecall.go.
pub mod Found
use tx_firewall.Base.{
  String, Bool, List, [], ◌∷◌, ◌++◌, concat, join, not, ◌||◌, contains, str_eq, if◌then◌else◌,
}
use tx_firewall.Base.Exec.{Exec, ◌>>=◌, pure}
use tx_firewall.Geth.{Geth, Address}
use tx_firewall.Analysis.{Analysis}
use tx_firewall.Analysis.Frames.{Frame}
use tx_firewall.Chainstate.{FreshnessChecker}
use tx_firewall.Rules.{Finding, Rule, weight_medium, one_finding}
use tx_firewall.Rules.Fresh.{is_fresh}

abbrev pub name : String
name = "delegatecall-to-fresh-code"

-- The frame's type is one of the two that run code of `to` on the caller's storage.
unfoldable pub is_delegate : Frame → Bool
is_delegate f = str_eq f.type "DELEGATECALL" || str_eq f.type "CALLCODE"

module _ (g : Geth) {W : Type 0} (fresh : FreshnessChecker W) where
  open g use {address_hex}

  -- The loop of Evaluate, with its `continue`; `checked` holds the keys of the map.
  unfoldable pub find_targets :
      Analysis → List Address → List String → List Frame → Exec W (List String)
  find_targets a checked targets [] = pure targets
  find_targets a checked targets (f ∷ fs) =
      if not (is_delegate f) || contains f.to checked
      then find_targets a checked targets fs
      else is_fresh g fresh a f.to >>= λ hit.
          find_targets a (f.to ∷ checked)
            (if hit then targets ++ address_hex f.to ∷ [] else targets) fs

  unfoldable pub evaluate : Analysis → Exec W (List Finding)
  unfolding find_targets
  evaluate a = find_targets a [] [] a.frames >>= λ targets. pure (
      one_finding name weight_medium
        (λ parts. concat ("delegatecall into recently deployed code: " ∷ join ", " parts ∷ []))
        targets)

  unfoldable pub rule : Rule W
  unfolding evaluate
  rule = record { name = name; evaluate = evaluate }
