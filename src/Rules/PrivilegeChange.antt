-- ===== src/Rules/PrivilegeChange.antt =====
-- internal/rules/privilege.go.
pub mod Found
use tx_firewall.Base.{String, List, [], ◌∷◌, ◌++◌, concat, join, str_eq, if◌then◌else◌}
use tx_firewall.Base.Exec.{pure}
use tx_firewall.Geth.{Geth}
use tx_firewall.Analysis.{Analysis, created_in_tx}
use tx_firewall.Events.Privilege.{
  PrivilegeChange, ownership_transferred, upgraded, admin_changed, role_granted,
}
use tx_firewall.Rules.{Finding, Rule, weight_high, one_finding}

abbrev pub name : String
name = "privilege-change"

module _ (g : Geth) where
  open g use {address_hex, hash_hex}

  -- describePrivilegeChange
  unfoldable pub describe : PrivilegeChange → String
  describe pc =
      let contract = address_hex pc.contract in
      let subject = address_hex pc.subject in
      if str_eq pc.kind ownership_transferred
      then concat ("ownership of " ∷ contract ∷ " transferred to " ∷ subject ∷ [])
      else if str_eq pc.kind upgraded
      then concat (contract ∷ " upgraded to implementation " ∷ subject ∷ [])
      else if str_eq pc.kind admin_changed
      then concat ("admin of " ∷ contract ∷ " changed to " ∷ subject ∷ [])
      else if str_eq pc.kind role_granted
      then concat ("role " ∷ hash_hex pc.role ∷ " on " ∷ contract ∷ " granted to " ∷ subject ∷ [])
      else concat (pc.kind ∷ " on " ∷ contract ∷ [])

  -- The loop of Evaluate.
  unfoldable pub changes : Analysis → List String → List PrivilegeChange → List String
  changes a acc [] = acc
  changes a acc (pc ∷ pcs) =
      changes a (if created_in_tx a pc.contract then acc else acc ++ describe pc ∷ []) pcs

  unfoldable pub evaluate : Analysis → List Finding
  unfolding changes
  evaluate a =
      one_finding name weight_high (λ parts. concat ("privilege change: " ∷ join ", " parts ∷ []))
        (changes a [] a.privileged)

  unfoldable pub rule : {W : Type 0} → Rule W
  unfolding evaluate
  rule = record { name = name; evaluate = λ a. pure (evaluate a) }
