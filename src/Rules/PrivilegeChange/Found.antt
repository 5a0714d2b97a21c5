-- ===== src/Rules/PrivilegeChange/Found.antt =====
-- What the rule on privilege changes finds in a trace.
use tx_firewall.Base.{
  str_eq, if◌then◌else◌, String, Bool, some, List, [], ◌∷◌, ◌++◌, map, ◌≡◌, ◌∙◌, not, concat, join,
  keep, contains, append_assoc, append-nil, Bool-cases, inl, inr,
}
use tx_firewall.Geth.{Geth, Address}
use tx_firewall.TxDecode.{Decoded}
use tx_firewall.Simulate.{CallFrame}
use tx_firewall.Analysis.{Analysis, created_in_tx, build}
use tx_firewall.Analysis.Logged.{live_logs, decoded, on_log, build-logged}
use tx_firewall.Analysis.Created.{creations, build-created}
use tx_firewall.Events.Privilege.{PrivilegeChange, decode_privilege_change}
use tx_firewall.Rules.One.{reported, one_finding-reported}
use tx_firewall.Rules.PrivilegeChange.{describe, changes, evaluate}

-- How a change is reported.
abbrev pub announcement : Geth → PrivilegeChange → String
announcement g pc =
    let contract = g.address_hex pc.contract in
    let subject = g.address_hex pc.subject in
    if str_eq pc.kind "OwnershipTransferred"
    then concat ("ownership of " ∷ contract ∷ " transferred to " ∷ subject ∷ [])
    else if str_eq pc.kind "Upgraded"
    then concat (contract ∷ " upgraded to implementation " ∷ subject ∷ [])
    else if str_eq pc.kind "AdminChanged"
    then concat ("admin of " ∷ contract ∷ " changed to " ∷ subject ∷ [])
    else if str_eq pc.kind "RoleGranted"
    then concat ("role " ∷ g.hash_hex pc.role ∷ " on " ∷ contract ∷ " granted to " ∷ subject ∷ [])
    else concat (pc.kind ∷ " on " ∷ contract ∷ [])

module _ (g : Geth) where
  -- The change is of a contract that is none of those.
  abbrev pub is_old : List Address → PrivilegeChange → Bool
  is_old created pc = not (contains pc.contract created)

  pub changes-keep :
      (a : Analysis) (acc : List String) (pcs : List PrivilegeChange)
      → changes g a acc pcs ≡ acc ++ map (describe g) (keep (is_old a.created) pcs)
  unfolding changes created_in_tx
  changes-keep a acc [] = rw append-nil
  changes-keep a acc (pc ∷ pcs) = elim (Bool-cases (contains pc.contract a.created)) [
    | inl new_ ↦ rw new_ (changes-keep a acc pcs)
    | inr old ↦ rw old (changes-keep a (acc ++ describe g pc ∷ []) pcs ∙ append_assoc acc _ _)
  ]

  -- In a trace the rule finds exactly the privilege changes that the logs of the frames that are not
  -- rolled back announce, in order, of contracts that no such frame creates: one finding of high
  -- weight that describes them all, or none.
  pub evaluate_privileges :
      (d : Decoded) (t : CallFrame)
      → evaluate g (build g d (some t))
        ≡ reported "privilege-change" 40
            (λ parts. concat ("privilege change: " ∷ join ", " parts ∷ []))
            (map (announcement g) (
              keep
                (is_old (creations t))
                (decoded (on_log g decode_privilege_change) (live_logs t))))
  unfolding evaluate describe
  evaluate_privileges d t =
      rw (changes-keep, (build-logged g d t).3, build-created g d t) (one_finding-reported _ _ _ _)
