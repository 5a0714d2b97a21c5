-- ===== src/Rules/NftDrainer/Found.antt =====
-- What the rule on approvals for all NFTs finds, where the node's answers do not change meanwhile.
use mathlib.Core.Path.{subst}
use tx_firewall.Base.{
  contains, ◌||◌, String, Bool, true, false, List, [], ◌∷◌, ◌++◌, map, ◌≡◌, refl, ap, ok, ◌&&◌, not,
  concat, join, keep, str_eq, if◌then◌else◌, Bool-cases, Option-cases, inl, inr, append_assoc,
  append-nil,
}
use tx_firewall.Base.Exec.{Exec, Returns, Returns-bind, Returns-pure}
use tx_firewall.Geth.{Geth, Address}
use tx_firewall.Analysis.{Analysis, created_in_tx}
use tx_firewall.Events.Approval.{ApprovalForAll}
use tx_firewall.Chainstate.{Status, no_code, fresh, established, StatusReader}
use tx_firewall.Rules.One.{reported, one_finding-reported}
use tx_firewall.Rules.UnlimitedApproval.{get_answer}
use tx_firewall.Rules.UnlimitedApproval.Found.{IsRight, IsRight-cons}
use tx_firewall.Rules.NftDrainer.{
  kind_of, operator_kind, describe, add_grant, find_grants, evaluate,
}

module _ (f : Address → Status) (a : Analysis) where
  -- An account without code, and code that is fresh; what the report calls them.
  abbrev pub is_suspicious : Status → Bool
  is_suspicious no_code = true
  is_suspicious fresh = true
  is_suspicious established = false

  abbrev pub label : Status → String
  label no_code = "EOA"
  label fresh = "recently deployed contract"
  label established = ""

  kind_of-label : (s : Status) → kind_of s ≡ label s
  kind_of-label no_code = refl
  kind_of-label fresh = refl
  kind_of-label established = refl

  -- What an operator is, if it is suspicious.
  abbrev pub kind : Address → String
  kind x = if contains x a.created then "recently deployed contract" else label (f x)

  -- The transaction created it, or it is suspicious.
  abbrev pub is_suspect : Address → Bool
  is_suspect x = contains x a.created || is_suspicious (f x)

  -- A grant to such an operator.
  abbrev pub is_grant : ApprovalForAll → Bool
  is_grant ap = ap.approved && is_suspect ap.operator

  label-suspicious : (s : Status) → not (str_eq (label s) "") ≡ is_suspicious s
  label-suspicious no_code = refl
  label-suspicious fresh = refl
  label-suspicious established = refl

  kind-suspicious : (x : Address) → not (str_eq (kind x) "") ≡ is_suspect x
  kind-suspicious x = elim (Bool-cases (contains x a.created)) [
    | inl here ↦ rw here refl
    | inr there ↦ rw there (label-suspicious (f x))
  ]

module _ (g : Geth) {W : Type 0} {P : W → Type 0} (status : StatusReader W) (f : Address → Status)
    (answers : (x : Address) → Returns P (status x) (ok (f x))) (a : Analysis) where
  operator_kind-Returns : (x : Address) → Returns P (operator_kind g status a x) (ok (kind f a x))
  unfolding operator_kind created_in_tx
  operator_kind-Returns x = elim (Bool-cases (contains x a.created)) [
    | inl here ↦ rw here (Returns-pure "recently deployed contract")
    | inr there ↦
        rw (there, ← kind_of-label f a (f x))
          (record { at = λ w p. let (e, q) = (answers x).at w p in (rw e refl, rw e q) })
  ]

  abbrev pub report : ApprovalForAll → String
  report ap = concat (
      "collection "
      ∷ g.address_hex ap.collection
      ∷ " to "
      ∷ kind f a ap.operator
      ∷ " "
      ∷ g.address_hex ap.operator
      ∷ [])

  abbrev grown : List String → ApprovalForAll → List String
  grown acc ap = add_grant g status acc ap (kind f a ap.operator)

  grown-append :
      (acc : List String) (ap : ApprovalForAll) (aps : List ApprovalForAll)
      → grown acc ap ++ map report aps
        ≡ acc ++ map report (if is_suspect f a ap.operator then ap ∷ aps else aps)
  unfolding add_grant describe
  grown-append acc ap aps = elim (Bool-cases (is_suspect f a ap.operator)) [
    | inl suspect ↦ rw (kind-suspicious f a ap.operator, suspect) (append_assoc acc _ _)
    | inr plain_ ↦ rw (kind-suspicious f a ap.operator, plain_)
  ]

  step-Returns :
      (kinds : List (Address × String)) (acc : List String) (ap : ApprovalForAll)
      (aps : List ApprovalForAll)
      → Returns P
          (find_grants g status a kinds (grown acc ap) aps)
          (ok (grown acc ap ++ map report (keep (is_grant f a) aps)))
      → Returns P (find_grants g status a kinds (grown acc ap) aps) (
          ok (
            acc
            ++ map report (
                if is_suspect f a ap.operator
                then ap ∷ keep (is_grant f a) aps
                else keep (is_grant f a) aps)))
  step-Returns kinds acc ap aps h =
      subst (λ l. Returns P (find_grants g status a kinds (grown acc ap) aps) (ok l))
        (grown-append acc ap (keep (is_grant f a) aps)) h

  if-Returns :
      (given suspicious : Bool) (skip go : Exec W (List String)) (acc : List String)
      (ap : ApprovalForAll) (aps : List ApprovalForAll)
      → Returns P skip (ok (acc ++ map report aps))
      → Returns P go (ok (acc ++ map report (if suspicious then ap ∷ aps else aps)))
      → Returns P
          (if not given then skip else go)
          (ok (acc ++ map report (if given && suspicious then ap ∷ aps else aps)))
  if-Returns true suspicious skip go acc ap aps h k = k
  if-Returns false suspicious skip go acc ap aps h k = h

  find_grants-Returns :
      (kinds : List (Address × String)) (acc : List String) (aps : List ApprovalForAll)
      → IsRight (kind f a) kinds
      → Returns P
          (find_grants g status a kinds acc aps)
          (ok (acc ++ map report (keep (is_grant f a) aps)))
  unfolding find_grants
  find_grants-Returns kinds acc [] h = rw append-nil (Returns-pure acc)
  find_grants-Returns kinds acc (ap ∷ aps) h =
      if-Returns ap.approved (is_suspect f a ap.operator) _ _ acc ap (keep (is_grant f a) aps)
        (find_grants-Returns kinds acc aps h)
        (elim (Option-cases (get_answer ap.operator kinds)) [
          | inr (k, known) ↦
              let right : k ≡ kind f a ap.operator = rw known at (h ap.operator) in
              rw (known, right)
                (step-Returns kinds acc ap aps (find_grants-Returns kinds (grown acc ap) aps h))
          | inl absent ↦
              let kinds' = (ap.operator, kind f a ap.operator) ∷ kinds in
              rw absent (
                Returns-bind (operator_kind g status a ap.operator) _ (kind f a ap.operator)
                  (operator_kind-Returns ap.operator)
                  (step-Returns kinds' acc ap aps (
                    find_grants-Returns ((ap.operator, kind f a ap.operator) ∷ kinds) (grown acc ap)
                      aps (IsRight-cons (kind f a) kinds ap.operator h))))
        ])

  -- As long as the node gives an address always the same status, the rule gives no error, and
  -- reports exactly the approvals for all that are given to an operator that has no code, is fresh
  -- or was created by the transaction, in order, as one finding of medium weight if there are any.
  pub evaluate_grants :
      (w : W)
      → P w
      → ((evaluate g status a w).0
          ≡ ok (
              reported "nft-drainer" 20
                (λ parts. concat ("approval for all NFTs: " ∷ join ", " parts ∷ []))
                (map report (keep (is_grant f a) a.approvals_for_all))))
        × P (evaluate g status a w).1
  unfolding evaluate get_answer
  evaluate_grants w p = rw (← one_finding-reported) (
      (Returns-bind (find_grants g status a [] [] a.approvals_for_all) _ _
          (find_grants-Returns [] [] a.approvals_for_all (λ x. tt)) (Returns-pure _)).at
        w p)
