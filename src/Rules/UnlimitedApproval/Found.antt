-- ===== src/Rules/UnlimitedApproval/Found.antt =====
-- What the rule on unlimited approvals finds, where the node's answers do not change meanwhile.
use mathlib.Core.Path.{subst}
use tx_firewall.Base.{
  String, Bool, true, false, Option, none, some, List, [], ◌∷◌, ◌++◌, map, ◌≡◌, refl, ap, ok, ◌&&◌,
  ltb, ◌^◌, not, concat, join, keep, if◌then◌else◌, Bool-cases, Option-cases, inl, inr,
  append_assoc, append-nil, ◌==◌, ==_iff,
}
use tx_firewall.Base.Exec.{Returns, Returns-bind, Returns-pure}
use tx_firewall.Geth.{Geth, Address}
use tx_firewall.Analysis.{Analysis}
use tx_firewall.Events.Approval.{Approval}
use tx_firewall.Chainstate.{FreshnessChecker}
use tx_firewall.Rules.One.{reported, one_finding-reported}
use tx_firewall.Rules.Fresh.{is_fresh}
use tx_firewall.Rules.Fresh.Answers.{is_new, is_fresh-Returns}
use tx_firewall.Rules.UnlimitedApproval.{
  unlimited_amount, get_answer, describe, find_approvals, evaluate,
}

abbrev pub Recalls {ℓ} : {V : Type ℓ} → Option V → V → Type ℓ
Recalls none v = Unit
Recalls (some u) v = u ≡ v

-- What the map remembers of an address is right.
abbrev pub IsRight {ℓ} : {V : Type ℓ} → (Address → V) → List (Address × V) → Type ℓ
IsRight f checked = (x : Address) → Recalls (get_answer x checked) (f x)

pub IsRight-cons {ℓ} :
    {V : Type ℓ} (f : Address → V) (checked : List (Address × V)) (addr : Address)
    → IsRight f checked
    → IsRight f ((addr, f addr) ∷ checked)
unfolding get_answer
IsRight-cons f checked addr h x = elim (Bool-cases (addr == x)) [
  | inl same ↦ rw same (ap f ((==_iff addr x).0 same))
  | inr other ↦ rw other (h x)
]

-- The approval is unlimited and its spender new.
abbrev pub is_risky : (Address → Bool) → Analysis → Approval → Bool
is_risky f a ap = not (ltb ap.amount (2 ^ 128)) && is_new f a ap.spender

-- How an approval is reported.
abbrev pub announcement : Geth → Approval → String
announcement g ap =
    concat ("token " ∷ g.address_hex ap.token ∷ " to " ∷ g.address_hex ap.spender ∷ [])

module _ (g : Geth) {W : Type 0} {P : W → Type 0} (fresh : FreshnessChecker W) (f : Address → Bool)
    (answers : (x : Address) → Returns P (fresh x) (ok (f x))) (a : Analysis) where
  add :
      (acc : List String) (ap : Approval) (aps : List Approval) (hit : Bool)
      → (if hit then acc ++ describe g fresh ap ∷ [] else acc) ++ map (describe g fresh) aps
        ≡ acc ++ map (describe g fresh) (if hit then ap ∷ aps else aps)
  add acc ap aps true = append_assoc acc _ _
  add acc ap aps false = refl

  abbrev grown : List String → Approval → List String
  grown acc ap = if is_new f a ap.spender then acc ++ describe g fresh ap ∷ [] else acc

  -- A round on an unlimited approval, by what the rest of the loop returns.
  step-Returns :
      (checked : List (Address × Bool)) (acc : List String) (ap : Approval) (aps : List Approval)
      → Returns P
          (find_approvals g fresh a checked (grown acc ap) aps)
          (ok (grown acc ap ++ map (describe g fresh) (keep (is_risky f a) aps)))
      → Returns P (find_approvals g fresh a checked (grown acc ap) aps) (
          ok (
            acc
            ++ map (describe g fresh) (
                if is_new f a ap.spender
                then ap ∷ keep (is_risky f a) aps
                else keep (is_risky f a) aps)))
  step-Returns checked acc ap aps h =
      subst (λ l. Returns P (find_approvals g fresh a checked (grown acc ap) aps) (ok l))
        (add acc ap (keep (is_risky f a) aps) (is_new f a ap.spender)) h

  find_approvals-Returns :
      (checked : List (Address × Bool)) (acc : List String) (aps : List Approval)
      → IsRight (is_new f a) checked
      → Returns P
          (find_approvals g fresh a checked acc aps)
          (ok (acc ++ map (describe g fresh) (keep (is_risky f a) aps)))
  unfolding find_approvals
  find_approvals-Returns checked acc [] h = rw append-nil (Returns-pure acc)
  find_approvals-Returns checked acc (ap ∷ aps) h =
      elim (Bool-cases (ltb ap.amount unlimited_amount)) [
        | inl small ↦ rw small (find_approvals-Returns checked acc aps h)
        | inr large ↦ elim (Option-cases (get_answer ap.spender checked)) [
          | inr (hit, known) ↦
              let right : hit ≡ is_new f a ap.spender = rw known at (h ap.spender) in
              rw (large, known, right)
                (step-Returns checked acc ap aps
                  (find_approvals-Returns checked (grown acc ap) aps h))
          | inl absent ↦
              rw (large, absent)
                (Returns-bind (is_fresh g fresh a ap.spender) _ (is_new f a ap.spender)
                  (is_fresh-Returns g fresh f a ap.spender (answers ap.spender))
                  (step-Returns _ acc ap aps (
                    find_approvals-Returns ((ap.spender, is_new f a ap.spender) ∷ checked)
                      (grown acc ap) aps (IsRight-cons (is_new f a) checked ap.spender h))))
        ]
      ]

  -- As long as the node calls an address always fresh or always not, the rule gives no error, and
  -- reports exactly the approvals of at least the unlimited amount to a spender that is fresh or
  -- that the transaction created, in order, as one finding of medium weight if there are any.
  pub evaluate_approvals :
      (w : W)
      → P w
      → ((evaluate g fresh a w).0
          ≡ ok (
              reported "unlimited-approval-to-fresh-contract" 20
                (λ parts.
                  concat
                    ("unlimited approval to recently deployed contract: " ∷ join ", " parts ∷ []))
                (map (announcement g) (keep (is_risky f a) a.approvals))))
        × P (evaluate g fresh a w).1
  unfolding evaluate get_answer describe
  evaluate_approvals w p = rw (← one_finding-reported) (
      (Returns-bind (find_approvals g fresh a [] [] a.approvals) _ _
          (find_approvals-Returns [] [] a.approvals (λ x. tt)) (Returns-pure _)).at
        w p)
