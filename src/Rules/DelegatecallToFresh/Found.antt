-- ===== src/Rules/DelegatecallToFresh/Found.antt =====
-- When the rule on delegated calls finds something, where the node's answers do not change
-- meanwhile.
use tx_firewall.Base.{
  str_eq, String, Bool, true, false, List, [], ◌∷◌, ◌++◌, ◌≡◌, refl, ◌∙◌, ok, ◌&&◌, ◌||◌, not, any,
  contains, is_empty, if◌then◌else◌, arith, Bool-cases, inl, inr, ◌==◌, ==_iff,
}
use tx_firewall.Base.Exec.{Returns, Returns-bind, Returns-pure}
use tx_firewall.Geth.{Geth, Address}
use tx_firewall.Analysis.{Analysis}
use tx_firewall.Analysis.Frames.{Frame}
use tx_firewall.Chainstate.{FreshnessChecker}
use tx_firewall.Rules.One.{is_empty-one_finding}
use tx_firewall.Rules.{Finding}
use tx_firewall.Rules.Fresh.{is_fresh}
use tx_firewall.Rules.Fresh.Answers.{is_new, is_fresh-Returns}
use tx_firewall.Rules.DelegatecallToFresh.{is_delegate, find_targets, evaluate}

is_empty-concat : (xs : List String) (x : String) → is_empty (xs ++ x ∷ []) ≡ false
is_empty-concat [] x = refl
is_empty-concat (y ∷ ys) x = refl

any_of_contains :
    (f : Address → Bool) (x : Address) (xs : List Address)
    → contains x xs ≡ true
    → f x ≡ true
    → any f xs ≡ true
any_of_contains f x [] h e = cc
any_of_contains f x (y ∷ ys) h e = elim (Bool-cases (y == x)) [
  | inl same ↦ let p : y ≡ x = (==_iff y x).0 same in rw (p, e)
  | inr other ↦ ground (arith, any_of_contains f x ys)
]

-- A call that runs the code of its target on the storage of its caller.
abbrev pub runs_here : String → Bool
runs_here type = any (str_eq type) ("DELEGATECALL" ∷ "CALLCODE" ∷ [])

is_delegate-runs_here : (fr : Frame) → is_delegate fr ≡ runs_here fr.type
unfolding is_delegate
is_delegate-runs_here fr = ground arith

-- A delegated call of new code.
abbrev pub is_risky : (Address → Bool) → Analysis → Frame → Bool
is_risky f a fr = runs_here fr.type && is_new f a fr.to

module _ (g : Geth) {W : Type 0} {P : W → Type 0} (fresh : FreshnessChecker W) (f : Address → Bool)
    (answers : (x : Address) → Returns P (fresh x) (ok (f x))) (a : Analysis) where
  -- If a target that was checked is new, there is one already.
  abbrev pub IsNoted : List Address → List String → Type 0
  IsNoted checked targets = any (is_new f a) checked ≡ true → is_empty targets ≡ false

  -- The loop finds something, or did so before, exactly if a frame is risky.
  abbrev pub Finds : List Address → List String → List Frame → Type 0
  Finds checked targets fs =
      (found : List String) × Returns P (find_targets g fresh a checked targets fs) (ok found)
      × (is_empty found ≡ (is_empty targets && not (any (is_risky f a) fs)))

  abbrev grown : List String → Frame → List String
  grown targets fr = if is_new f a fr.to then targets ++ g.address_hex fr.to ∷ [] else targets

  is_empty-grown :
      (targets : List String) (fr : Frame)
      → is_empty (grown targets fr) ≡ (is_empty targets && not (is_new f a fr.to))
  is_empty-grown targets fr = elim (Bool-cases (is_new f a fr.to)) [
    | inl new ↦ rw new (ground (arith, is_empty-concat targets (g.address_hex fr.to)))
    | inr old ↦ rw old (ground arith)
  ]

  IsNoted-cons :
      (checked : List Address) (targets : List String) (fr : Frame)
      → IsNoted checked targets
      → IsNoted (fr.to ∷ checked) (grown targets fr)
  IsNoted-cons checked targets fr h = λ new. ground (arith, is_empty-grown targets fr, h)

  pub find_targets-Finds :
      (checked : List Address) (targets : List String) (fs : List Frame)
      → IsNoted checked targets
      → Finds checked targets fs
  unfolding find_targets
  find_targets-Finds checked targets [] h = (targets, Returns-pure targets, ground arith)
  find_targets-Finds checked targets (fr ∷ fs) h =
      elim (Bool-cases (not (runs_here fr.type) || contains fr.to checked)) [
        | inl skip ↦
            let (found, k, e) = find_targets-Finds checked targets fs h in
            (
              found,
              rw (is_delegate-runs_here fr, skip) k,
              ground (arith, e, any_of_contains (is_new f a) fr.to checked, h),
            )
        | inr check ↦
            let (found, k, e) =
              find_targets-Finds (fr.to ∷ checked) (grown targets fr) fs
                (IsNoted-cons checked targets fr h) in
            (
              found,
              rw (is_delegate-runs_here fr, check)
                  (Returns-bind (is_fresh g fresh a fr.to) _ (is_new f a fr.to)
                    (is_fresh-Returns g fresh f a fr.to (answers fr.to)) k),
              ground (arith, e, is_empty-grown targets fr),
            )
      ]

  -- As long as the node calls an address always fresh or always not, the rule gives no error, and
  -- it finds something exactly if a frame is a DELEGATECALL or CALLCODE of code that is fresh or
  -- that the transaction created, although it asks for each target once only.
  pub evaluate-Finds :
      (w : W)
      → P w
      → (fs : List Finding) × ((evaluate g fresh a w).0 ≡ ok fs)
        × (is_empty fs ≡ not (any (is_risky f a) a.frames))
        × P (evaluate g fresh a w).1
  unfolding evaluate
  evaluate-Finds w p =
      let (found, k, e) = find_targets-Finds [] [] a.frames (λ new. cc) in
      let (done, q) =
        (Returns-bind (find_targets g fresh a [] [] a.frames) _ found k (Returns-pure _)).at w p in
      (_, done, is_empty-one_finding _ _ _ found ∙ e, q)
