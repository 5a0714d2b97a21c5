-- ===== src/Firewall/Decision/Found.antt =====
-- What each rule adds to the score, where the answers do not change meanwhile (internal/rules).
use tx_firewall.Base.{
  some, ℕ, ◌+◌, String, Bool, true, false, List, [], ◌∷◌, ◌++◌, map, keep, ◌≡◌, refl, sym, ap, ◌∙◌,
  ok, not, ◌||◌, any, sum_by, sum_by-append, any-append, is_empty, contains, arith, Bool-cases, inl,
  inr, ◌==◌, ==_iff,
}
use tx_firewall.Base.Exec.{Exec, Returns}
use tx_firewall.Geth.{Geth, Address}
use tx_firewall.Analysis.{Analysis, build}
use tx_firewall.Analysis.Loans.{FlashLoan, lenders_of}
use tx_firewall.Analysis.Frames.{Frame}
use tx_firewall.Rules.One.{reported, one_finding-reported}
use tx_firewall.Rules.{Finding, Rule, one_finding}
use tx_firewall.Rules.Outflows.{Outflow}
use tx_firewall.Rules.FlashLoanOutflow.{drained_from}
use tx_firewall.Rules.DeployAndCall.{scan, no_scan}
use tx_firewall.Rules.DeployAndCall.Found.{any_hit, called-any_hit}
use tx_firewall.Rules.DeployAndCall.Deployed.{is_called, called-is_called}
use tx_firewall.TxDecode.{Decoded}
use tx_firewall.Simulate.{CallFrame}
use tx_firewall.Risk.Blocking.{total, any_hard, Runs}
use tx_firewall.Firewall.Decision.{worth}

pub is_empty-map : {A B : Type 0} (f : A → B) (xs : List A) → is_empty (map f xs) ≡ is_empty xs
is_empty-map f [] = refl
is_empty-map f (x ∷ xs) = refl

pub is_empty-keep :
    {A : Type 0} (p : A → Bool) (xs : List A) → is_empty (keep p xs) ≡ not (any p xs)
is_empty-keep p [] = refl
is_empty-keep p (x ∷ xs) = elim (Bool-cases (p x)) [
  | inl kept ↦ rw kept
  | inr dropped ↦ rw dropped (is_empty-keep p xs)
]

lenders_of-map : (ls : List FlashLoan) → lenders_of ls ≡ map (λ l. l.lender) ls
unfolding lenders_of
lenders_of-map [] = refl
lenders_of-map (l ∷ ls) = ap (◌∷◌ l.lender) (lenders_of-map ls)

is_empty-drained_from :
    (lenders : List Address) (os : List Outflow)
    → is_empty (drained_from lenders os) ≡ not (any (λ o. not (contains o.holder lenders)) os)
unfolding drained_from
is_empty-drained_from lenders [] = refl
is_empty-drained_from lenders (o ∷ os) = elim (Bool-cases (contains o.holder lenders)) [
  | inl lends ↦ rw lends (is_empty-drained_from lenders os)
  | inr other ↦ rw other
]

any-none :
    (p : Address → Bool) (fs : List Frame)
    → ((x : Address) → p x ≡ false)
    → any (λ f. p f.to) fs ≡ false
any-none p [] h = refl
any-none p (f ∷ fs) h = rw (h f.to) (any-none p fs h)

contains-head : (x : Address) (xs : List Address) → contains x (x ∷ xs) ≡ true
contains-head x xs = ground arith

any_hit-any :
    (a : Analysis) (x : Address) (p : Address → Bool) (before fs : List Frame)
    → p x ≡ true
    → any_hit a x before fs ≡ true
    → any (λ f. p f.to) fs ≡ true
any_hit-any a x p before [] h hit = cc
any_hit-any a x p before (f ∷ fs) h hit = elim (Bool-cases (f.to == x)) [
  | inl same ↦ rw ((==_iff f.to x).0 same, h)
  | inr other ↦ ground (arith, any_hit-any a x p (before ++ f ∷ []) fs h)
]

pub is_empty-drained :
    (ls : List FlashLoan) (os : List Outflow)
    → is_empty (drained_from (lenders_of ls) os)
      ≡ not (any (λ o. not (contains o.holder (map (λ l. l.lender) ls))) os)
is_empty-drained ls os =
    is_empty-drained_from (lenders_of ls) os
    ∙ ap (λ x. not (any (λ o. not (contains o.holder x)) os)) (lenders_of-map ls)

-- A list of targets is empty exactly if the test for its members fails on all frames.
is_empty-any :
    (p : Address → Bool) (xs : List Address) (fs : List Frame)
    → ((x : Address) → contains x xs ≡ p x)
    → ((x : Address) → p x ≡ true → any (λ f. p f.to) fs ≡ true)
    → is_empty xs ≡ not (any (λ f. p f.to) fs)
is_empty-any p [] fs same among = rw (any-none p fs (λ x. sym (same x)))
is_empty-any p (x ∷ xs) fs same among = rw (among x (sym (same x) ∙ contains-head x xs))

pub is_empty-called :
    (g : Geth) (d : Decoded) (t : CallFrame)
    → is_empty (scan (build g d (some t)) 0 (build g d (some t)).frames no_scan).called
      ≡ not (any (λ f. is_called f.to false t) (build g d (some t)).frames)
is_empty-called g d t =
    let a = build g d (some t) in
    is_empty-any (λ x. is_called x false t) (scan a 0 a.frames no_scan).called a.frames
      (called-is_called g d t)
      (λ x called.
        any_hit-any a x (λ y. is_called y false t) [] a.frames called
          (sym (called-any_hit a x) ∙ (called-is_called g d t x ∙ called)))

module _ {W : Type 0} (P : W → Type 0) where
  -- From a state in which `P` holds, the rule gives findings that weigh `n`, hard blocks among
  -- them or not.
  abbrev pub Adds : ℕ → Bool → Exec W (List Finding) → Type 0
  Adds n hard m = (fs : List Finding) × Returns P m (ok fs) × (total fs ≡ n) × (any_hard fs ≡ hard)

  pub one_finding-Adds :
      {A : Type 0} (m : Exec W (List Finding)) (rule : String) (n : ℕ) (reason : List A → String)
      (xs : List A) (b : Bool)
      → Returns P m (ok (one_finding rule n reason xs))
      → is_empty xs ≡ not b
      → Adds (worth b n) false m
  unfolding one_finding sum_by
  one_finding-Adds m rule n reason [] true h e = cc
  one_finding-Adds m rule n reason [] false h e = ([], h, refl, refl)
  one_finding-Adds m rule n reason (x ∷ xs) true h e = (_, h, omega arith, refl)
  one_finding-Adds m rule n reason (x ∷ xs) false h e = cc

  pub reported-Adds :
      {A : Type 0} (m : Exec W (List Finding)) (rule : String) (n : ℕ) (reason : List A → String)
      (xs : List A) (b : Bool)
      → Returns P m (ok (reported rule n reason xs))
      → is_empty xs ≡ not b
      → Adds (worth b n) false m
  reported-Adds m rule n reason xs b h e =
      one_finding-Adds m rule n reason xs b (rw one_finding-reported h) e

  -- The weighted rules and what they add.
  abbrev pub AllAdd : Analysis → List ℕ → List (Rule W) → Type 0
  AllAdd a [] [] = Unit
  AllAdd a (n ∷ ns) (r ∷ rs) = Adds n false (r.evaluate a) × AllAdd a ns rs
  AllAdd a _ _ = ⊥

  abbrev pub RunTo : Analysis → List (Rule W) → W → ℕ → Bool → Type 0
  RunTo a rs w n hard =
      (fs : List Finding) × (w' : W) × Runs a rs w fs w'
      × (total fs ≡ n)
      × (any_hard fs ≡ hard)
      × P w'

  pub cons-RunTo :
      (a : Analysis) (r : Rule W) (rs : List (Rule W)) (n m : ℕ) (h k : Bool) (w : W)
      → Adds n h (r.evaluate a)
      → P w
      → ((w' : W) → P w' → RunTo a rs w' m k)
      → RunTo a (r ∷ rs) w (n + m) (h || k)
  cons-RunTo a r rs n m h k w (here, gives, weighs, hard) p more =
      let (e, p') = gives.at w p in
      let w₁ = (r.evaluate a w).1 in
      let (later, w', runs, weighs', hard', q) = more w₁ p' in
      (
        here ++ later,
        w',
        (here, later, w₁, (λ i. (e i, w₁)), refl, runs),
        sum_by-append (λ f. f.weight) here later ∙ rw (weighs, weighs'),
        any-append (λ f. f.hard_block) here later ∙ rw (hard, hard'),
        q,
      )

  pub AllAdd-RunTo :
      (a : Analysis) (ns : List ℕ) (rs : List (Rule W)) (w : W)
      → AllAdd a ns rs
      → P w
      → RunTo a rs w (sum_by (λ n. n) ns) false
  unfolding sum_by
  AllAdd-RunTo a [] [] w h p = ([], w, (refl, refl), refl, refl, p)
  AllAdd-RunTo a [] (r ∷ rs) w h p = absurd h
  AllAdd-RunTo a (n ∷ ns) [] w h p = absurd h
  AllAdd-RunTo a (n ∷ ns) (r ∷ rs) w (h, hs) p =
      cons-RunTo a r rs n _ false false w h p (λ w' q. AllAdd-RunTo a ns rs w' hs q)
