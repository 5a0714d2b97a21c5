-- ===== src/Firewall/Decision/Hits.antt =====
-- The rule on sanctioned addresses over the list and the oracle, where the answers do not change
-- meanwhile (internal/sanctions/any.go, internal/rules/sanctioned.go).
use mathlib.Core.Path.{subst}
use tx_firewall.Base.{
  Bool, true, false, Option, none, some, List, [], ◌∷◌, ◌++◌, map, keep, ◌≡◌, refl, Result, ok, err,
  ok-injective, ◌||◌, any, sum_by, arith, Bool-cases, inl, inr, append-nil, if◌then◌else◌,
}
use tx_firewall.Base.Exec.{Exec, pure, ◌>>=◌, Returns, Returns-bind, Returns-pure, Returns-on_error}
use tx_firewall.Geth.{Geth, Address}
use tx_firewall.Analysis.{Analysis}
use tx_firewall.Sanctions.{Checker}
use tx_firewall.Sanctions.Listed.{ListChecker, list_checker, is_listed}
use tx_firewall.Sanctions.Any.{any_checker, or_else}
use tx_firewall.Rules.{Finding}
use tx_firewall.Rules.Sanctioned
use tx_firewall.Rules.Sanctioned.Hits.{grown}
use tx_firewall.Rules.Sanctioned.{finding_for, check_all}
use tx_firewall.Firewall.{checkers}
use tx_firewall.Risk.Blocking.{total, any_hard}
use tx_firewall.Firewall.Decision.Found.{Adds}
use tx_firewall.Firewall.Decision.{Answers, is_sanctioned}

total-map : (g : Geth) (xs : List Address) → total (map (finding_for g) xs) ≡ 0
unfolding finding_for sum_by
total-map g [] = refl
total-map g (x ∷ xs) = omega (arith, total-map g xs)

any_hard-map :
    (g : Geth) (s : Address → Bool) (xs : List Address)
    → any_hard (map (finding_for g) (keep s xs)) ≡ any s xs
unfolding finding_for
any_hard-map g s [] = refl
any_hard-map g s (x ∷ xs) = elim (Bool-cases (s x)) [
  | inl hit ↦ rw hit
  | inr clean ↦ rw clean (any_hard-map g s xs)
]

module _ {W : Type 0} (P : W → Type 0) where
  -- The oracle that newScreener adds to the list, if any, always answers.
  abbrev pub Flags : Option (Result (Checker W)) → (Address → Bool) → Type 0
  Flags none flagged = (x : Address) → flagged x ≡ false
  Flags (some (ok c)) flagged = (x : Address) → Returns P (c x) (ok (flagged x))
  Flags (some (err e)) flagged = Unit

  or_else-Returns :
      (rest : Exec W Bool) (b r : Bool)
      → Returns P rest (ok r)
      → Returns P (or_else rest b) (ok (b || r))
  or_else-Returns rest true r h = Returns-pure true
  or_else-Returns rest false r h = h

  last-Returns : (b : Bool) → Returns P (or_else (pure false) b) (ok b)
  last-Returns true = Returns-pure true
  last-Returns false = Returns-pure false

  pub any_checker-Returns :
      (list : ListChecker) (oracle : Option (Result (Checker W))) (known : Answers)
      (cs : List (Checker W)) (x : Address)
      → Flags oracle known.flagged
      → checkers list oracle ≡ ok cs
      → Returns P (any_checker cs x) (ok (is_sanctioned known list x))
  unfolding checkers any_checker list_checker is_listed
  any_checker-Returns list none known cs x h made = rw (← ok-injective made) (
      Returns-bind (pure (is_listed list x)) (or_else (pure false)) (is_listed list x)
        (Returns-pure _)
        (or_else-Returns (pure false) _ (known.flagged x) (rw (h x) (Returns-pure false))))
  any_checker-Returns list (some (ok c)) known cs x h made = rw (← ok-injective made) (
      Returns-bind (pure (is_listed list x)) (or_else (c x >>= or_else (pure false)))
        (is_listed list x) (Returns-pure _)
        (or_else-Returns (c x >>= or_else (pure false)) _ (known.flagged x) (
          Returns-bind (c x) (or_else (pure false)) (known.flagged x) (h x)
            (last-Returns (known.flagged x)))))
  any_checker-Returns list (some (err e)) known cs x h made = cc

module _ (g : Geth) {W : Type 0} (P : W → Type 0) (checker : Checker W) (s : Address → Bool)
    (answers : (x : Address) → Returns P (checker x) (ok (s x))) where
  check_all-Returns :
      (fs : List Finding) (addrs : List Address)
      → Returns P (check_all g checker fs addrs) (ok (fs ++ map (finding_for g) (keep s addrs)))
  unfolding check_all
  check_all-Returns fs [] = rw append-nil (Returns-pure fs)
  check_all-Returns fs (x ∷ xs) =
      let more = if s x then fs ++ finding_for g x ∷ [] else fs in
      Returns-bind _ _ (s x) (Returns-on_error _ (checker x) (s x) (answers x)) (
        subst (λ l. Returns P (check_all g checker more xs) (ok l))
          (grown g checker fs x (s x) (keep s xs)) (check_all-Returns more xs))

  pub sanctioned-Adds :
      (a : Analysis) → Adds P 0 (any s a.addresses) ((Sanctioned.rule g checker).evaluate a)
  unfolding Sanctioned.rule
  sanctioned-Adds a =
      (_, check_all-Returns [] a.addresses, total-map g _, any_hard-map g s a.addresses)
