-- ===== src/Chainstate/Known/Steady.antt =====
-- The freshness cache before a node that keeps to its answers (internal/chainstate/chainstate.go).
use tx_firewall.Base.{
  ℕ, true, List, [], ◌∷◌, ◌≡◌, refl, ok, arith, ◌==◌, ==_iff, contains, Bool-cases, inl, inr, All,
}
use tx_firewall.Base.Exec.{pure, Returns, Returns-bind, Returns-pure}
use tx_firewall.Geth.{Address}
use tx_firewall.Chainstate.{Status, no_code, fresh, established, StatusReader, is_fresh}
use tx_firewall.Chainstate.Known.{learn, remember, cached_status, cached_is_fresh}

module _ (st : Address → Status) where
  -- Only established contracts are remembered.
  abbrev pub AllKnown : List Address → Type 0
  AllKnown = All (λ a. st a ≡ established)

  pub AllKnown-contains :
      (addr : Address) (known : List Address)
      → AllKnown known
      → contains addr known ≡ true
      → st addr ≡ established
  AllKnown-contains addr [] h c = cc
  AllKnown-contains addr (a ∷ as_) (p, h) c = elim (Bool-cases (a == addr)) [
    | inl same ↦ let e : a ≡ addr = (==_iff a addr).0 same in rw (← e) p
    | inr other ↦ AllKnown-contains addr as_ h (ground arith)
  ]

  pub AllKnown-learn :
      (max_entries : ℕ) (addr : Address) (known : List Address)
      → st addr ≡ established
      → AllKnown known
      → AllKnown (learn max_entries addr known)
  unfolding learn
  AllKnown-learn max_entries addr known p h = ground arith

  module _ (max_entries : ℕ) {W : Type 0} {Q : W → Type 0} (next : StatusReader W)
      (answers : (x : Address) → Returns Q (next x) (ok (st x))) where
    -- What is remembered is right, and the node keeps to its answers.
    abbrev pub IsSteady : List Address × W → Type 0
    IsSteady s = AllKnown s.0 × Q s.1

    remember-IsSteady :
        (addr : Address) (known : List Address) (s : Status) (w : W)
        → s ≡ st addr
        → AllKnown known
        → Q w
        → ((remember max_entries next addr known (ok s) w).0 ≡ ok s)
          × IsSteady (remember max_entries next addr known (ok s) w).1
    unfolding remember
    remember-IsSteady addr known no_code w e h q = (refl, (h, q))
    remember-IsSteady addr known fresh w e h q = (refl, (h, q))
    remember-IsSteady addr known established w e h q =
        (refl, (AllKnown-learn max_entries addr known (rw (← e) refl) h, q))

    pub cached_status-Returns :
        (addr : Address) → Returns IsSteady (cached_status max_entries next addr) (ok (st addr))
    unfolding cached_status
    cached_status-Returns addr = record {
      at = λ (known, w) (h, q). elim (Bool-cases (contains addr known)) [
        | inl here ↦ rw (here, AllKnown-contains addr known h here) (refl, (h, q))
        | inr absent ↦
            let (e, q') = (answers addr).at w q in
            rw (absent, e) (remember-IsSteady addr known (st addr) (next addr w).1 refl h q')
      ];
    }

    pub cached_is_fresh-Returns :
        (addr : Address)
        → Returns IsSteady (cached_is_fresh max_entries next addr) (ok (is_fresh (st addr)))
    unfolding cached_is_fresh
    cached_is_fresh-Returns addr =
        Returns-bind (cached_status max_entries next addr) (λ s. pure (is_fresh s)) (st addr)
          (cached_status-Returns addr) (Returns-pure (is_fresh (st addr)))
