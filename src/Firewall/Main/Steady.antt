-- ===== src/Firewall/Main/Steady.antt =====
-- The parts that main puts together before a node and an oracle that keep to their answers: the
-- caches change nothing (cmd/firewall/main.go).
use mathlib.Core.Path.{subst}
use tx_firewall.Base.{
  refl, Bool, true, ℕ, String, false, Option, none, List, ◌≡◌, ◌≢◌, sym, inl, inr, Result, ok,
  ok-injective, Bool-cases, str_eq, eq_iff, arith,
}
use tx_firewall.Base.Exec.{Exec, Returns, continue-inv}
use tx_firewall.Geth.{Geth, Address}
use tx_firewall.TxDecode.{Decoded}
use tx_firewall.Simulate.{simulate}
use tx_firewall.Chainstate.{Status, no_code, fresh, established, is_fresh}
use tx_firewall.Chainstate.Balances.{balance}
use tx_firewall.Chainstate.Known.Steady.{AllKnown, cached_status-Returns, cached_is_fresh-Returns}
use tx_firewall.Sanctions.{Checker}
use tx_firewall.Sanctions.Oracle
use tx_firewall.Sanctions.Cache.{Entries}
use tx_firewall.Sanctions.Cache.Steady.{AllTrue, cached_checker-Returns}
use tx_firewall.Firewall.Decision.Hits.{Flags}
use tx_firewall.Firewall.Decision.Weighted.{IsAnswering}
use tx_firewall.Firewall.Decision.Forwarded.{Facts}
use tx_firewall.Firewall.Settings.{Settings}
use tx_firewall.Firewall.Main.Served.{oracle_address}
use tx_firewall.Firewall.Main.{
  Client, Outside, World, on_outside, on_known, on_entries, rpc_status, oracle_cache_ttl,
  oracle_cache_size, freshness_cache_size, chainalysis_oracle, cached_oracle, new_oracle, oracle_of,
  simulator, freshness, status, balances, config,
}

-- Of the three, fresh code only.
abbrev pub is_recent : Status → Bool
is_recent no_code = false
is_recent fresh = true
is_recent established = false

is_fresh-is_recent : (s : Status) → is_fresh s ≡ is_recent s
is_fresh-is_recent no_code = refl
is_fresh-is_recent fresh = refl
is_fresh-is_recent established = refl

module _ (g : Geth) {N : Type 0} (o : Outside N) (facts : Facts) (window : ℕ) (Q : N → Type 0) where
  open facts use {known, trace, list, percent, threshold}

  -- As long as `Q` holds, the upstream node answers so: to a simulation with a trace or an error, to
  -- all questions on the age of code and on balances without an error of the node's own.
  pub record IsSteadyNode (node : Client N) : Type 0 where
    pub traces : (d : Decoded) → Returns Q (simulate node.call_context d) (trace d)
    pub statuses : (x : Address) → Returns Q (rpc_status g node window x) (ok (known.status x))
    pub freshness : (x : Address) → known.is_fresh x ≡ is_recent (known.status x)
    pub balances :
        (asset holder : Address)
        → Returns Q
            (balance g node.balance_at node.call_contract asset holder)
            (ok (known.balance asset holder))

  -- So does the oracle, if its node is set; otherwise nothing is flagged.
  pub record IsSteadyOracle (url : String) : Type 0 where
    pub unset : url ≡ "" → (x : Address) → known.flagged x ≡ false
    pub set_to :
        url ≢ ""
        → (x : Address)
        → Returns Q
            (Oracle.oracle_checker g (oracle_address g) (o.client url).call_contract x)
            (ok (known.flagged x))

  -- The caches hold answers of these, and the outside keeps to them.
  pub record IsSteady (w : World N) : Type 0 where
    pub entries : AllTrue known.flagged w.entries
    pub established_ : AllKnown known.status w.known
    pub outside : Q w.outside

  pub on_outside-Returns :
      {A : Type 0} (m : Exec N A) (r : Result A) → Returns Q m r → Returns IsSteady (on_outside m) r
  unfolding on_outside
  on_outside-Returns m r h = record {
    at = λ w p.
        let (e, q) = h.at w.outside p.outside in
        (e, record { entries = p.entries; established_ = p.established_; outside = q });
  }

  on_known-Returns :
      {A : Type 0} (m : Exec (List Address × N) A) (r : Result A)
      → Returns (λ s. AllKnown known.status s.0 × Q s.1) m r
      → Returns IsSteady (on_known m) r
  unfolding on_known
  on_known-Returns m r h = record {
    at = λ w p.
        let (e, (k, q)) = h.at (w.known, w.outside) (p.established_, p.outside) in
        (e, record { entries = p.entries; established_ = k; outside = q });
  }

  on_entries-Returns :
      {A : Type 0} (m : Exec (Entries × N) A) (r : Result A)
      → Returns (λ s. AllTrue known.flagged s.0 × Q s.1) m r
      → Returns IsSteady (on_entries m) r
  unfolding on_entries
  on_entries-Returns m r h = record {
    at = λ w p.
        let (e, (k, q)) = h.at (w.entries, w.outside) (p.entries, p.outside) in
        (e, record { entries = k; established_ = p.established_; outside = q });
  }

  pub oracle_of-Flags :
      (url : String) (n : N) (oracle : Option (Result (Checker (World N))))
      → IsSteadyOracle url
      → (oracle_of g o url n).0 ≡ ok oracle
      → Flags IsSteady oracle known.flagged
  unfolding oracle_of cached_oracle chainalysis_oracle
  oracle_of-Flags url n oracle h asked = elim (Bool-cases (str_eq url "")) [
    | inl unset ↦
        let e : none ≡ oracle = ok-injective (rw unset at asked) in
        subst (λ r. Flags IsSteady r known.flagged) e (h.unset ((eq_iff url "").0 unset))
    | inr set_ ↦ continue-inv (new_oracle g o url n).0 _ _ (rw set_ at asked) λ u _ made.
        subst (λ r. Flags IsSteady r known.flagged) (ok-injective made)
          (λ x. on_entries-Returns _ _ (
            cached_checker-Returns known.flagged oracle_cache_ttl oracle_cache_size o.clock _
              (h.set_to (λ e. ground (arith, eq_iff url ""))) x))
  ]

  pub config-IsAnswering :
      (s : Settings) (oracle : Option (Result (Checker (World N))))
      → s.fresh_blocks ≡ window
      → IsSteadyNode (o.client s.upstream_url)
      → Flags IsSteady oracle known.flagged
      → IsAnswering IsSteady (config g o s list oracle) known
  unfolding config simulator freshness status balances
  config-IsAnswering s oracle blocks node flags =
      let reads =
        subst
          (λ k.
            (x : Address)
            → Returns Q (rpc_status g (o.client s.upstream_url) k x) (ok (known.status x)))
          (sym blocks) node.statuses in
      record {
        oracle = flags;
        freshness = λ x.
            rw (node.freshness x, ← is_fresh-is_recent (known.status x))
              (on_known-Returns _ _
                (cached_is_fresh-Returns known.status freshness_cache_size _ reads x));
        status = λ x.
            on_known-Returns _ _
              (cached_status-Returns known.status freshness_cache_size _ reads x);
        balances = λ asset holder. on_outside-Returns _ _ (node.balances asset holder);
      }
