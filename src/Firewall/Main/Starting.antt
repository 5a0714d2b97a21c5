-- ===== src/Firewall/Main/Starting.antt =====
-- A firewall whose settings, node, oracle and sanctions file are as they should be.
use tx_firewall.Base.{
  ℕ, zero, suc, ◌<◌, ◌≤◌, ◌-◌, String, Bytes, false, Option, none, some, List, [], ◌∷◌, ◌≡◌, ◌≢◌,
  refl, Result, Error, ok, err, arith, str_eq, eq_iff, Bool-cases, inl, inr, ◌⊎◌, any,
}
use tx_firewall.Base.Int.{ℤ, pos}
use tx_firewall.Base.Exec.{
  Exec, Returns, Returns-pure, Returns-bind, Returns-on_error, lift, on_error, ◌>>=◌,
}
use tx_firewall.Geth.{Geth, Address, zero_address}
use tx_firewall.TxDecode.{Codec}
use tx_firewall.Simulate.{CallFrame, info, check_frame, trace_result, trace, verified}
use tx_firewall.Simulate
use tx_firewall.Sanctions.{Checker}
use tx_firewall.Sanctions.Oracle
use tx_firewall.Sanctions.Oracle.{check_code}
use tx_firewall.Sanctions.Listed.{Line, ListChecker, load_list_checker}
use tx_firewall.Sanctions.Listed.Format.{is_invalid, load_list_checker_complete}
use tx_firewall.Chainstate.Freshness
use tx_firewall.Chainstate.Freshness.{block_before, past_block}
use tx_firewall.Chainstate.Freshness.History.{block_before_lem}
use tx_firewall.Chainstate.Known.{check_size}
use tx_firewall.Rules.{Rule}
use tx_firewall.Rules.Outflows.{check_percent}
use tx_firewall.Risk.{Engine, new_engine}
use tx_firewall.JsonRpc.{Json}
use tx_firewall.Firewall.{new_screener_engine, checkers, rules}
use tx_firewall.Firewall.Settings.{Settings, read_settings}
use tx_firewall.Firewall.Settings.Accepted.{IsSpelled, read_settings_iff}
use tx_firewall.Firewall.Main.Served.{oracle_address}
use tx_firewall.Firewall.Main.{
  Client, Outside, World, Screener, Server, chainalysis_oracle, new_oracle, cached_oracle,
  oracle_of, new_simulator, new_freshness, simulator, config, new_screener, server, main,
}
use tx_firewall.Firewall.Main.Checked.{probe, IsTyped}

check_frame-IsTyped : (frame : CallFrame) → IsTyped frame → check_frame frame ≡ ok frame
unfolding check_frame
check_frame-IsTyped frame typed = ground (arith, eq_iff (info frame).type "")

check_code_lem :
    (g : Geth) (oracle : Address) (code : Bytes) → code ≢ [] → check_code g oracle code ≡ ok tt
unfolding check_code
check_code_lem g oracle [] h = absurd (h refl)
check_code_lem g oracle (b ∷ bs) h = refl

check_percent_lem :
    (z : ℤ) (percent : ℕ)
    → z ≡ pos percent
    → 1 ≤ percent
    → percent ≤ 100
    → check_percent z ≡ ok percent
unfolding check_percent
check_percent_lem z percent e h k = rw e (ground arith)

new_engine_lem :
    {W : Type 0} (z : ℤ) (threshold : ℕ) (rs : List (Rule W))
    → z ≡ pos threshold
    → 0 < threshold
    → (e : Engine W) × (new_engine z rs ≡ ok e)
unfolding new_engine
new_engine_lem z zero rs e h = absurd (omega arith)
new_engine_lem z (suc n) rs e h = (record { rules = rs; threshold = suc n }, rw e refl)

module _ {N : Type 0} (P : N → Type 0) where
  Returns-lift : {A : Type 0} (r : Result A) → Returns P (lift r) r
  Returns-lift r = record { at = λ n h. (refl, h) }

  Returns-lifted : {A : Type 0} (r : Result A) {a : A} → r ≡ ok a → Returns P (lift r) (ok a)
  Returns-lifted r e = record { at = λ n h. (e, h) }

  -- A step whose error gets a prefix, and what follows it.
  Returns-step :
      {A B : Type 0} (p : Error → Error) (m : Exec N A) (f : A → Exec N B) (a : A) {r : Result B}
      → Returns P m (ok a)
      → Returns P (f a) r
      → Returns P (on_error p m >>= f) r
  Returns-step p m f a h k = Returns-bind (on_error p m) f a (Returns-on_error p m a h) k

  -- The node answers the checks of newSimulator and newFreshness as they ask for it.
  pub record IsNode (node : Client N) (window : ℕ) : Type 0 where
    pub frame : CallFrame
    pub typed : IsTyped frame
    pub simulates : Returns P (node.call_context probe) (ok frame)
    pub latest : ℕ
    pub counts : Returns P node.block_number (ok latest)
    pub code : Bytes
    pub keeps : Returns P (node.code_at zero_address (some (latest - window))) (ok code)

  module _ (g : Geth) where
    new_simulator-Returns :
        (node : Client N) (window : ℕ)
        → IsNode node window
        → Returns P (new_simulator g node) (ok tt)
    unfolding new_simulator Simulate.verify trace trace_result verified
    new_simulator-Returns node window h = record {
      at = λ n p.
          let (e, q) = h.simulates.at n p in
          (rw (e, trace_result, check_frame-IsTyped h.frame h.typed, verified) refl, q);
    }

    verify-Returns :
        (node : Client N) (window : ℕ)
        → IsNode node window
        → Returns P (Freshness.verify g window node.block_number node.code_at) (ok tt)
    unfolding Freshness.verify past_block
    verify-Returns node window h =
        Returns-bind (past_block g window node.block_number node.code_at) _ (h.latest - window)
          (Returns-bind _ _ h.latest (Returns-on_error _ node.block_number h.latest h.counts)
            (rw block_before_lem (Returns-pure (h.latest - window))))
          (Returns-bind _ _ h.code (Returns-on_error _ _ h.code h.keeps) (Returns-pure tt))

    new_freshness-Returns :
        (node : Client N) (window : ℕ)
        → IsNode node window
        → Returns P (new_freshness g node window) (ok tt)
    unfolding new_freshness check_size
    new_freshness-Returns node window h =
        Returns-bind _ _ tt
          (Returns-on_error _ (Freshness.verify g window node.block_number node.code_at) tt
            (verify-Returns node window h))
          (Returns-lift _)

    -- The oracle's node can be dialled, and has code where the oracle should be.
    pub record IsOracle (o : Outside N) (url : String) : Type 0 where
      pub code : Bytes
      pub connects : Returns P (o.dial url) (ok tt)
      pub has_code : Returns P ((o.client url).code_at (oracle_address g) none) (ok code)
      pub not_empty : code ≢ []

    new_oracle-Returns :
        (o : Outside N) (url : String) → IsOracle o url → Returns P (new_oracle g o url) (ok tt)
    unfolding chainalysis_oracle new_oracle Oracle.verify
    new_oracle-Returns o url h =
        Returns-bind _ _ tt (Returns-on_error _ (o.dial url) tt h.connects) (
          Returns-bind _ _ h.code
            (Returns-on_error _ ((o.client url).code_at (oracle_address g) none) h.code h.has_code)
            (rw (check_code_lem g (oracle_address g) h.code h.not_empty) (Returns-lift _)))

    -- Either no oracle is asked for, or there is one.
    abbrev pub HasOracle : Outside N → Type 0
    HasOracle o = let url = o.env "SANCTIONS_ORACLE_RPC" in (url ≡ "") ⊎ IsOracle o url

    -- What oracle_of gives is no error.
    abbrev IsFine : Option (Result (Checker (World N))) → Type 0
    IsFine none = Unit
    IsFine (some (ok checker)) = Unit
    IsFine (some (err e)) = ⊥

    oracle_of-Returns :
        (o : Outside N)
        → HasOracle o
        → (oracle : Option (Result (Checker (World N)))) × IsFine oracle
          × Returns P (oracle_of g o (o.env "SANCTIONS_ORACLE_RPC")) (ok oracle)
    unfolding oracle_of
    oracle_of-Returns o h = elim (Bool-cases (str_eq (o.env "SANCTIONS_ORACLE_RPC") "")) [
      | inl unset ↦ (none, tt, rw unset (Returns-pure none))
      | inr set_ ↦
          let there : IsOracle o (o.env "SANCTIONS_ORACLE_RPC") = elim h [
            | inl e ↦ absurd (cc ((eq_iff _ _).1 e, set_))
            | inr there ↦ there
          ] in
          (
            some (ok (cached_oracle g o (o.env "SANCTIONS_ORACLE_RPC"))),
            tt,
            rw set_ (
                Returns-bind (new_oracle g o (o.env "SANCTIONS_ORACLE_RPC")) _ tt
                  (new_oracle-Returns o _ there) (Returns-pure _)),
          )
    ]

    checkers_lem :
        (list : ListChecker) (oracle : Option (Result (Checker (World N))))
        → IsFine oracle
        → (cs : List (Checker (World N))) × (checkers list oracle ≡ ok cs)
    unfolding checkers
    checkers_lem list none h = (_, refl)
    checkers_lem list (some (ok checker)) h = (_, refl)
    checkers_lem list (some (err e)) h = absurd h

    module _ (o : Outside N) (s : Settings) (threshold percent : ℕ) (lines : List Line) where
      -- The numbers are in the ranges that newScreener checks, and each line of the file, without
      -- its comment and blanks, is empty or an address.
      pub record IsInRange : Type 0 where
        pub is_threshold : s.threshold ≡ pos threshold
        pub positive : 0 < threshold
        pub is_percent : s.outflow_percent ≡ pos percent
        pub from_one : 1 ≤ percent
        pub to_hundred : percent ≤ 100
        pub opens : o.read_lines s.sanctions_file ≡ ok (lines, none)
        pub valid : any (is_invalid g o.quote) lines ≡ false

      new_screener_engine_lem :
          (list : ListChecker) (oracle : Option (Result (Checker (World N))))
          → IsInRange
          → IsFine oracle
          → (e : Engine (World N)) × (new_screener_engine g (config g o s list oracle) ≡ ok e)
      unfolding new_screener_engine config
      new_screener_engine_lem list oracle h fine =
          let (cs, made) = checkers_lem list oracle fine in
          let (e, built) =
            new_engine_lem s.threshold threshold (rules g (config g o s list oracle) cs percent)
              h.is_threshold h.positive in
          (
            e,
            rw
                (
                  made,
                  check_percent_lem s.outflow_percent percent h.is_percent h.from_one h.to_hundred,
                )
                built,
          )

      new_screener-Returns :
          IsInRange → HasOracle o → (r : Screener (World N)) × Returns P (new_screener g o s) (ok r)
      unfolding new_screener
      new_screener-Returns h there =
          let (list, loaded) =
            load_list_checker_complete g o.quote s.sanctions_file lines h.valid in
          let (oracle, fine, asked) = oracle_of-Returns o there in
          let (e, built) = new_screener_engine_lem list oracle h fine in
          (
            record { sim = simulator g (o.client s.upstream_url); engine = e },
            Returns-bind
                (lift
                  (load_list_checker g o.quote s.sanctions_file (o.read_lines s.sanctions_file)))
                _ list (Returns-lifted _ (rw h.opens loaded))
                (Returns-bind (oracle_of g o (o.env "SANCTIONS_ORACLE_RPC")) _ oracle asked (
                  Returns-bind (lift (new_screener_engine g (config g o s list oracle))) _ e
                    (Returns-lifted _ built)
                    (Returns-pure
                      (record { sim = simulator g (o.client s.upstream_url); engine = e })))),
          )

      -- If the outside stays in states in which the node of UPSTREAM_URL can be dialled, simulates
      -- the probe and has the state where the window begins, and the oracle, if one is asked for,
      -- is there, then main comes to serve with settings that the environment spells and that are in
      -- range, if the sanctions file can be read and each of its lines is valid.
      pub main-serves :
          (c : Codec) (j : Json) (n : N)
          → P n
          → IsSpelled o.env o.slog o.parse_url s
          → IsInRange
          → Returns P (o.dial s.upstream_url) (ok tt)
          → IsNode (o.client s.upstream_url) s.fresh_blocks
          → HasOracle o
          → (srv : Server N) × ((main g o c j n).0 ≡ ok srv) × P (main g o c j n).1
      unfolding main
      main-serves c j n p spelled h connects node there =
          let (r, screens) = new_screener-Returns h there in
          let run : Returns P (main g o c j) (ok (server g o c j s r)) =
            Returns-bind (lift (read_settings o.env o.slog o.parse_url)) _ s
              (Returns-lifted _ ((read_settings_iff o.env o.slog o.parse_url s).1 spelled))
              (Returns-step _ (o.dial s.upstream_url) _ tt connects (
                Returns-step _ (new_simulator g (o.client s.upstream_url)) _ tt
                  (new_simulator-Returns (o.client s.upstream_url) s.fresh_blocks node)
                  (Returns-step _ (new_freshness g (o.client s.upstream_url) s.fresh_blocks) _ tt
                    (new_freshness-Returns (o.client s.upstream_url) s.fresh_blocks node)
                    (Returns-step _ (new_screener g o s) _ r screens (Returns-pure _))))) in
          let (started, q) = run.at n p in (server g o c j s r, started, q)
