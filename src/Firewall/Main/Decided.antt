-- ===== src/Firewall/Main/Decided.antt =====
-- What the firewall that main has started decides, caches included, before a node and an oracle
-- that keep to their answers.
use tx_firewall.Base.{
  ◌^◌, ◌*◌, ℕ, Bytes, some, List, ◌≡◌, ◌≤◌, refl, sym, ◌∙◌, ◌↔◌, Result, ok, ok-injective, length,
}
use tx_firewall.Base.Int.{pos}
use tx_firewall.Geth.{Geth}
use tx_firewall.Strconv.{atoi, parse_uint}
use tx_firewall.TxDecode.{Codec, Decoded}
use tx_firewall.Sanctions.Listed.{load_list_checker}
use tx_firewall.JsonRpc.{Request, Json, parse_requests}
use tx_firewall.Proxy.{Reply, forwarded, handle}
use tx_firewall.Screen.{screen}
use tx_firewall.Firewall.{screener}
use tx_firewall.Firewall.Decision.Taken.{IsSetTo}
use tx_firewall.Firewall.Decision.Forwarded.{Facts, AllHarmless, handle-decides, handle-keeps}
use tx_firewall.Firewall.Settings.{Settings}
use tx_firewall.Firewall.Settings.Accepted.{or_default, read_settings_iff}
use tx_firewall.Firewall.Main.{Outside, World, Screener, Server, simulator, config, server, main}
use tx_firewall.Firewall.Main.Steady.{
  IsSteadyNode, IsSteadyOracle, IsSteady, on_outside-Returns, oracle_of-Flags, config-IsAnswering,
}
use tx_firewall.Firewall.Main.Served.{IsScreener, main-IsServed}

module _ (g : Geth) {N : Type 0} (o : Outside N) (facts : Facts) (window : ℕ) (Q : N → Type 0) where
  open facts use {known, trace, list, percent, threshold}

  -- The settings, as the environment spells them.
  pub record IsConfigured : Type 0 where
    pub loads :
        load_list_checker g o.quote (o.env "SANCTIONS_FILE") (o.read_lines (o.env "SANCTIONS_FILE"))
        ≡ ok list
    pub threshold_ : atoi (or_default "50" (o.env "RISK_THRESHOLD")) ≡ some (pos threshold)
    pub percent_ : atoi (or_default "50" (o.env "LARGE_OUTFLOW_PERCENT")) ≡ some (pos percent)
    pub blocks : parse_uint (or_default "7200" (o.env "FRESH_CONTRACT_BLOCKS")) ≡ some window

  some-injective : {A : Type 0} {a b : A} → some a ≡ some b → a ≡ b
  some-injective h = cc

  module _ (c : Codec) (j : Json) where
    -- The reply to a body, and that nothing changes for the next one.
    abbrev pub Decides : (Result Bytes → World N → Reply × World N) → Bytes → World N → Type 0
    Decides handler body w =
        (((handler (ok body) w).0 ≡ forwarded body) ↔ (
          (reqs : List Request) × (length body ≤ 5 * 2 ^ 20)
          × (parse_requests j body ≡ ok reqs)
          × AllHarmless g c facts reqs))
        × IsSteady g o facts window Q (handler (ok body) w).1

    screens-Decides :
        (s : Settings) (n : N) (r : Screener (World N)) (body : Bytes) (w : World N)
        → IsScreener g o s n r
        → load_list_checker g o.quote s.sanctions_file (o.read_lines s.sanctions_file) ≡ ok list
        → s.threshold ≡ pos threshold
        → s.outflow_percent ≡ pos percent
        → s.fresh_blocks ≡ window
        → IsSteadyNode g o facts window Q (o.client s.upstream_url)
        → IsSteadyOracle g o facts window Q (o.env "SANCTIONS_ORACLE_RPC")
        → IsSteady g o facts window Q w
        → Decides (handle c (screen g r.sim r.engine) j) body w
    unfolding screener config simulator
    screens-Decides s n r body w made loads limit percentage blocks node oracle p =
        let same : made.list ≡ list = ok-injective (sym made.loaded ∙ loads) in
        let built = rw same at made.built in
        let cfg = config g o s list made.oracle in
        let set : IsSetTo cfg list percent threshold = record {
          named = refl;
          percentage = percentage;
          limit = limit;
        } in
        let answers = config-IsAnswering g o facts window Q s made.oracle blocks node (
          oracle_of-Flags g o facts window Q (o.env "SANCTIONS_ORACLE_RPC") n made.oracle oracle
            made.asked) in
        let traces = λ (d : Decoded). on_outside-Returns g o facts window Q _ _ (node.traces d) in
        rw (← made.simulates) (
          handle-decides g c facts (IsSteady g o facts window Q) cfg r.engine set built answers
              traces j body w p,
          handle-keeps g c facts (IsSteady g o facts window Q) cfg r.engine set built answers traces
              j (ok body) w p,
        )

    -- If main comes to serve with these settings, the upstream node answers each simulation always
    -- with the same trace or the same error, and the questions on the age of code and on balances are
    -- all answered, always in the same way and without an error, and so are those to the oracle, if
    -- there is one: whatever the caches hold that came from them, the firewall forwards a body
    -- exactly if it is not too large and parses, and each of its requests sends no transaction, or
    -- sends one that decodes and that the node simulates, in whose trace no address of the analysis
    -- is on the list or flagged by the oracle, and whose points are below the threshold; and the
    -- caches hold only such answers behind it, too.
    pub main-Decides :
        (n : N) (srv : Server N) (body : Bytes) (w : World N)
        → IsConfigured
        → IsSteadyNode g o facts window Q (o.client (o.env "UPSTREAM_URL"))
        → IsSteadyOracle g o facts window Q (o.env "SANCTIONS_ORACLE_RPC")
        → (main g o c j n).0 ≡ ok srv
        → IsSteady g o facts window Q w
        → Decides srv.handler body w
    unfolding server
    main-Decides n srv body w set node oracle started p =
        let run = main-IsServed g o c j n started in
        let spelled = (read_settings_iff o.env o.slog o.parse_url run.settings).0 run.read in
        rw (← run.served) (
          screens-Decides run.settings run.n₃ run.screener body w run.screens
            (rw spelled.names_file at set.loads)
            (some-injective (sym spelled.spells_threshold ∙ set.threshold_))
            (some-injective (sym spelled.spells_percent ∙ set.percent_))
            (some-injective (sym spelled.spells_blocks ∙ set.blocks)) (rw spelled.names_url at node)
            oracle p)
