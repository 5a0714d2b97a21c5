-- ===== src/Firewall/Main/Served.antt =====
-- What main has read and checked when it comes to serve.
use tx_firewall.Base.{Option, ◌≡◌, refl, Result, ok, ok-injective}
use tx_firewall.Base.Exec.{continue-inv, remapped-inv}
use tx_firewall.Geth.{Geth, Address}
use tx_firewall.Strconv.{codes}
use tx_firewall.TxDecode.{Codec}
use tx_firewall.Sanctions.{Checker}
use tx_firewall.Sanctions.Listed.{ListChecker, load_list_checker}
use tx_firewall.JsonRpc.{Json}
use tx_firewall.Firewall.{new_screener_engine}
use tx_firewall.Firewall.Settings.{Settings, read_settings}
use tx_firewall.Firewall.Main.{
  Outside, World, Screener, Server, new_simulator, new_freshness, oracle_of, config, simulator,
  new_screener, server, main,
}

-- The sanctions oracle of Chainalysis.
abbrev pub oracle_address : Geth → Address
oracle_address g = g.hex_to_address (codes "0x40C57923924B5c5c5455c48D93317139ADDaC8fb")

module _ (g : Geth) {N : Type 0} (o : Outside N) where
  -- The parts that newScreener puts together.
  pub record IsScreener (s : Settings) (n : N) (screener : Screener (World N)) : Type 0 where
    pub list : ListChecker
    pub oracle : Option (Result (Checker (World N)))
    pub loaded :
        load_list_checker g o.quote s.sanctions_file (o.read_lines s.sanctions_file) ≡ ok list
    pub asked : (oracle_of g o (o.env "SANCTIONS_ORACLE_RPC") n).0 ≡ ok oracle
    pub built : new_screener_engine g (config g o s list oracle) ≡ ok screener.engine
    pub simulates : simulator g (o.client s.upstream_url) ≡ screener.sim

  new_screener-IsScreener :
      (s : Settings) (n : N) {r : Screener (World N)}
      → (new_screener g o s n).0 ≡ ok r
      → IsScreener s n r
  unfolding new_screener
  new_screener-IsScreener s n {r} h = continue-inv _ _ _ h λ list loaded h₁.
      continue-inv _ _ _ h₁ λ oracle asked h₂.
        continue-inv (new_screener_engine g (config g o s list oracle)) _ _ h₂ λ engine built made.
          let same : record { sim = simulator g (o.client s.upstream_url); engine = engine } ≡ r =
            ok-injective made in
          record {
            list = list;
            oracle = oracle;
            loaded = loaded;
            asked = asked;
            built = rw (← same) built;
            simulates = rw (← same) refl;
          }

  module _ (c : Codec) (j : Json) where
    -- A server that main gave, by the steps that main took.
    pub record IsServed (n : N) (srv : Server N) : Type 0 where
      pub settings : Settings
      pub read : read_settings o.env o.slog o.parse_url ≡ ok settings
      pub connected : (o.dial settings.upstream_url n).0 ≡ ok tt
      -- the states of the outside in which the node and the oracle are asked
      pub n₁ : N
      pub simulated : (new_simulator g (o.client settings.upstream_url) n₁).0 ≡ ok tt
      pub n₂ : N
      pub aged :
          (new_freshness g (o.client settings.upstream_url) settings.fresh_blocks n₂).0 ≡ ok tt
      pub n₃ : N
      pub screener : Screener (World N)
      pub screens : IsScreener settings n₃ screener
      pub served : server g o c j settings screener ≡ srv

    pub main-IsServed : (n : N) {srv : Server N} → (main g o c j n).0 ≡ ok srv → IsServed n srv
    unfolding main
    main-IsServed n h = continue-inv _ _ _ h λ s read h₁.
        remapped-inv _ (o.dial s.upstream_url n).0 _ _ h₁ λ u connected h₂.
          remapped-inv _ (new_simulator g (o.client s.upstream_url) _).0 _ _ h₂ λ u₂ simulated h₃.
            remapped-inv _ (new_freshness g (o.client s.upstream_url) s.fresh_blocks _).0 _ _ h₃
              λ u₃ aged h₄. remapped-inv _ (new_screener g o s _).0 _ _ h₄ λ screener made h₅.
                record {
                  settings = s;
                  read = read;
                  connected = connected;
                  n₁ = _;
                  simulated = simulated;
                  n₂ = _;
                  aged = aged;
                  n₃ = _;
                  screener = screener;
                  screens = new_screener-IsScreener s _ made;
                  served = ok-injective h₅;
                }
