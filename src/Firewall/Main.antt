-- ===== src/Firewall/Main.antt =====
-- cmd/firewall/main.go: from the environment to the server, with the checks of the node and of the
-- oracle on the way. A run that ends in os.Exit is an error, as in Firewall/Settings.
pub mod Served
pub mod Screened
pub mod Checked
pub mod Starting
pub mod Steady
pub mod Decided
use tx_firewall.Base.{
  ℕ, ◌*◌, ◌^◌, String, Bytes, Bool, Option, none, some, List, [], ◌∷◌, Result, ok, err, Error, wrap,
  wrap_before, str_eq, if◌then◌else◌,
}
use tx_firewall.Base.Exec.{Exec, ◌>>=◌, ◌>>◌, pure, lift, on_error}
use tx_firewall.Geth.{Geth, Address}
use tx_firewall.Strconv.{codes}
use tx_firewall.Logging.{Slog}
use tx_firewall.TxDecode.{Codec, Decoded}
use tx_firewall.Simulate.{CallArgs, CallFrame}
use tx_firewall.Simulate
use tx_firewall.Sanctions.{Checker}
use tx_firewall.Sanctions.Listed.{ListChecker, Line, load_list_checker}
use tx_firewall.Sanctions.Cache.{Entries, cached_checker}
use tx_firewall.Sanctions.Oracle
use tx_firewall.Chainstate.{FreshnessChecker, StatusReader, BalanceReader}
use tx_firewall.Chainstate.Freshness
use tx_firewall.Chainstate.Known.{check_size, cached_status, cached_is_fresh}
use tx_firewall.Chainstate.Balances.{balance}
use tx_firewall.Risk.{Verdict, Engine}
use tx_firewall.Screen.{screen}
use tx_firewall.JsonRpc.{Json}
use tx_firewall.Proxy.{Reply, handle}
use tx_firewall.Firewall.{ScreenerConfig, new_screener_engine}
use tx_firewall.Firewall.Settings.{Url, Settings, read_settings}

-- What the code calls of an rpc.Client and of an ethclient.Client around it, within the timeouts:
-- debug_traceCall on the latest block, eth_blockNumber, eth_getCode, eth_getBalance and eth_call on
-- the latest block. `N` is the state of whatever answers, the clock with it.
pub record Client (N : Type 0) : Type 0 where
  pub call_context : CallArgs → Exec N CallFrame
  pub block_number : Exec N ℕ
  pub code_at : Address → Option ℕ → Exec N Bytes
  pub balance_at : Address → Exec N ℕ
  pub call_contract : Address → Bytes → Exec N Bytes

-- Everything that main finds outside: the environment, the sanctions file's lines as os.Open and
-- the scanner give them, the dialling of nodes and the clients that it gives, and the clock.
pub record Outside (N : Type 0) : Type 0 where
  pub env : String → String
  pub slog : Slog
  pub parse_url : String → Option Url
  pub read_lines : String → Result (List Line × Option Error)
  pub quote : Line → String
  pub dial : String → Exec N (Unit {0})
  pub client : String → Client N
  pub clock : N → ℕ

-- What the running program keeps: the oracle's cache, the freshness cache, and the outside.
pub record World (N : Type 0) : Type 0 where
  pub entries : Entries
  pub known : List Address
  pub outside : N

module _ {N A : Type 0} where
  -- A call of the outside, of what stands behind the freshness cache, and behind the oracle's.
  unfoldable pub on_outside : Exec N A → Exec (World N) A
  on_outside m w = ((m w.outside).0, record w { outside = (m w.outside).1 })

  unfoldable pub on_known : Exec (List Address × N) A → Exec (World N) A
  on_known m w =
      let (r, (known, n)) = m (w.known, w.outside) in (r, record w { known = known; outside = n })

  unfoldable pub on_entries : Exec (Entries × N) A → Exec (World N) A
  on_entries m w =
      let (r, (entries, n)) = m (w.entries, w.outside) in
      (r, record w { entries = entries; outside = n })

abbrev pub oracle_cache_ttl : ℕ
oracle_cache_ttl = 600 * 10 ^ 9

abbrev pub oracle_cache_size : ℕ
oracle_cache_size = 100_000

abbrev pub freshness_cache_size : ℕ
freshness_cache_size = 100_000

-- screen.Screener
pub record Screener (W : Type 0) : Type 0 where
  pub sim : Decoded → Exec W CallFrame
  pub engine : Engine W

-- http.Server; its timeouts in seconds.
pub record Server (N : Type 0) : Type 0 where
  pub addr : String
  pub handler : Result Bytes → World N → Reply × World N
  pub read_header_timeout : ℕ
  pub read_timeout : ℕ
  pub write_timeout : ℕ

-- `log.Error(message, "err", err); os.Exit(1)`
abbrev pub or_exit : {N A : Type 0} → String → Exec N A → Exec N A
or_exit message m = on_error (wrap message) m

unfoldable pub chainalysis_oracle : Geth → Address
chainalysis_oracle g = g.hex_to_address (codes "0x40C57923924B5c5c5455c48D93317139ADDaC8fb")

module _ (g : Geth) {N : Type 0} where
  module _ (o : Outside N) where
    -- newOracle, up to its check.
    unfoldable pub new_oracle : String → Exec N (Unit {0})
    new_oracle rpc_url =
        on_error (wrap "SANCTIONS_ORACLE_RPC") (o.dial rpc_url)
        >> Oracle.verify g (chainalysis_oracle g) (λ a. (o.client rpc_url).code_at a none)

    -- The oracle's checker behind its cache.
    unfoldable pub cached_oracle : String → Checker (World N)
    cached_oracle rpc_url addr = on_entries (
        cached_checker oracle_cache_ttl oracle_cache_size o.clock
          (Oracle.oracle_checker g (chainalysis_oracle g) (o.client rpc_url).call_contract) addr)

    -- `if cfg.oracleRPC != ""`
    unfoldable pub oracle_of : String → Exec N (Option (Result (Checker (World N))))
    oracle_of rpc_url =
        if str_eq rpc_url ""
        then pure none
        else (new_oracle rpc_url >> pure (some (ok (cached_oracle rpc_url))))

  module _ (node : Client N) where
    -- newSimulator: the check, and the simulator.
    unfoldable pub new_simulator : Exec N (Unit {0})
    new_simulator = Simulate.verify node.call_context

    unfoldable pub simulator : Decoded → Exec (World N) CallFrame
    simulator d = on_outside (Simulate.simulate node.call_context d)

    module _ (window : ℕ) where
      abbrev pub rpc_status : StatusReader N
      rpc_status = Freshness.status g window node.block_number node.code_at

      -- newFreshness: its checks, and the two methods of the cache.
      unfoldable pub new_freshness : Exec N (Unit {0})
      new_freshness =
          on_error
            (λ e. wrap_before e " (set FRESH_CONTRACT_BLOCKS below the node's state history)")
            (Freshness.verify g window node.block_number node.code_at)
          >> lift (check_size freshness_cache_size)

      unfoldable pub freshness : FreshnessChecker (World N)
      freshness addr = on_known (cached_is_fresh freshness_cache_size rpc_status addr)

      unfoldable pub status : StatusReader (World N)
      status addr = on_known (cached_status freshness_cache_size rpc_status addr)

    unfoldable pub balances : BalanceReader (World N)
    balances asset holder = on_outside (balance g node.balance_at node.call_contract asset holder)

  module _ (o : Outside N) where
    -- The screenerConfig of main.
    unfoldable pub config :
        Settings → ListChecker → Option (Result (Checker (World N))) → ScreenerConfig (World N)
    config s list oracle =
        let node = o.client s.upstream_url in
        record {
          list = ok list;
          oracle = oracle;
          threshold = s.threshold;
          outflow_percent = s.outflow_percent;
          simulator = simulator node;
          freshness = freshness node s.fresh_blocks;
          status = status node s.fresh_blocks;
          balances = balances node;
        }

    -- newScreener
    unfoldable pub new_screener : Settings → Exec N (Screener (World N))
    new_screener s = do
      list ← lift (load_list_checker g o.quote s.sanctions_file (o.read_lines s.sanctions_file))
      oracle ← oracle_of o (o.env "SANCTIONS_ORACLE_RPC")
      engine ← lift (new_screener_engine g (config s list oracle))
      pure (record { sim = simulator (o.client s.upstream_url); engine = engine })

    module _ (c : Codec) (j : Json) where
      unfoldable pub server : Settings → Screener (World N) → Server N
      server s screener = record {
        addr = s.listen_addr;
        handler = handle c (screen g screener.sim screener.engine) j;
        read_header_timeout = 5;
        read_timeout = 10;
        write_timeout = 30;
      }

      -- main, up to server.ListenAndServe.
      unfoldable pub main : Exec N (Server N)
      main = do
        s ← lift (read_settings o.env o.slog o.parse_url)
        or_exit "cannot connect to the upstream node" (o.dial s.upstream_url)
        or_exit "cannot simulate transactions on the upstream node"
            (new_simulator (o.client s.upstream_url))
        or_exit "cannot check contract age on the upstream node"
            (new_freshness (o.client s.upstream_url) s.fresh_blocks)
        screener ← or_exit "cannot build screening pipeline" (new_screener s)
        pure (server s screener)
