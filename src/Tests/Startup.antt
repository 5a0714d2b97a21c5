-- ===== src/Tests/Startup.antt =====
-- A firewall that is started, and a request to it.
use tx_firewall.Base.{
  rpc_error, ◌==◌, String, true, none, some, [], ◌∷◌, ◌≡◌, ◌≢◌, refl, ◌↔◌, ◌||◌, eq_iff, ok, err,
  arith, replicate, str_eq, if◌then◌else◌, set_bytes, inl, plain, wrap,
}
use tx_firewall.Base.Int.{pos, negsuc}
use tx_firewall.Base.Exec.{pure, raise}
use tx_firewall.Geth.{Geth}
use tx_firewall.Strconv.{atoi, parse_uint}
use tx_firewall.Logging.{Slog, pretty_handler, new_logger}
use tx_firewall.Simulate.{CallFrame, simulate}
use tx_firewall.Simulate
use tx_firewall.Analysis.Touched.{is_party, touches}
use tx_firewall.Events.{address_arg}
use tx_firewall.Events.Transfer.{decode_transfer, transfer_by_layout, transfer_topic}
use tx_firewall.TxDecode.{decode_raw_transaction, only_param}
use tx_firewall.JsonRpc.{parse_requests, parse_trimmed, check_batch, one_request}
use tx_firewall.Proxy.{forwarded}
use tx_firewall.Chainstate.Freshness
use tx_firewall.Chainstate.Known.{check_size}
use tx_firewall.Sanctions.Listed.{
  load_list_checker, trim_space, trim_left, cut_comment, is_space, put_all, put_address,
}
use tx_firewall.Rules.Outflows.{check_percent}
use tx_firewall.Risk.{new_engine}
use tx_firewall.Firewall.{new_screener_engine, checkers}
use tx_firewall.Firewall.Settings.{Settings, read_settings}
use tx_firewall.Firewall.Settings.Accepted.{IsSpelled, read_settings_iff}
use tx_firewall.Firewall.Main.{
  Client, Outside, World, Server, server, config, new_screener, oracle_of, new_simulator,
  new_freshness, main,
}
use tx_firewall.Firewall.Main.Screened.{main-listed}
use tx_firewall.Firewall.Main.Checked.{IsChecked, main-IsChecked}
use tx_firewall.Firewall.Main.Starting.{IsNode, IsInRange, main-serves}
use tx_firewall.Tests.World.{geth, codec, json, batch_body, decoded, trace, send, query}

-- Each line of the file names address 7.
abbrev pub geth7 : Geth
geth7 = record geth { hex_to_address = λ s. 7 }

abbrev slog : Slog
slog = record { unmarshal_level = λ s. ok (pos 0); quote = λ s. s }

-- The node refuses transactions of the value 77.
abbrev node : Client (Unit {0})
node = record {
  call_context = λ args.
      if args.value == 77
      then raise (rpc_error (negsuc 31999) "insufficient funds")
      else pure trace;
  block_number = pure 10_000;
  code_at = λ a n. pure (1 ∷ []);
  balance_at = λ a. pure 100;
  call_contract = λ a bs. pure (replicate 32 0);
}

abbrev pub env : String → String
env key =
    if str_eq key "UPSTREAM_URL"
    then "http://node:8545"
    else if str_eq key "LISTEN_ADDR"
    then ":8080"
    else if str_eq key "SANCTIONS_FILE"
    then "list.txt"
    else if str_eq key "RISK_THRESHOLD"
    then "60"
    else ""

abbrev pub outside : Outside (Unit {0})
outside = record {
  env = env;
  slog = slog;
  parse_url = λ s. some (record { scheme = "http"; host = "node:8545" });
  read_lines = λ path. ok (replicate 42 b'a' ∷ [], none);
  quote = λ line. "";
  dial = λ url. pure tt;
  client = λ url. node;
  clock = λ w. 0;
}

abbrev settings : Settings
settings = record {
  logger = record { handler = pretty_handler; level = pos 0 };
  upstream_url = "http://node:8545";
  listen_addr = ":8080";
  sanctions_file = "list.txt";
  upstream = record { scheme = "http"; host = "node:8545" };
  threshold = pos 60;
  fresh_blocks = 7200;
  outflow_percent = pos 50;
}

startup : Unit {0}
unfolding read_settings new_logger atoi parse_uint main new_simulator new_freshness check_size
    Simulate.new_call_args Simulate.verify Simulate.verified Simulate.trace_result Freshness.verify
    new_screener oracle_of load_list_checker trim_space trim_left cut_comment is_space put_all
    put_address new_screener_engine checkers check_percent new_engine config server simulate
    decode_raw_transaction only_param parse_requests parse_trimmed check_batch one_request touches
    decode_transfer transfer_by_layout address_arg transfer_topic set_bytes
startup = tt

-- signs, and numbers that do not fit
numbers :
    (atoi "-9223372036854775808" ≡ some (negsuc 9223372036854775807))
    × (atoi "9223372036854775808" ≡ none)
    × (atoi "+7" ≡ some (pos 7))
    × (atoi "7 " ≡ none)
    × (parse_uint "18446744073709551615" ≡ some 18446744073709551615)
    × (parse_uint "18446744073709551616" ≡ none)
    × (parse_uint "+7" ≡ none)
unfolding startup
numbers = (refl, refl, refl, refl, refl, refl, refl)

-- the first variable that is missing ends the run
missing :
    read_settings (λ key. "") slog (λ s. none)
    ≡ err (wrap "missing required environment variable" (plain "UPSTREAM_URL"))
unfolding startup
missing = refl

read_settings_iff_example :
    (read_settings env slog outside.parse_url ≡ ok settings)
    ↔ IsSpelled env slog outside.parse_url settings
read_settings_iff_example = read_settings_iff env slog outside.parse_url settings

abbrev pub started : Server (Unit {0})
started = elim (main geth7 outside codec json tt).0 [
  | ok srv ↦ srv
  | err e ↦ record {
    addr = "";
    handler = λ body w. (forwarded [], w);
    read_header_timeout = 0;
    read_timeout = 0;
    write_timeout = 0;
  }
]

pub main-started : (main geth7 outside codec json tt).0 ≡ ok started
unfolding startup
main-started = refl

trace-touches :
    (t : CallFrame) → ok trace ≡ ok t → (is_party geth7 7 decoded || touches geth7 7 t) ≡ true
unfolding startup
trace-touches t e = let same : trace ≡ t = cc in rw (← same) refl

abbrev pub world : World (Unit {0})
world = record { entries = []; known = []; outside = tt }

main-listed_example : (started.handler (ok batch_body) world).0 ≢ forwarded batch_body
unfolding startup
main-listed_example =
    main-listed geth7 outside codec json tt started (replicate 42 b'a' ∷ []) 7 batch_body batch_body
      (query ∷ []) [] send decoded world main-started refl refl refl refl refl
      (λ n t e. trace-touches t e)

main-IsChecked_example :
    (s : Settings) × IsSpelled env slog outside.parse_url s
    × IsChecked geth7 outside codec json s
    × (started.addr ≡ s.listen_addr)
main-IsChecked_example = main-IsChecked geth7 outside codec json tt started main-started

abbrev Anywhere : Unit {0} → Type 0
Anywhere n = Unit {0}

settings-IsSpelled : IsSpelled env slog outside.parse_url settings
unfolding startup
settings-IsSpelled = record {
  logs = (refl, refl);
  names_url = refl;
  names_addr = refl;
  names_file = refl;
  has_url = λ e. ground (arith, eq_iff "http://node:8545" "");
  has_addr = λ e. ground (arith, eq_iff ":8080" "");
  has_file = λ e. ground (arith, eq_iff "list.txt" "");
  is_full =
      (refl, (λ e. ground (arith, eq_iff "http" "")), λ e. ground (arith, eq_iff "node:8545" ""));
  spells_threshold = refl;
  spells_blocks = refl;
  has_blocks = omega arith;
  spells_percent = refl;
}

node-IsNode : IsNode Anywhere node 7200
node-IsNode = record {
  frame = trace;
  typed = λ e. ground (arith, eq_iff "CALL" "");
  simulates = record { at = λ w p. (refl, tt) };
  latest = 10_000;
  counts = record { at = λ w p. (refl, tt) };
  code = 1 ∷ [];
  keeps = record { at = λ w p. (refl, tt) };
}

settings-IsInRange : IsInRange Anywhere geth7 outside settings 60 50 (replicate 42 b'a' ∷ [])
unfolding startup
settings-IsInRange = record {
  is_threshold = refl;
  positive = omega arith;
  is_percent = refl;
  from_one = omega arith;
  to_hundred = omega arith;
  opens = refl;
  valid = refl;
}

main-serves_example :
    (srv : Server (Unit {0})) × ((main geth7 outside codec json tt).0 ≡ ok srv)
    × Anywhere (main geth7 outside codec json tt).1
main-serves_example =
    main-serves Anywhere geth7 outside settings 60 50 (replicate 42 b'a' ∷ []) codec json tt tt
      settings-IsSpelled settings-IsInRange (record { at = λ w p. (refl, tt) }) node-IsNode
      (inl refl)
