-- ===== src/Tests/Served.antt =====
-- What a firewall that is started decides, before a node that keeps to its answers.
use tx_firewall.Base.{
  node_error, err, set_bytes, some, [], ◌∷◌, ◌==◌, refl, ok, false, Bool-cases, inl, inr,
  if◌then◌else◌, replicate,
}
use tx_firewall.Base.Exec.{pure, Returns}
use tx_firewall.Geth.{Address}
use tx_firewall.Strconv.{atoi, parse_uint}
use tx_firewall.Simulate
use tx_firewall.TxDecode.{Decoded}
use tx_firewall.Simulate.{simulate, new_call_args}
use tx_firewall.Chainstate.{established}
use tx_firewall.Chainstate.Freshness
use tx_firewall.Chainstate.Balances
use tx_firewall.Sanctions.Listed.{
  load_list_checker, trim_space, trim_left, cut_comment, is_space, put_all, put_address,
}
use tx_firewall.Firewall.Decision.{Answers}
use tx_firewall.Firewall.Decision.Forwarded.{Facts}
use tx_firewall.Firewall.Main.Steady.{IsSteadyNode}
use tx_firewall.Firewall.Main.Decided.{IsConfigured, Decides, main-Decides}
use tx_firewall.Tests.World.{codec, json, batch_body, trace}
use tx_firewall.Tests.Startup.{geth7, outside, started, world, main-started}

-- Every contract is established; a balance is 100 of ETH and 0 of any token.
abbrev known : Answers
known = record {
  flagged = λ x. false;
  is_fresh = λ x. false;
  status = λ x. established;
  balance = λ asset holder. if asset == 0 then some 100 else some 0;
}

abbrev facts : Facts
facts = record {
  known = known;
  trace = λ d. if d.tx.value == 77 then err (node_error "insufficient funds") else ok trace;
  list = record { set = 7 ∷ [] };
  percent = 50;
  threshold = 60;
}

abbrev Always : Unit {0} → Type 0
Always n = Unit

balance-Returns :
    (asset holder : Address)
    → Returns Always
        (Balances.balance geth7 (λ a. pure 100) (λ a bs. pure (replicate 32 0)) asset holder)
        (ok (known.balance asset holder))
unfolding Balances.balance Balances.read_balance set_bytes
balance-Returns asset holder = record {
  at = λ n h. elim (Bool-cases (asset == 0)) [
    | inl eth ↦ rw eth (refl, tt)
    | inr token ↦ rw token (refl, tt)
  ];
}

node-traces :
    (d : Decoded)
    → Returns Always
        (simulate (outside.client "http://node:8545").call_context d)
        (if d.tx.value == 77 then err (node_error "insufficient funds") else ok trace)
unfolding simulate new_call_args Simulate.trace_result Simulate.is_tx_rejection
node-traces d = record {
  at = λ n h. elim (Bool-cases (d.tx.value == 77)) [
    | inl refused ↦ rw refused (refl, tt)
    | inr fine ↦ rw fine (refl, tt)
  ];
}

node-IsSteadyNode : IsSteadyNode geth7 outside facts 7200 Always (outside.client "http://node:8545")
unfolding simulate Simulate.trace_result Freshness.status Freshness.past_block
    Freshness.block_before Freshness.status_of_code Freshness.status_of_old
node-IsSteadyNode = record {
  traces = node-traces;
  statuses = λ x. record { at = λ n h. (refl, tt) };
  freshness = λ x. refl;
  balances = λ asset holder. balance-Returns asset holder;
}

configured : IsConfigured geth7 outside facts 7200 Always
unfolding atoi parse_uint load_list_checker trim_space trim_left cut_comment is_space put_all
    put_address
configured = record { loads = refl; threshold_ = refl; percent_ = refl; blocks = refl }

main-Decides_example :
    Decides geth7 outside facts 7200 Always codec json started.handler batch_body world
main-Decides_example =
    main-Decides geth7 outside facts 7200 Always codec json tt started batch_body world configured
      node-IsSteadyNode (record { unset = λ e x. refl; set_to = λ set_. absurd (set_ refl) })
      main-started (record { entries = tt; established_ = tt; outside = tt })
