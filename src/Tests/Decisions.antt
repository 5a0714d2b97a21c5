-- ===== src/Tests/Decisions.antt =====
-- What the screener decides on a trace.
use tx_firewall.Base.{
  ◌^◌, ◌*◌, List, length, ◌↔◌, ◌≤◌, false, some, [], ◌∷◌, ◌≡◌, ◌||◌, leb, refl, ok,
}
use tx_firewall.Base.Exec.{pure, Returns-pure}
use tx_firewall.Sanctions.Listed.{list_checker}
use tx_firewall.Chainstate.{established}
use tx_firewall.Risk.{Verdict, Engine, new_engine}
use tx_firewall.Rules.Outflows.{check_percent}
use tx_firewall.Firewall.{ScreenerConfig, screener, new_screener_engine, checkers, rules}
use tx_firewall.Firewall.Decision.{Answers, points, touches_sanctioned}
use tx_firewall.Firewall.Decision.Weighted.{IsAnswering}
use tx_firewall.Firewall.Decision.Taken.{screener-decides}
use tx_firewall.Firewall.Decision.Forwarded.{Facts, AllHarmless, handle-decides}
use tx_firewall.JsonRpc.{Request, parse_requests}
use tx_firewall.Proxy.{forwarded, handle}
use tx_firewall.Tests.World.{geth, codec, json, batch_body, decoded, list, cfg}
use tx_firewall.Tests.Logs.{owned}

-- The node calls no contract fresh, and every balance is 100.
abbrev known : Answers
known = record {
  flagged = λ x. false;
  is_fresh = λ x. false;
  status = λ x. established;
  balance = λ asset holder. some 100;
}

abbrev Always : Unit {0} → Type 0
Always w = Unit

abbrev owning : ScreenerConfig (Unit {0})
owning = record cfg { simulator = λ d. pure owned }

answering : IsAnswering Always owning known
answering = record {
  oracle = λ x. refl;
  freshness = λ x. Returns-pure false;
  status = λ x. Returns-pure established;
  balances = λ asset holder. Returns-pure (some 100);
}

abbrev owning_engine : Engine (Unit {0})
owning_engine = record { rules = rules geth owning (list_checker list ∷ []) 50; threshold = 60 }

-- a privilege change, on its own, is below the threshold
screener-decides_example :
    (v : Verdict) × ((screener geth owning owning_engine decoded tt).0 ≡ ok v)
    × (v.score ≡ points geth known 50 decoded owned)
    × (v.block ≡ (
        touches_sanctioned geth known 50 decoded owned list
        || leb 60 (points geth known 50 decoded owned)))
    × Unit {0}
unfolding new_screener_engine new_engine checkers check_percent
screener-decides_example =
    screener-decides geth Always owning known list 50 60 decoded owned owning_engine tt
      (record { named = refl; percentage = refl; limit = refl }) refl answering (Returns-pure owned)
      tt

abbrev facts : Facts
facts = record { known = known; trace = λ d. ok owned; list = list; percent = 50; threshold = 60 }

decided_batch :
    ((handle codec (screener geth owning owning_engine) json (ok batch_body) tt).0
      ≡ forwarded batch_body)
    ↔ ((reqs : List Request) × (length batch_body ≤ 5 * 2 ^ 20)
        × (parse_requests json batch_body ≡ ok reqs)
        × AllHarmless geth codec facts reqs)
unfolding new_screener_engine new_engine checkers check_percent
decided_batch =
    handle-decides geth codec facts Always owning owning_engine
      (record { named = refl; percentage = refl; limit = refl }) refl answering
      (λ d. Returns-pure owned) json batch_body tt tt
