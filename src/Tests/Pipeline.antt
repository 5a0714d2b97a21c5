-- ===== src/Tests/Pipeline.antt =====
-- Requests on their way through the proxy, the screener and the engine.
use tx_firewall.Base.{
  ◌^◌, ◌*◌, inl, arith, any, String, some, none, as_rpc_error, as_node_error, concat, join, wrap,
  rpc_error, ℕ, ◌≤◌, true, false, List, [], ◌∷◌, ◌≡◌, ◌≢◌, refl, ◌↔◌, ◌||◌, ok, err, length, plain,
  sum_by, set_bytes, leb,
}
use tx_firewall.Base.Exec.{pure}
use tx_firewall.TxDecode.{decode_raw_transaction, only_param}
use tx_firewall.Simulate.{CallFrame}
use tx_firewall.Analysis.{Analysis, from_tx}
use tx_firewall.Analysis.Touched.{is_party, touches}
use tx_firewall.Rules.{Finding}
use tx_firewall.Risk.{
  Verdict, Engine, evaluate, reaches, add_finding, add_findings, add_int, judge, run_rules,
  new_engine,
}
use tx_firewall.Risk.Blocking.{Runs, IsVerdictOn, total, any_hard, evaluate_iff}
use tx_firewall.JsonRpc.{
  Request, parse_requests, parse_trimmed, check_batch, one_request, error_response,
}
use tx_firewall.Proxy.{
  forwarded, bad_request, handle, handle_requests, reply_to, screen_requests, screen_request,
  screen_decoded, verdict_response,
}
use tx_firewall.Proxy.Passing.{AllPass, handle-forwarded_iff}
use tx_firewall.Firewall.{screener, new_screener_engine, checkers}
use tx_firewall.Rules.Sanctioned
use tx_firewall.Rules.PrivilegeChange
use tx_firewall.Rules.DeployAndCall
use tx_firewall.Rules.DelegatecallToFresh
use tx_firewall.Rules.UnlimitedApproval
use tx_firewall.Rules.NftDrainer
use tx_firewall.Rules.LargeOutflow
use tx_firewall.Rules.FlashLoanOutflow
use tx_firewall.Rules.Outflows
use tx_firewall.Rules.{one_finding}
use tx_firewall.Sanctions.Any.{any_checker}
use tx_firewall.Sanctions.Listed.{list_checker}
use tx_firewall.Analysis.{created_in_tx, tx_addresses}
use tx_firewall.Firewall.{rules, weighted_rules, find_outflows}
use tx_firewall.Sanctions.Listed.{is_listed}
use tx_firewall.Events.{address_arg}
use tx_firewall.Events.Transfer.{decode_transfer, transfer_by_layout, transfer_topic}
use tx_firewall.Firewall.Headline.{handle-listed}
use tx_firewall.Base.Exec.{Exec, raise}
use tx_firewall.Base.Int.{ℤ, negsuc}
use tx_firewall.Simulate
use tx_firewall.Simulate.{CallArgs, simulate, trace_result, is_tx_rejection}
use tx_firewall.Screen.{screen, screen_trace, verdict_of_error}
use tx_firewall.Screen.Unsimulated.{
  IsInvalid, IsNoRejection, refused_with, screen-unanswered, handle-unsimulated,
}
use tx_firewall.Proxy.Rejecting.{IsReason, handle-rejected}
use tx_firewall.JsonRpc.{ErrorResponse}
use tx_firewall.Events.Privilege.{ownership_transferred}
use tx_firewall.Firewall.Scores.{evaluate-exact}
use tx_firewall.Proxy.Log.{Entry, handle_log}
use tx_firewall.Proxy.Log.Recorded.{is_refusal, lines, handle-recorded}
use tx_firewall.Tests.World.{
  geth, cfg, list, engine, codec, json, batch_body, one_body, decoded, trace, send, query,
}

program : Unit {0}
unfolding handle handle_requests reply_to screen_requests screen_request screen_decoded
    parse_requests parse_trimmed check_batch one_request decode_raw_transaction only_param
    new_screener_engine new_engine checkers Outflows.check_percent is_listed evaluate run_rules
    add_findings add_finding judge reaches add_int sum_by touches decode_transfer transfer_by_layout
    address_arg transfer_topic set_bytes error_response verdict_response
program = tt

-- a query is forwarded, and an unreadable body is not
query_forwarded :
    ((handle codec (screener geth cfg engine) json (ok one_body) tt).0 ≡ forwarded one_body)
    × ((handle codec (screener geth cfg engine) json (err (plain "cut off")) tt).0
        ≡ bad_request "request body too large or unreadable")
unfolding program
query_forwarded = (refl, refl)

handle-forwarded_iff_example :
    ((handle codec (screener geth cfg engine) json (ok one_body) tt).0 ≡ forwarded one_body) ↔ (
      (reqs : List Request) × (length one_body ≤ 5 * 2 ^ 20)
      × (parse_requests json one_body ≡ ok reqs)
      × AllPass codec (screener geth cfg engine) reqs tt)
handle-forwarded_iff_example =
    handle-forwarded_iff codec (screener geth cfg engine) json one_body tt

abbrev batch_log : List Entry
batch_log = handle_log geth (λ bs. "0x") codec (screener geth cfg engine) json (ok batch_body) tt

-- the query sends nothing, and the transaction touches address 7, which is listed
handle-recorded_example :
    ((handle codec (screener geth cfg engine) json (ok batch_body) tt).0 ≡ forwarded batch_body)
    ↔ ((any is_refusal batch_log ≡ false) × (sum_by lines batch_log ≡ 1))
unfolding program
handle-recorded_example =
    handle-recorded geth (λ bs. "0x") codec (screener geth cfg engine) json batch_body
      (query ∷ send ∷ []) tt (omega arith) refl

trace-touches :
    (t : CallFrame) → ok trace ≡ ok t → (is_party geth 7 decoded || touches geth 7 t) ≡ true
unfolding program
trace-touches t e = let same : trace ≡ t = cc in rw (← same) refl

-- the batch's second request sends tokens to the listed address 7
listed_batch :
    (handle codec (screener geth cfg engine) json (ok batch_body) tt).0 ≢ forwarded batch_body
unfolding program
listed_batch =
    handle-listed geth cfg list engine codec json 7 batch_body batch_body (query ∷ []) [] send
      decoded tt refl refl refl refl refl refl (λ w t e. trace-touches t e)

-- one finding of weight 40, one of 20
abbrev finding : ℕ → Finding
finding n = record { rule = "r"; hard_block = false; weight = n; reason = "" }

abbrev two_rules : Engine (Unit {0})
two_rules = record {
  rules =
      record { name = "r"; evaluate = λ a. pure (finding 40 ∷ []) }
      ∷ record { name = "s"; evaluate = λ a. pure (finding 20 ∷ []) }
      ∷ [];
  threshold = 60;
}

abbrev findings : List Finding
findings = finding 40 ∷ finding 20 ∷ []

abbrev blocked : Verdict
blocked = record { block = true; score = 60; findings = findings }

abbrev analysis : Analysis
analysis = from_tx decoded

evaluate_iff_example :
    (evaluate two_rules analysis tt ≡ (ok blocked, tt))
    ↔ ((fs : List Finding) × Runs analysis two_rules.rules tt fs tt × IsVerdictOn 60 fs blocked)
evaluate_iff_example = evaluate_iff two_rules analysis tt tt blocked

-- a privilege change that the transaction makes weighs 40
abbrev changed : Analysis
changed = record (from_tx decoded) {
  privileged =
      record { kind = ownership_transferred; contract = 6; subject = 5; previous = 6; role = [] }
      ∷ [];
}

abbrev flagged : Verdict
flagged = record {
  block = false;
  score = 40;
  findings =
      record {
        rule = "privilege-change";
        hard_block = false;
        weight = 40;
        reason = "privilege change: ownership of 0x transferred to 0x";
      }
      ∷ [];
}

all_rules : Unit {0}
unfolding evaluate run_rules add_findings add_finding judge reaches add_int new_screener_engine
    new_engine checkers Outflows.check_percent rules weighted_rules find_outflows Sanctioned.rule
    Sanctioned.check_all any_checker list_checker is_listed PrivilegeChange.rule
    PrivilegeChange.evaluate PrivilegeChange.changes PrivilegeChange.describe DeployAndCall.rule
    DeployAndCall.evaluate DeployAndCall.scan DelegatecallToFresh.rule DelegatecallToFresh.evaluate
    DelegatecallToFresh.find_targets UnlimitedApproval.rule UnlimitedApproval.evaluate
    UnlimitedApproval.find_approvals NftDrainer.rule NftDrainer.evaluate NftDrainer.find_grants
    LargeOutflow.rule LargeOutflow.evaluate Outflows.find Outflows.find_in FlashLoanOutflow.rule
    FlashLoanOutflow.evaluate one_finding created_in_tx concat join from_tx tx_addresses
all_rules = tt

evaluate-exact_example :
    (flagged.score ≡ total flagged.findings)
    × (flagged.score ≤ 200)
    × (flagged.block ≡ (any_hard flagged.findings || leb engine.threshold flagged.score))
unfolding all_rules sum_by
evaluate-exact_example = evaluate-exact geth cfg engine changed tt flagged refl refl

-- a node that refuses the transaction, and one that is down
abbrev refusing : CallArgs → Exec (Unit {0}) CallFrame
refusing args = raise (rpc_error (negsuc 31999) "insufficient funds")

abbrev down : CallArgs → Exec (Unit {0}) CallFrame
down args = raise (plain "connection refused")

screen-unanswered_example :
    ((code : ℤ) (message : String)
      → as_rpc_error (rpc_error (negsuc 31999) "insufficient funds") ≡ some (code, message)
      → IsInvalid code
      → screen geth (simulate refusing) engine decoded tt ≡ (ok (refused_with message), tt))
    × (as_node_error (rpc_error (negsuc 31999) "insufficient funds") ≡ none
        → IsNoRejection (as_rpc_error (rpc_error (negsuc 31999) "insufficient funds"))
        → screen geth (simulate refusing) engine decoded tt
          ≡ (err (wrap "debug_traceCall" (rpc_error (negsuc 31999) "insufficient funds")), tt))
screen-unanswered_example =
    screen-unanswered geth refusing engine decoded tt
      (rpc_error (negsuc 31999) "insufficient funds") refl

-- what the theorem says of the two errors
refused :
    screen geth (simulate refusing) engine decoded tt ≡ (ok (refused_with "insufficient funds"), tt)
refused = screen-unanswered_example.0 (negsuc 31999) "insufficient funds" refl (inl refl)

handle-unsimulated_example :
    (handle codec (screen geth (simulate down) engine) json (ok batch_body) tt).0
    ≢ forwarded batch_body
unfolding program
handle-unsimulated_example =
    handle-unsimulated geth down engine codec json batch_body batch_body (query ∷ []) [] send
      decoded tt refl refl refl (λ w. tt)

abbrev failed : ErrorResponse
failed = record {
  jsonrpc = "2.0";
  id = b'1' ∷ [];
  code = negsuc 32002;
  message = "transaction rejected: screening failed";
}

handle-rejected_example :
    IsReason codec
      (screen geth (simulate down) engine)
      tt
      (handle codec (screen geth (simulate down) engine) json (ok batch_body) tt).1
      (parse_requests json batch_body)
      failed
unfolding program screen screen_trace simulate Simulate.trace trace_result verdict_of_error
handle-rejected_example =
    handle-rejected codec (screen geth (simulate down) engine) json batch_body tt failed refl
