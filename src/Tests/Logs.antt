-- ===== src/Tests/Logs.antt =====
-- What a trace's logs lead to: what the analysis keeps, and what the privilege rule finds.
use tx_firewall.Base.{String, true, false, contains, refl}
use tx_firewall.Simulate.{CallInfo, and_then, no_calls}
use tx_firewall.Base.{some, [], ◌∷◌, ◌≡◌, concat, join}
use tx_firewall.Simulate.{CallFrame, call, Log}
use tx_firewall.Analysis.{build}
use tx_firewall.Analysis.Logged.{live_logs, decoded, on_log, announced_by, build-logged}
use tx_firewall.Analysis.Created.{creations}
use tx_firewall.Analysis.Loans.{find_repaid_loans, merge_flash_loans}
use tx_firewall.Events.Transfer.{decode_transfer}
use tx_firewall.Events.Approval.{decode_approval, decode_approval_for_all}
use tx_firewall.Events.Privilege.{
  decode_privilege_change, lookup_topic, privilege_events, build_subject, build_previous_subject,
  build_role, privilege_of_args,
}
use tx_firewall.Rules.One.{reported}
use tx_firewall.Events.{event_args, words}
use tx_firewall.Rules.PrivilegeChange.{describe, evaluate}
use tx_firewall.Rules.PrivilegeChange.Found.{evaluate_privileges}
use tx_firewall.Analysis.Frames.{is_call, is_create}
use tx_firewall.Rules.DeployAndCall
use tx_firewall.Rules.DeployAndCall.Deployed.{is_called, created_after, called-is_called}
use tx_firewall.Tests.World.{geth, decoded as tx_decoded, root_info, root_calls, word}

-- contract 8 gets a new owner, 9
abbrev owner_log : Log
owner_log = record { address = 8; topics = word 2 ∷ word 5 ∷ word 9 ∷ []; bytes = [] }

abbrev pub owned : CallFrame
owned = call (record root_info { logs = owner_log ∷ [] }) root_calls

build-logged_example :
    ((build geth tx_decoded (some owned)).transfers
      ≡ decoded (on_log geth decode_transfer) (live_logs owned))
    × ((build geth tx_decoded (some owned)).approvals
        ≡ decoded (on_log geth decode_approval) (live_logs owned))
    × ((build geth tx_decoded (some owned)).approvals_for_all
        ≡ decoded (on_log geth decode_approval_for_all) (live_logs owned))
    × ((build geth tx_decoded (some owned)).privileged
        ≡ decoded (on_log geth decode_privilege_change) (live_logs owned))
    × ((build geth tx_decoded (some owned)).flash_loans
        ≡ merge_flash_loans
            (decoded (announced_by geth) (live_logs owned))
            (find_repaid_loans (decoded (on_log geth decode_transfer) (live_logs owned))))
build-logged_example = build-logged geth tx_decoded owned

abbrev owned_twice : CallFrame
owned_twice = call (record root_info { logs = owner_log ∷ owner_log ∷ [] }) root_calls

evaluate_privileges_example :
    evaluate geth (build geth tx_decoded (some owned_twice))
    ≡ record {
      rule = "privilege-change";
      hard_block = false;
      weight = 40;
      reason =
          "privilege change: ownership of 0x transferred to 0x, ownership of 0x transferred to 0x";
    }
      ∷ []
unfolding reported concat join describe creations live_logs decode_privilege_change lookup_topic
    privilege_events event_args words build_subject build_previous_subject build_role
    privilege_of_args
evaluate_privileges_example = evaluate_privileges geth tx_decoded owned_twice

-- the root creates 9, which is called below its creation, where it does not count, and behind it
abbrev step_to : String → CallInfo
step_to type = record root_info { type = type; to = some 9 }

abbrev deploying : CallFrame
deploying = call root_info (
    and_then (call (step_to "CREATE2") (and_then (call (step_to "CALL") no_calls) no_calls))
      (and_then (call (step_to "CALL") no_calls) no_calls))

abbrev creating : CallFrame
creating = call root_info (
    and_then (call (step_to "CREATE2") (and_then (call (step_to "CALL") no_calls) no_calls))
      no_calls)

called-is_called_example :
    contains 9
      (DeployAndCall.scan
        (build geth tx_decoded (some deploying))
        0
        (build geth tx_decoded (some deploying)).frames
        DeployAndCall.no_scan).called
    ≡ is_called 9 false deploying
called-is_called_example = called-is_called geth tx_decoded deploying 9

behind : (is_called 9 false deploying ≡ true) × (is_called 9 false creating ≡ false)
unfolding is_called is_call is_create created_after
behind = (refl, refl)
