-- ===== src/Tests/Traces.antt =====
-- The analysis of a concrete call trace.
use tx_firewall.Geth.{Address}
use tx_firewall.Base.{
  none, ◌+◌, true, some, List, [], ◌∷◌, ◌≡◌, refl, ◌||◌, contains, Distinct, All, length, sum_by,
  arith,
}
use tx_firewall.Events.Transfer.{Transfer}
use tx_firewall.Analysis.{Analysis, build, subtree_end, from_tx}
use tx_firewall.Analysis.Frames.{Frame}
use tx_firewall.Analysis.Touched.{touches, is_party, contains-build}
use tx_firewall.Analysis.Unique.{build-IsUnique}
use tx_firewall.Analysis.Order.{placed, preorder, preorder_calls, build-frames, subtree_end_lem}
use tx_firewall.Analysis.Flows.{Key, compute_flows}
use tx_firewall.Analysis.Flows.Movements.{movements}
use tx_firewall.Analysis.Flows.Totals.{sent, received, taken, given, compute_flows-totals}
use tx_firewall.Analysis.Flows.Balance.{
  all_sent, all_received, HasOneFlowEach, compute_flows-IsLedger,
}
use tx_firewall.Analysis.Loans.{find_repaid_loans}
use tx_firewall.Analysis.Loans.Pattern.{
  IsFoundIn, IsOnce, has_loan, find_repaid_loans-found, find_repaid_loans_complete,
}
use tx_firewall.Analysis.Loans.{FlashLoan, merge_flash_loans}
use tx_firewall.Analysis.Loans.Merge.{merge_flash_loans-keep}
use tx_firewall.Tests.World.{geth, decoded, trace, root_info, root_calls, moved}

contains-build_example :
    contains 7 (build geth decoded (some trace)).addresses
    ≡ (is_party geth 7 decoded || touches geth 7 trace)
contains-build_example = contains-build geth 7 decoded trace

build-IsUnique_example : Distinct (build geth decoded (some trace)).addresses
build-IsUnique_example = build-IsUnique geth decoded (some trace)

build-frames_example : (build geth decoded (some trace)).frames ≡ preorder trace 0
build-frames_example = build-frames geth decoded trace

-- the root frame has one call that is not rolled back
abbrev analysis : Analysis
analysis = record (from_tx decoded) { frames = preorder trace 0 }

subtree_end_lem_example : subtree_end analysis 0 ≡ 1 + length (preorder_calls root_calls 1)
unfolding preorder
subtree_end_lem_example = subtree_end_lem analysis [] [] root_info root_calls 0 refl tt

-- address 6 gets 3 wei and 4 of the token, which it sends on
abbrev frames : List Frame
frames = placed root_info 0 ∷ []

abbrev back : Transfer
back = record moved { from = 7; to = 6; amount = some 5 }

abbrev transfers : List Transfer
transfers = moved ∷ back ∷ []

abbrev holding : Key
holding = record { asset = 8; holder = 6 }

compute_flows-totals_example :
    (sent holding (compute_flows frames transfers)
      ≡ sum_by (taken holding) (movements frames transfers))
    × (received holding (compute_flows frames transfers)
        ≡ sum_by (given holding) (movements frames transfers))
compute_flows-totals_example = compute_flows-totals holding frames transfers

compute_flows-IsLedger_example :
    HasOneFlowEach (compute_flows frames transfers)
    × ((a : Address)
        → all_sent a (compute_flows frames transfers)
          ≡ all_received a (compute_flows frames transfers))
compute_flows-IsLedger_example = compute_flows-IsLedger frames transfers

find_repaid_loans-found_example :
    All (IsFoundIn transfers) (find_repaid_loans transfers) × IsOnce (find_repaid_loans transfers)
find_repaid_loans-found_example = find_repaid_loans-found transfers

find_repaid_loans_complete_example :
    has_loan (record { lender = 6; token = 8 }) (find_repaid_loans (moved ∷ back ∷ [])) ≡ true
unfolding sum_by
find_repaid_loans_complete_example = find_repaid_loans_complete [] moved (back ∷ []) (record {
  fungible = refl;
  lent = λ e. ground arith;
  other = λ e. ground arith;
  positive = omega arith;
  repaid = omega arith;
})

abbrev announced : FlashLoan
announced = record { lender = 6; token = 0; amount = none; source = "Uniswap V3" }

abbrev other : FlashLoan
other = record announced { lender = 7; source = "borrow-and-repay pattern" }

merged_once : merge_flash_loans (announced ∷ []) (announced ∷ other ∷ []) ≡ announced ∷ other ∷ []
merged_once = merge_flash_loans-keep (announced ∷ []) (announced ∷ other ∷ [])
