-- ===== src/Analysis.antt =====
-- internal/analysis/analysis.go: the rule-ready view of a transaction, built from its call trace.
pub mod Frames
pub mod Flows
pub mod Loans
pub mod Fields
pub mod Touched
pub mod Unique
pub mod Order
pub mod Logged
pub mod Created
use tx_firewall.Base.{
  ℕ, zero, suc, ◌+◌, String, Bool, true, false, Option, none, some, List, [], ◌∷◌, ◌++◌, not,
  str_eq, ◌==◌, if◌then◌else◌, contains, get_elem?, drop, ltb,
}
use tx_firewall.Base.Int.{ℤ, is_positive, pos_part}
use tx_firewall.Geth.{Geth, Address, zero_address}
use tx_firewall.TxDecode.{Decoded}
use tx_firewall.Simulate.{CallFrame, call, Calls, no_calls, and_then, CallInfo, Log, info}
use tx_firewall.Events.Transfer.{Transfer, decode_transfer}
use tx_firewall.Events.Approval.{Approval, ApprovalForAll, decode_approval, decode_approval_for_all}
use tx_firewall.Events.Privilege.{PrivilegeChange, decode_privilege_change}
use tx_firewall.Events.FlashLoan.{FlashLoanEvent, decode_flash_loan}
use Frames.{Frame, is_create}
use Flows.{Flow, compute_flows}
use Loans.{FlashLoan, find_repaid_loans, merge_flash_loans}

pub record Analysis : Type 0 where
  pub tx : Decoded
  pub addresses : List Address
  pub reverted : Bool
  pub frames : List Frame
  pub created : List Address
  pub logs : List Log
  pub transfers : List Transfer
  pub approvals : List Approval
  pub approvals_for_all : List ApprovalForAll
  pub privileged : List PrivilegeChange
  pub flows : List Flow
  pub flash_loans : List FlashLoan

-- The loop of SubtreeEnd, over the frames from `j` on.
unfoldable pub skip_deeper : ℕ → ℕ → List Frame → ℕ
skip_deeper depth j [] = j
skip_deeper depth j (f ∷ fs) =
    let rest = skip_deeper depth (j + 1) fs in if ltb depth f.depth then rest else j

-- Frames[i] is read only if there is a frame behind it, so an `i` past the end is no fault.
unfoldable pub subtree_end : Analysis → ℕ → ℕ
subtree_end a i = elim (get_elem? a.frames i) [
  | none ↦ i + 1
  | some f ↦ skip_deeper f.depth (i + 1) (drop (i + 1) a.frames)
]

-- addAddress
unfoldable pub add_address : Address → Analysis → Analysis
add_address addr a =
    if contains addr a.addresses then a else record a { addresses = a.addresses ++ addr ∷ [] }

unfoldable pub created_in_tx : Analysis → Address → Bool
created_in_tx a addr = contains addr a.created

unfoldable pub tx_addresses : Decoded → List Address
tx_addresses d = elim d.tx.to [
  | none ↦ d.from ∷ []
  | some to ↦ if not (to == d.from) then d.from ∷ to ∷ [] else d.from ∷ []
]

unfoldable pub from_tx : Decoded → Analysis
from_tx d = record {
  tx = d;
  addresses = tx_addresses d;
  reverted = false;
  frames = [];
  created = [];
  logs = [];
  transfers = [];
  approvals = [];
  approvals_for_all = [];
  privileged = [];
  flows = [];
  flash_loans = [];
}

-- A frame's ETH; the field is nil unless the trace's value is positive.
abbrev pub frame_value : Option ℤ → Option ℕ
frame_value none = none
frame_value (some z) = if is_positive z then some (pos_part z) else none

abbrev pub frame_of : CallInfo → ℕ → Frame
frame_of f depth = record {
  type = f.type;
  from = f.from;
  to = elim f.to [ none ↦ zero_address | some to ↦ to ];
  value = frame_value f.value;
  depth = depth;
}

-- The `if f.To != nil` of collect.
unfoldable pub enter_callee : Option Address → Frame → Analysis → Analysis
enter_callee none frame a = a
enter_callee (some to) frame a =
    let a' = add_address to a in
    if is_create frame then record a' { created = a'.created ++ to ∷ [] } else a'

-- collect, up to the logs.
unfoldable pub enter : CallInfo → ℕ → Analysis → Analysis
enter f depth a =
    let frame = frame_of f depth in
    let a' = enter_callee f.to frame a in record a' { frames = a'.frames ++ frame ∷ [] }

-- The five `if`s of the loop over the logs.
unfoldable pub note_transfer : Option Transfer → Analysis → Analysis
note_transfer none a = a
note_transfer (some tr) a = add_address tr.to (record a { transfers = a.transfers ++ tr ∷ [] })

unfoldable pub note_approval : Option Approval → Analysis → Analysis
note_approval none a = a
note_approval (some ap) a = record a { approvals = a.approvals ++ ap ∷ [] }

unfoldable pub note_approval_for_all : Option ApprovalForAll → Analysis → Analysis
note_approval_for_all none a = a
note_approval_for_all (some ap) a = record a { approvals_for_all = a.approvals_for_all ++ ap ∷ [] }

unfoldable pub note_privilege : Option PrivilegeChange → Analysis → Analysis
note_privilege none a = a
note_privilege (some pc) a = record a { privileged = a.privileged ++ pc ∷ [] }

abbrev pub announced : FlashLoanEvent → FlashLoan
announced fl = record {
  lender = fl.lender;
  token = fl.token;
  amount = fl.amount;
  source = fl.protocol;
}

unfoldable pub note_flash_loan : Option FlashLoanEvent → Analysis → Analysis
note_flash_loan none a = a
note_flash_loan (some fl) a = record a { flash_loans = a.flash_loans ++ announced fl ∷ [] }

-- The end of Build, from what `collect` leaves.
unfoldable pub finish : Analysis → Analysis
finish a = record a {
  flows = compute_flows a.frames a.transfers;
  flash_loans = merge_flash_loans a.flash_loans (find_repaid_loans a.transfers);
}

module _ (g : Geth) where
  unfoldable pub collect_log : Log → Analysis → Analysis
  collect_log l a = note_flash_loan (decode_flash_loan g l.address l.topics l.bytes) (
      note_privilege (decode_privilege_change g l.address l.topics l.bytes) (
        note_approval_for_all (decode_approval_for_all g l.address l.topics l.bytes) (
          note_approval (decode_approval g l.address l.topics l.bytes) (
            note_transfer (decode_transfer g l.address l.topics l.bytes)
              (record a { logs = a.logs ++ l ∷ [] })))))

  unfoldable pub collect_logs : List Log → Analysis → Analysis
  collect_logs [] a = a
  collect_logs (l ∷ ls) a = collect_logs ls (collect_log l a)

  unfoldable mutual
    pub collect : CallFrame → ℕ → Analysis → Analysis
    collect (call f calls) depth a =
        if not (str_eq f.error "")
        then a
        else collect_calls calls (depth + 1) (collect_logs f.logs (enter f depth a))

    pub collect_calls : Calls → ℕ → Analysis → Analysis
    collect_calls no_calls depth a = a
    collect_calls (and_then f fs) depth a = collect_calls fs depth (collect f depth a)

  unfoldable pub build : Decoded → Option CallFrame → Analysis
  build d none = from_tx d
  build d (some trace) =
      finish
        (collect trace 0 (record (from_tx d) { reverted = not (str_eq (info trace).error "") }))
