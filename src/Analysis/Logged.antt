-- ===== src/Analysis/Logged.antt =====
-- What an analysis keeps of the logs of a trace (collect of internal/analysis/analysis.go).
use mathlib.Core.Option
use tx_firewall.Base.{
  ℕ, ◌+◌, Bytes, Option, none, some, List, [], ◌∷◌, ◌++◌, ◌≡◌, refl, sym, ◌∙◌, append_assoc,
  append-nil, arith, Option-cases, Bool-cases, inl, inr, not, str_eq, if◌then◌else◌,
}
use tx_firewall.Geth.{Geth, Address, Hash}
use tx_firewall.Analysis.Loans.{FlashLoan, find_repaid_loans, merge_flash_loans}
use tx_firewall.TxDecode.{Decoded}
use tx_firewall.Simulate.{CallFrame, call, Calls, no_calls, and_then, CallInfo, Log, info}
use tx_firewall.Events.Transfer.{decode_transfer}
use tx_firewall.Events.Approval.{decode_approval, decode_approval_for_all}
use tx_firewall.Events.Privilege.{decode_privilege_change}
use tx_firewall.Events.FlashLoan.{decode_flash_loan}
use tx_firewall.Analysis.{
  Analysis, add_address, enter_callee, enter, note_transfer, note_approval, note_approval_for_all,
  note_privilege, note_flash_loan, collect_log, collect_logs, collect, collect_calls, finish, build,
  from_tx, announced,
}

-- The logs of the frames that are not rolled back: a frame's own before those of its calls.
unfoldable mutual
  pub live_logs : CallFrame → List Log
  live_logs (call f calls) = if str_eq f.error "" then f.logs ++ live_logs_of_calls calls else []

  pub live_logs_of_calls : Calls → List Log
  live_logs_of_calls no_calls = []
  live_logs_of_calls (and_then t ts) = live_logs t ++ live_logs_of_calls ts

-- A decoder on each log, in order, where it gives something.
abbrev to_list : {A : Type 0} → Option A → List A
to_list none = []
to_list (some x) = x ∷ []

abbrev pub decoded : {A : Type 0} → (Log → Option A) → List Log → List A
decoded decode [] = []
decoded decode (l ∷ ls) = to_list (decode l) ++ decoded decode ls

decoded-append :
    {A : Type 0} (decode : Log → Option A) (ls ms : List Log)
    → decoded decode (ls ++ ms) ≡ decoded decode ls ++ decoded decode ms
decoded-append decode [] ms = refl
decoded-append decode (l ∷ ls) ms =
    rw (decoded-append decode ls ms) (sym (append_assoc (to_list (decode l)) _ _))

-- A field that grows by what a decoder gives for each log, and by nothing else.
module _ (g : Geth) {A : Type 0} (field : Analysis → List A) (decode : Log → Option A)
    (entered : (f : CallInfo) (depth : ℕ) (a : Analysis) → field (enter f depth a) ≡ field a)
    (logged : (l : Log) (a : Analysis)
      → field (collect_log g l a) ≡ field a ++ to_list (decode l)) where
  collect_logs-field :
      (ls : List Log) (a : Analysis) → field (collect_logs g ls a) ≡ field a ++ decoded decode ls
  unfolding collect_logs
  collect_logs-field [] a = sym (append-nil _)
  collect_logs-field (l ∷ ls) a =
      collect_logs-field ls (collect_log g l a) ∙ rw (logged l a) (append_assoc (field a) _ _)

  mutual
    unfolding collect live_logs

    collect-field :
        (t : CallFrame) (depth : ℕ) (a : Analysis)
        → field (collect g t depth a) ≡ field a ++ decoded decode (live_logs t)
    collect-field (call f calls) depth a = elim (Bool-cases (str_eq f.error "")) [
      | inl fine ↦ rw fine (
          collect_calls-field calls (depth + 1) _
          ∙ rw (collect_logs-field, entered, decoded-append, append_assoc))
      | inr reverted ↦ rw reverted (sym (append-nil _))
    ]

    collect_calls-field :
        (ts : Calls) (depth : ℕ) (a : Analysis)
        → field (collect_calls g ts depth a) ≡ field a ++ decoded decode (live_logs_of_calls ts)
    collect_calls-field no_calls depth a = sym (append-nil _)
    collect_calls-field (and_then t ts) depth a =
        collect_calls-field ts depth (collect g t depth a)
        ∙ rw (collect-field t depth a, decoded-append) (append_assoc (field a) _ _)

enter-transfers :
    (f : CallInfo) (depth : ℕ) (a : Analysis) → (enter f depth a).transfers ≡ a.transfers
unfolding enter enter_callee add_address
enter-transfers f depth a = elim (Option-cases f.to) [
  | inl e ↦ rw (e, enter_callee)
  | inr (to, e) ↦ rw (e, enter_callee) (ground arith)
]

enter-approvals :
    (f : CallInfo) (depth : ℕ) (a : Analysis) → (enter f depth a).approvals ≡ a.approvals
unfolding enter enter_callee add_address
enter-approvals f depth a = elim (Option-cases f.to) [
  | inl e ↦ rw (e, enter_callee)
  | inr (to, e) ↦ rw (e, enter_callee) (ground arith)
]

enter-approvals_for_all :
    (f : CallInfo) (depth : ℕ) (a : Analysis)
    → (enter f depth a).approvals_for_all ≡ a.approvals_for_all
unfolding enter enter_callee add_address
enter-approvals_for_all f depth a = elim (Option-cases f.to) [
  | inl e ↦ rw (e, enter_callee)
  | inr (to, e) ↦ rw (e, enter_callee) (ground arith)
]

enter-privileged :
    (f : CallInfo) (depth : ℕ) (a : Analysis) → (enter f depth a).privileged ≡ a.privileged
unfolding enter enter_callee add_address
enter-privileged f depth a = elim (Option-cases f.to) [
  | inl e ↦ rw (e, enter_callee)
  | inr (to, e) ↦ rw (e, enter_callee) (ground arith)
]

enter-flash_loans :
    (f : CallInfo) (depth : ℕ) (a : Analysis) → (enter f depth a).flash_loans ≡ a.flash_loans
unfolding enter enter_callee add_address
enter-flash_loans f depth a = elim (Option-cases f.to) [
  | inl e ↦ rw (e, enter_callee)
  | inr (to, e) ↦ rw (e, enter_callee) (ground arith)
]

module _ (g : Geth) where
  -- A decoder of this program on a log.
  abbrev pub on_log :
      {A : Type 0} → (Geth → Address → List Hash → Bytes → Option A) → Log → Option A
  on_log decode l = decode g l.address l.topics l.bytes

  abbrev pub announced_by : Log → Option FlashLoan
  announced_by l = Option.map announced (on_log decode_flash_loan l)

  program : Unit {0}
  unfolding collect_log note_transfer note_approval note_approval_for_all note_privilege
      note_flash_loan add_address
  program = tt

  collect_log-transfers :
      (l : Log) (a : Analysis)
      → (collect_log g l a).transfers ≡ a.transfers ++ to_list (on_log decode_transfer l)
  unfolding program
  collect_log-transfers l a = ground (arith, append-nil a.transfers)

  collect_log-approvals :
      (l : Log) (a : Analysis)
      → (collect_log g l a).approvals ≡ a.approvals ++ to_list (on_log decode_approval l)
  unfolding program
  collect_log-approvals l a = ground (arith, append-nil a.approvals)

  collect_log-approvals_for_all :
      (l : Log) (a : Analysis)
      → (collect_log g l a).approvals_for_all
        ≡ a.approvals_for_all ++ to_list (on_log decode_approval_for_all l)
  unfolding program
  collect_log-approvals_for_all l a = ground (arith, append-nil a.approvals_for_all)

  collect_log-privileged :
      (l : Log) (a : Analysis)
      → (collect_log g l a).privileged ≡ a.privileged ++ to_list (on_log decode_privilege_change l)
  unfolding program
  collect_log-privileged l a = ground (arith, append-nil a.privileged)

  collect_log-flash_loans :
      (l : Log) (a : Analysis)
      → (collect_log g l a).flash_loans ≡ a.flash_loans ++ to_list (announced_by l)
  unfolding program
  collect_log-flash_loans l a = ground (arith, append-nil a.flash_loans)

  -- The analysis keeps exactly what the decoders give for the logs of the frames that are not rolled
  -- back, in order: the transfers, the approvals and the privilege changes; and its flash loans are
  -- the announced ones merged with those that the transfers show.
  pub build-logged :
      (d : Decoded) (t : CallFrame)
      → ((build g d (some t)).transfers ≡ decoded (on_log decode_transfer) (live_logs t))
        × ((build g d (some t)).approvals ≡ decoded (on_log decode_approval) (live_logs t))
        × ((build g d (some t)).approvals_for_all
            ≡ decoded (on_log decode_approval_for_all) (live_logs t))
        × ((build g d (some t)).privileged ≡ decoded (on_log decode_privilege_change) (live_logs t))
        × ((build g d (some t)).flash_loans
            ≡ merge_flash_loans
                (decoded announced_by (live_logs t))
                (find_repaid_loans (decoded (on_log decode_transfer) (live_logs t))))
  unfolding build finish from_tx
  build-logged d t =
      let start = record (from_tx d) { reverted = not (str_eq (info t).error "") } in
      let transfers =
        collect-field g (λ a. a.transfers) (on_log decode_transfer) enter-transfers
          collect_log-transfers t 0 start in
      let loans =
        collect-field g (λ a. a.flash_loans) announced_by enter-flash_loans collect_log-flash_loans
          t 0 start in
      (
        transfers,
        collect-field g (λ a. a.approvals) (on_log decode_approval) enter-approvals
            collect_log-approvals t 0 _,
        collect-field g (λ a. a.approvals_for_all) (on_log decode_approval_for_all)
            enter-approvals_for_all collect_log-approvals_for_all t 0 _,
        collect-field g (λ a. a.privileged) (on_log decode_privilege_change) enter-privileged
            collect_log-privileged t 0 _,
        rw (loans, transfers),
      )
