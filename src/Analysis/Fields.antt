-- ===== src/Analysis/Fields.antt =====
-- Which fields of an analysis the steps of `collect` leave alone.
use tx_firewall.Base.{Option, none, some, List, [], ◌∷◌, ◌++◌, ◌≡◌, refl, ◌∙◌, arith}
use tx_firewall.Geth.{Geth}
use tx_firewall.Simulate.{Log}
use tx_firewall.Events.Transfer.{Transfer, decode_transfer}
use tx_firewall.Events.Approval.{Approval, ApprovalForAll}
use tx_firewall.Events.Privilege.{PrivilegeChange}
use tx_firewall.Events.FlashLoan.{FlashLoanEvent}
use tx_firewall.Analysis.{
  Analysis, add_address, note_transfer, note_approval, note_approval_for_all, note_privilege,
  note_flash_loan, collect_log, collect_logs,
}

-- A field that only transfers can change.
module _ {A : Type 0} (field : Analysis → A)
    (approval : (o : Option Approval) (a : Analysis) → field (note_approval o a) ≡ field a)
    (all : (o : Option ApprovalForAll) (a : Analysis) → field (note_approval_for_all o a) ≡ field a)
    (privilege : (o : Option PrivilegeChange) (a : Analysis) → field (note_privilege o a) ≡ field a)
    (loan : (o : Option FlashLoanEvent) (a : Analysis) → field (note_flash_loan o a) ≡ field a)
    (g : Geth) where
  collect_log-field :
      (l : Log) (a : Analysis)
      → field (collect_log g l a)
        ≡ field (
            note_transfer
              (decode_transfer g l.address l.topics l.bytes)
              (record a { logs = a.logs ++ l ∷ [] }))
  unfolding collect_log
  collect_log-field l a = loan _ _ ∙ (privilege _ _ ∙ (all _ _ ∙ approval _ _))

note_approval-addresses :
    (o : Option Approval) (a : Analysis) → (note_approval o a).addresses ≡ a.addresses
unfolding note_approval
note_approval-addresses none a = refl
note_approval-addresses (some x) a = refl

note_approval_for_all-addresses :
    (o : Option ApprovalForAll) (a : Analysis) → (note_approval_for_all o a).addresses ≡ a.addresses
unfolding note_approval_for_all
note_approval_for_all-addresses none a = refl
note_approval_for_all-addresses (some x) a = refl

note_privilege-addresses :
    (o : Option PrivilegeChange) (a : Analysis) → (note_privilege o a).addresses ≡ a.addresses
unfolding note_privilege
note_privilege-addresses none a = refl
note_privilege-addresses (some x) a = refl

note_flash_loan-addresses :
    (o : Option FlashLoanEvent) (a : Analysis) → (note_flash_loan o a).addresses ≡ a.addresses
unfolding note_flash_loan
note_flash_loan-addresses none a = refl
note_flash_loan-addresses (some x) a = refl

note_approval-frames : (o : Option Approval) (a : Analysis) → (note_approval o a).frames ≡ a.frames
unfolding note_approval
note_approval-frames none a = refl
note_approval-frames (some x) a = refl

note_approval_for_all-frames :
    (o : Option ApprovalForAll) (a : Analysis) → (note_approval_for_all o a).frames ≡ a.frames
unfolding note_approval_for_all
note_approval_for_all-frames none a = refl
note_approval_for_all-frames (some x) a = refl

note_privilege-frames :
    (o : Option PrivilegeChange) (a : Analysis) → (note_privilege o a).frames ≡ a.frames
unfolding note_privilege
note_privilege-frames none a = refl
note_privilege-frames (some x) a = refl

note_flash_loan-frames :
    (o : Option FlashLoanEvent) (a : Analysis) → (note_flash_loan o a).frames ≡ a.frames
unfolding note_flash_loan
note_flash_loan-frames none a = refl
note_flash_loan-frames (some x) a = refl

pub note_transfer-frames :
    (o : Option Transfer) (a : Analysis) → (note_transfer o a).frames ≡ a.frames
unfolding note_transfer add_address
note_transfer-frames none a = refl
note_transfer-frames (some tr) a = ground arith

module _ (g : Geth) where
  pub collect_log-addresses :
      (l : Log) (a : Analysis)
      → (collect_log g l a).addresses
        ≡ (note_transfer
            (decode_transfer g l.address l.topics l.bytes)
            (record a { logs = a.logs ++ l ∷ [] })).addresses
  collect_log-addresses =
      collect_log-field (λ a. a.addresses) note_approval-addresses note_approval_for_all-addresses
        note_privilege-addresses note_flash_loan-addresses g

  pub collect_log-frames : (l : Log) (a : Analysis) → (collect_log g l a).frames ≡ a.frames
  collect_log-frames l a =
      collect_log-field (λ b. b.frames) note_approval-frames note_approval_for_all-frames
        note_privilege-frames note_flash_loan-frames g l a
      ∙ note_transfer-frames _ _

  pub collect_logs-frames : (ls : List Log) (a : Analysis) → (collect_logs g ls a).frames ≡ a.frames
  unfolding collect_logs
  collect_logs-frames [] a = refl
  collect_logs-frames (l ∷ ls) a =
      collect_logs-frames ls (collect_log g l a) ∙ collect_log-frames l a
