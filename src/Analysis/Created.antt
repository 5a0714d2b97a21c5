-- ===== src/Analysis/Created.antt =====
-- The contracts that a trace creates (Created of internal/analysis/analysis.go).
use tx_firewall.Base.{
  ℕ, ◌+◌, none, some, List, [], ◌∷◌, ◌++◌, ◌≡◌, refl, sym, ◌∙◌, ◌||◌, append_assoc, append-nil,
  arith, Option-cases, Bool-cases, inl, inr, str_eq, if◌then◌else◌,
}
use tx_firewall.Geth.{Geth, Address}
use tx_firewall.TxDecode.{Decoded}
use tx_firewall.Simulate.{CallFrame, call, Calls, no_calls, and_then, CallInfo, Log}
use tx_firewall.Analysis.Frames.{is_create}
use tx_firewall.Analysis.{
  Analysis, add_address, enter_callee, enter, note_transfer, note_approval, note_approval_for_all,
  note_privilege, note_flash_loan, collect_log, collect_logs, collect, collect_calls, finish, build,
  from_tx,
}

-- The address that a frame creates.
abbrev pub creation : CallInfo → List Address
creation f = elim f.to [
  | none ↦ []
  | some to ↦ if str_eq f.type "CREATE" || str_eq f.type "CREATE2" then to ∷ [] else []
]

-- The creations of the frames that are not rolled back, each before those of its calls.
unfoldable mutual
  pub creations : CallFrame → List Address
  creations (call f calls) =
      if str_eq f.error "" then creation f ++ creations_of_calls calls else []

  pub creations_of_calls : Calls → List Address
  creations_of_calls no_calls = []
  creations_of_calls (and_then t ts) = creations t ++ creations_of_calls ts

enter-created :
    (f : CallInfo) (depth : ℕ) (a : Analysis) → (enter f depth a).created ≡ a.created ++ creation f
unfolding enter enter_callee add_address is_create
enter-created f depth a = elim (Option-cases f.to) [
  | inl e ↦ rw (e, enter_callee, creation) (sym (append-nil a.created))
  | inr (to, e) ↦ rw (e, enter_callee, creation) (ground (arith, append-nil a.created))
]

module _ (g : Geth) where
  collect_log-created : (l : Log) (a : Analysis) → (collect_log g l a).created ≡ a.created
  unfolding collect_log note_transfer note_approval note_approval_for_all note_privilege
      note_flash_loan add_address
  collect_log-created l a = ground arith

  collect_logs-created : (ls : List Log) (a : Analysis) → (collect_logs g ls a).created ≡ a.created
  unfolding collect_logs
  collect_logs-created [] a = refl
  collect_logs-created (l ∷ ls) a =
      collect_logs-created ls (collect_log g l a) ∙ collect_log-created l a

  mutual
    unfolding collect creations

    collect-created :
        (t : CallFrame) (depth : ℕ) (a : Analysis)
        → (collect g t depth a).created ≡ a.created ++ creations t
    collect-created (call f calls) depth a = elim (Bool-cases (str_eq f.error "")) [
      | inl fine ↦ rw fine (
          collect_calls-created calls (depth + 1) _
          ∙ rw (collect_logs-created, enter-created, append_assoc))
      | inr reverted ↦ rw reverted (sym (append-nil _))
    ]

    collect_calls-created :
        (ts : Calls) (depth : ℕ) (a : Analysis)
        → (collect_calls g ts depth a).created ≡ a.created ++ creations_of_calls ts
    collect_calls-created no_calls depth a = sym (append-nil _)
    collect_calls-created (and_then t ts) depth a =
        collect_calls-created ts depth (collect g t depth a)
        ∙ rw (collect-created t depth a) (append_assoc a.created _ _)

  pub build-created : (d : Decoded) (t : CallFrame) → (build g d (some t)).created ≡ creations t
  unfolding build finish from_tx
  build-created d t = collect-created t 0 _
