-- ===== src/Analysis/Unique.antt =====
-- Duplicates among the addresses of an analysis (internal/analysis/analysis.go).
use tx_firewall.Base.{
  ℕ, ◌+◌, Option, none, some, List, [], ◌∷◌, contains, Distinct, Distinct-concat, arith,
  Option-cases, Bool-cases, inl, inr, str_eq,
}
use tx_firewall.Geth.{Geth, Address}
use tx_firewall.TxDecode.{Decoded}
use tx_firewall.Simulate.{CallFrame, call, Calls, no_calls, and_then, CallInfo, Log}
use tx_firewall.Events.Transfer.{Transfer}
use tx_firewall.Analysis.{
  Analysis, add_address, enter_callee, enter, note_transfer, collect_log, collect_logs, collect,
  collect_calls, finish, build, from_tx, tx_addresses,
}
use tx_firewall.Analysis.Fields.{collect_log-addresses}

abbrev IsUnique : Analysis → Type 0
IsUnique a = Distinct a.addresses

add_address-IsUnique : (b : Address) (a : Analysis) → IsUnique a → IsUnique (add_address b a)
unfolding add_address
add_address-IsUnique b a h = elim (Bool-cases (contains b a.addresses)) [
  | inl old ↦ rw (old, add_address) h
  | inr new ↦ rw (new, add_address) (Distinct-concat b a.addresses h new)
]

enter-IsUnique : (f : CallInfo) (depth : ℕ) (a : Analysis) → IsUnique a → IsUnique (enter f depth a)
unfolding enter enter_callee
enter-IsUnique f depth a h = elim (Option-cases f.to) [
  | inl e ↦ rw (e, enter_callee) h
  | inr (to, e) ↦ rw (e, enter_callee) (ground (arith, add_address-IsUnique to a))
]

note_transfer-IsUnique :
    (o : Option Transfer) (a : Analysis) → IsUnique a → IsUnique (note_transfer o a)
unfolding note_transfer
note_transfer-IsUnique none a h = h
note_transfer-IsUnique (some tr) a h = add_address-IsUnique tr.to _ h

module _ (g : Geth) where
  collect_logs-IsUnique :
      (ls : List Log) (a : Analysis) → IsUnique a → IsUnique (collect_logs g ls a)
  unfolding collect_logs
  collect_logs-IsUnique [] a h = h
  collect_logs-IsUnique (l ∷ ls) a h =
      collect_logs-IsUnique ls (collect_log g l a)
        (rw collect_log-addresses (note_transfer-IsUnique _ _ h))

  mutual
    unfolding collect

    collect-IsUnique :
        (t : CallFrame) (depth : ℕ) (a : Analysis) → IsUnique a → IsUnique (collect g t depth a)
    collect-IsUnique (call f calls) depth a h = elim (Bool-cases (str_eq f.error "")) [
      | inl fine ↦ rw fine (
          collect_calls-IsUnique calls (depth + 1) _
            (collect_logs-IsUnique f.logs _ (enter-IsUnique f depth a h)))
      | inr reverted ↦ rw reverted h
    ]

    collect_calls-IsUnique :
        (ts : Calls) (depth : ℕ) (a : Analysis) → IsUnique a → IsUnique (collect_calls g ts depth a)
    collect_calls-IsUnique no_calls depth a h = h
    collect_calls-IsUnique (and_then t ts) depth a h =
        collect_calls-IsUnique ts depth _ (collect-IsUnique t depth a h)

  from_tx-IsUnique : (d : Decoded) → Distinct (tx_addresses d)
  unfolding tx_addresses
  from_tx-IsUnique d = ground arith

  -- Whatever the transaction and its trace, no address of the analysis is listed twice.
  pub build-IsUnique : (d : Decoded) (t : Option CallFrame) → Distinct (build g d t).addresses
  unfolding build finish from_tx
  build-IsUnique d none = from_tx-IsUnique d
  build-IsUnique d (some t) = collect-IsUnique t 0 _ (from_tx-IsUnique d)
