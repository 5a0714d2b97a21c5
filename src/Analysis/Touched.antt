-- ===== src/Analysis/Touched.antt =====
-- Which addresses an analysis lists, against an independent description of the trace.
use tx_firewall.Base.{
  ℕ, ◌+◌, Bool, true, false, Option, none, some, List, [], ◌∷◌, ◌++◌, ◌≡◌, ◌∙◌, ◌||◌, ◌&&◌, str_eq,
  ◌==◌, contains, any, contains-append, arith, Option-cases, inl, inr,
}
use tx_firewall.Geth.{Geth, Address}
use tx_firewall.TxDecode.{Decoded}
use tx_firewall.Simulate.{CallFrame, call, Calls, no_calls, and_then, CallInfo, Log}
use tx_firewall.Events.Transfer.{Transfer, decode_transfer}
use tx_firewall.Analysis.{
  Analysis, add_address, enter_callee, enter, note_transfer, collect_log, collect_logs, collect,
  collect_calls, finish, build, from_tx, tx_addresses,
}
use tx_firewall.Analysis.Fields.{collect_log-addresses}

abbrev is_some_of : Address → Option Address → Bool
is_some_of addr none = false
is_some_of addr (some a) = a == addr

abbrev sends_to : Address → Option Transfer → Bool
sends_to addr none = false
sends_to addr (some tr) = tr.to == addr

contains_of_eq :
    (b addr : Address) (xs : List Address)
    → contains b xs ≡ true
    → (b == addr) ≡ true
    → contains addr xs ≡ true
contains_of_eq b addr xs h e = let p : b ≡ addr = ground arith in rw (← p) h

module _ (g : Geth) (addr : Address) where
  -- The log is a transfer of tokens to the address.
  abbrev pub log_touches : Log → Bool
  log_touches l = sends_to addr (decode_transfer g l.address l.topics l.bytes)

  -- A frame that does not revert calls or creates the address or moves tokens to it, or one of
  -- its calls does.
  unfoldable mutual
    pub touches : CallFrame → Bool
    touches (call f calls) =
        str_eq f.error "" && (is_some_of addr f.to || any log_touches f.logs || any_touches calls)

    pub any_touches : Calls → Bool
    any_touches no_calls = false
    any_touches (and_then f fs) = touches f || any_touches fs

  -- What is listed in the addresses stays listed, and `b` is listed.
  contains-add_address :
      (b : Address) (a : Analysis)
      → contains addr (add_address b a).addresses ≡ (contains addr a.addresses || b == addr)
  unfolding add_address
  contains-add_address b a =
      ground (arith, contains-append addr a.addresses (b ∷ []), contains_of_eq b addr a.addresses)

  contains-enter :
      (f : CallInfo) (depth : ℕ) (a : Analysis)
      → contains addr (enter f depth a).addresses
        ≡ (contains addr a.addresses || is_some_of addr f.to)
  unfolding enter enter_callee
  contains-enter f depth a = elim (Option-cases f.to) [
    | inl e ↦ rw (e, enter_callee) (ground arith)
    | inr (to, e) ↦ rw (e, enter_callee) (ground (arith, contains-add_address to a))
  ]

  contains-note_transfer :
      (o : Option Transfer) (a : Analysis)
      → contains addr (note_transfer o a).addresses ≡ (contains addr a.addresses || sends_to addr o)
  unfolding note_transfer
  contains-note_transfer none a = ground arith
  contains-note_transfer (some tr) a = contains-add_address tr.to _

  contains-collect_log :
      (l : Log) (a : Analysis)
      → contains addr (collect_log g l a).addresses ≡ (contains addr a.addresses || log_touches l)
  contains-collect_log l a =
      rw collect_log-addresses (contains-note_transfer _ (record a { logs = a.logs ++ l ∷ [] }))

  contains-collect_logs :
      (ls : List Log) (a : Analysis)
      → contains addr (collect_logs g ls a).addresses
        ≡ (contains addr a.addresses || any log_touches ls)
  unfolding collect_logs
  contains-collect_logs [] a = ground arith
  contains-collect_logs (l ∷ ls) a =
      ground (arith, contains-collect_logs ls (collect_log g l a), contains-collect_log l a)

  mutual
    unfolding collect touches

    contains-collect :
        (t : CallFrame) (depth : ℕ) (a : Analysis)
        → contains addr (collect g t depth a).addresses ≡ (contains addr a.addresses || touches t)
    contains-collect (call f calls) depth a = ground (
      arith,
      contains-collect_calls calls (depth + 1) (collect_logs g f.logs (enter f depth a)),
      contains-collect_logs f.logs (enter f depth a),
      contains-enter f depth a,
    )

    contains-collect_calls :
        (ts : Calls) (depth : ℕ) (a : Analysis)
        → contains addr (collect_calls g ts depth a).addresses
          ≡ (contains addr a.addresses || any_touches ts)
    contains-collect_calls no_calls depth a = ground arith
    contains-collect_calls (and_then t ts) depth a =
        ground
          (arith, contains-collect_calls ts depth (collect g t depth a), contains-collect t depth a)

  -- The sender and the recipient of the transaction.
  abbrev pub is_party : Decoded → Bool
  is_party d = d.from == addr || is_some_of addr d.tx.to

  contains-from_tx : (d : Decoded) → contains addr (tx_addresses d) ≡ is_party d
  unfolding tx_addresses
  contains-from_tx d = ground arith

  -- The addresses of an analysis are exactly the transaction's sender and recipient, and what a
  -- frame that is not rolled back calls, creates or sends tokens to.
  pub contains-build :
      (d : Decoded) (t : CallFrame)
      → contains addr (build g d (some t)).addresses ≡ (is_party d || touches t)
  unfolding build from_tx finish
  contains-build d t = contains-collect t 0 _ ∙ rw (contains-from_tx d)
