-- ===== src/Simulate.antt =====
-- internal/simulate/simulate.go: the call trace of a transaction, and how it is obtained.
use tx_firewall.Base.{
  ℕ, String, Bytes, Bool, Option, none, some, List, [], Result, ok, err, plain, wrap, node_error,
  as_rpc_error, str_eq, if◌then◌else◌, ◌||◌,
}
use tx_firewall.Base.Int.{ℤ, negsuc, eq_ℤ}
use tx_firewall.Base.Exec.{Exec}
use tx_firewall.Geth.{Address, Hash, zero_address}
use tx_firewall.TxDecode.{Decoded}

pub record Log : Type 0 where
  pub address : Address
  pub topics : List Hash
  pub bytes : Bytes

-- The fields of a CallFrame but for Calls; nil pointers are `none`.
pub record CallInfo : Type 0 where
  pub type : String
  pub from : Address
  pub to : Option Address
  pub value : Option ℤ
  pub gas : ℕ
  pub gas_used : ℕ
  pub input : Bytes
  pub output : Bytes
  pub error : String
  pub logs : List Log

mutual
  pub data CallFrame : Type 0 where
    call : CallInfo → Calls → CallFrame

  pub data Calls : Type 0 where
    no_calls : Calls
    and_then : CallFrame → Calls → Calls

abbrev pub info : CallFrame → CallInfo
info (call f calls) = f

pub record CallArgs : Type 0 where
  pub from : Address
  pub to : Option Address
  pub gas : ℕ
  pub value : ℕ
  pub input : Bytes

unfoldable pub new_call_args : Decoded → CallArgs
new_call_args d = record {
  from = d.from;
  to = d.tx.to;
  gas = d.tx.gas;
  value = d.tx.value;
  input = d.tx.input;
}

unfoldable pub is_tx_rejection : ℤ → Bool
is_tx_rejection code = eq_ℤ code (negsuc 31999) || eq_ℤ code (negsuc 32002)

-- The frame that the client decoded, or the error.
unfoldable pub check_frame : CallFrame → Result CallFrame
check_frame frame =
    if str_eq (info frame).type "" then err (plain "debug_traceCall: empty trace") else ok frame

-- The `switch` of trace: the first two cases look at the error.
unfoldable pub trace_result : Result CallFrame → Result CallFrame
unfolding check_frame
trace_result (ok frame) = check_frame frame
trace_result (err e) = elim (as_rpc_error e) [
  | none ↦ err (wrap "debug_traceCall" e)
  | some (code, message) ↦
      if is_tx_rejection code then err (node_error message) else err (wrap "debug_traceCall" e)
]

unfoldable pub verified : Result CallFrame → Result (Unit {0})
verified (ok frame) = ok tt
verified (err e) = err (wrap "node does not support debug_traceCall with callTracer" e)

module _ {W : Type 0} (call_context : CallArgs → Exec W CallFrame) where
  -- RPCSimulator.trace; `call_context` is the node's debug_traceCall on the latest block with the
  -- callTracer and logs, within the timeout.
  unfoldable pub trace : CallArgs → Exec W CallFrame
  trace args w = let (r, w') = call_context args w in (trace_result r, w')

  -- RPCSimulator.Simulate
  unfoldable pub simulate : Decoded → Exec W CallFrame
  unfolding trace
  simulate d = trace (new_call_args d)

  -- RPCSimulator.Verify
  unfoldable pub verify : Exec W (Unit {0})
  unfolding trace
  verify w =
      let probe : CallArgs = record {
        from = zero_address;
        to = some zero_address;
        gas = 100_000;
        value = 0;
        input = [];
      } in
      let (r, w') = trace probe w in (verified r, w')
