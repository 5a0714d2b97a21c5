-- ===== src/Screen/Unsimulated.antt =====
-- What becomes of a transaction that the node does not simulate.
use mathlib.Core.Path.{subst}
use tx_firewall.Base.{
  ◌++◌, String, Bytes, true, false, Option, none, some, List, ◌∷◌, ◌≡◌, ◌≢◌, refl, Result, ok, err,
  Error, plain, wrap, node_error, as_node_error, as_rpc_error, str_eq, eq_iff, Option-cases,
  Bool-cases, inl, inr, ◌⊎◌, ◌↔◌, [], concat, arith, ap, sym, ◌==◌, ==_iff,
}
use tx_firewall.Base.Int.{ℤ, pos, negsuc}
use tx_firewall.Base.Exec.{Exec, IfOk}
use tx_firewall.Geth.{Geth}
use tx_firewall.TxDecode.{Codec, Decoded, decode_raw_transaction}
use tx_firewall.Simulate.{
  CallFrame, CallArgs, info, new_call_args, is_tx_rejection, check_frame, trace_result, trace,
  simulate,
}
use tx_firewall.Risk.{Verdict, Engine}
use tx_firewall.Screen.{refusal, verdict_of_error, screen_trace, screen}
use tx_firewall.JsonRpc.{Request, Json, parse_requests}
use tx_firewall.Proxy.{forwarded, handle}
use tx_firewall.Proxy.Passing.{IsBlocked, Passes-blocked, handle-not_forwarded}

pub verdict_of_error-IsBlocked : (e : Error) → IfOk IsBlocked (verdict_of_error e)
unfolding verdict_of_error
verdict_of_error-IsBlocked e = elim (Option-cases (as_node_error e)) [
  | inl p ↦ rw (p, IfOk) tt
  | inr (m, p) ↦ rw (p, IfOk) refl
]

-- The node answers with an error, or with a frame without a type.
abbrev pub IsUnanswered : Result CallFrame → Type 0
IsUnanswered (ok frame) = (info frame).type ≡ ""
IsUnanswered (err e) = Unit

-- The code says that the transaction is invalid: -32000 or -32003.
abbrev pub IsInvalid : ℤ → Type 0
IsInvalid code = (code ≡ negsuc 31999) ⊎ (code ≡ negsuc 32002)

-- The error has no JSON-RPC code that says so.
abbrev pub IsNoRejection : Option (ℤ × String) → Type 0
IsNoRejection none = Unit
IsNoRejection (some (code, message)) = IsInvalid code → ⊥

is_tx_rejection_iff : (code : ℤ) → (is_tx_rejection code ≡ true) ↔ IsInvalid code
unfolding is_tx_rejection
is_tx_rejection_iff (pos n) = (λ h. cc, λ h. elim h [ inl e ↦ cc | inr e ↦ cc ])
is_tx_rejection_iff (negsuc n) = (
  λ h. elim (Bool-cases (n == 31999)) [
    | inl same ↦ inl (ap negsuc ((==_iff n 31999).0 same))
    | inr other ↦ inr (ap negsuc ((==_iff n 32002).0 (ground arith)))
  ],
  λ h. elim h [
    | inl e ↦ subst (λ z. is_tx_rejection z ≡ true) (sym e) refl
    | inr e ↦ subst (λ z. is_tx_rejection z ≡ true) (sym e) refl
  ],
)

IsNoRejection-false : (code : ℤ) → (IsInvalid code → ⊥) → is_tx_rejection code ≡ false
IsNoRejection-false code valid_ = elim (Bool-cases (is_tx_rejection code)) [
  | inl invalid ↦ absurd (valid_ ((is_tx_rejection_iff code).0 invalid))
  | inr valid ↦ valid
]

-- The verdict with the node's message.
abbrev pub refused_with : String → Verdict
refused_with message = record {
  block = true;
  score = 0;
  findings =
      record {
        rule = "simulation";
        hard_block = true;
        weight = 0;
        reason = concat ("simulation failed: " ∷ message ∷ []);
      }
      ∷ [];
}

trace_result-failed :
    (e : Error)
    → IsNoRejection (as_rpc_error e)
    → trace_result (err e) ≡ err (wrap "debug_traceCall" e)
unfolding trace_result
trace_result-failed e other = elim (Option-cases (as_rpc_error e)) [
  | inl p ↦ rw (trace_result, p)
  | inr ((code, message), p) ↦
      let clean : IsInvalid code → ⊥ = rw p at other in
      rw (trace_result, p, IsNoRejection-false code clean)
]

trace_result-unanswered :
    (r : Result CallFrame) → IsUnanswered r → (x : Error) × (trace_result r ≡ err x)
unfolding trace_result check_frame
trace_result-unanswered (ok frame) h =
    let empty : str_eq (info frame).type "" ≡ true = (eq_iff _ _).1 h in
    (plain "debug_traceCall: empty trace", rw empty)
trace_result-unanswered (err e) h = elim (Option-cases (as_rpc_error e)) [
  | inl p ↦ (wrap "debug_traceCall" e, rw (trace_result, p))
  | inr ((code, message), p) ↦ elim (Bool-cases (is_tx_rejection code)) [
    | inl invalid ↦ (node_error message, rw (trace_result, p, invalid))
    | inr valid ↦ (wrap "debug_traceCall" e, rw (trace_result, p, valid))
  ]
]

module _ (g : Geth) {W : Type 0} (call_context : CallArgs → Exec W CallFrame)
    (engine : Engine W) where
  screen-refused :
      (d : Decoded) (w : W) (e : Error) (code : ℤ) (message : String)
      → (call_context (new_call_args d) w).0 ≡ err e
      → as_rpc_error e ≡ some (code, message)
      → IsInvalid code
      → screen g (simulate call_context) engine d w
        ≡ (ok (refused_with message), (call_context (new_call_args d) w).1)
  unfolding screen simulate trace trace_result verdict_of_error refusal
  screen-refused d w e code message answered rpc invalid = rw (
    answered,
    trace_result,
    rpc,
    (is_tx_rejection_iff code).1 invalid,
    screen_trace,
    verdict_of_error,
  )

  screen-failed :
      (d : Decoded) (w : W) (e : Error)
      → (call_context (new_call_args d) w).0 ≡ err e
      → as_node_error e ≡ none
      → IsNoRejection (as_rpc_error e)
      → screen g (simulate call_context) engine d w
        ≡ (err (wrap "debug_traceCall" e), (call_context (new_call_args d) w).1)
  unfolding screen simulate trace trace_result verdict_of_error
  screen-failed d w e answered clean other =
      rw (answered, trace_result-failed e other, screen_trace, verdict_of_error, clean)

  -- If the node answers with a JSON-RPC error whose code is -32000 or -32003, which says that the
  -- transaction is invalid, the verdict is to block, with the node's message in the reason of its
  -- one finding and no score; if it answers with any
  -- other error, which is no NodeError, then screening fails with that error, and there is no
  -- verdict. Nothing else is asked.
  pub screen-unanswered :
      (d : Decoded) (w : W) (e : Error)
      → (call_context (new_call_args d) w).0 ≡ err e
      → ((code : ℤ) (message : String)
          → as_rpc_error e ≡ some (code, message)
          → IsInvalid code
          → screen g (simulate call_context) engine d w
            ≡ (ok (refused_with message), (call_context (new_call_args d) w).1))
        × (as_node_error e ≡ none
            → IsNoRejection (as_rpc_error e)
            → screen g (simulate call_context) engine d w
              ≡ (err (wrap "debug_traceCall" e), (call_context (new_call_args d) w).1))
  screen-unanswered d w e answered =
      (λ code message. screen-refused d w e code message answered, screen-failed d w e answered)

  screen-IsBlocked :
      (d : Decoded) (w : W)
      → IsUnanswered (call_context (new_call_args d) w).0
      → IfOk IsBlocked (screen g (simulate call_context) engine d w).0
  unfolding screen simulate trace
  screen-IsBlocked d w h =
      let (x, failed) = trace_result-unanswered _ h in
      rw (failed, screen_trace) (verdict_of_error-IsBlocked x)

  -- If a body parses to requests of which one sends a transaction that decodes, and the node
  -- answers its simulation, in whatever state, with an error or with a frame without a type,
  -- then the proxy does not forward the body, nor anything else.
  pub handle-unsimulated :
      (c : Codec) (j : Json) (body b : Bytes) (before after : List Request) (req : Request)
      (d : Decoded) (w : W)
      → parse_requests j body ≡ ok (before ++ req ∷ after)
      → req.method ≡ "eth_sendRawTransaction"
      → decode_raw_transaction c req.params ≡ ok d
      → ((w' : W) → IsUnanswered (call_context (new_call_args d) w').0)
      → (handle c (screen g (simulate call_context) engine) j (ok body) w).0 ≢ forwarded b
  handle-unsimulated c j body b before after req d w parsed sends decodes unanswered =
      handle-not_forwarded c (screen g (simulate call_context) engine) j body b before after req w
        parsed
        λ w' pass.
          Passes-blocked c (screen g (simulate call_context) engine) req d w' sends decodes
            (screen-IsBlocked d w' (unanswered w')) pass
