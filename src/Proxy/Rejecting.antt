-- ===== src/Proxy/Rejecting.antt =====
-- What an error response of the proxy means.
use tx_firewall.Base.{
  some-injective, none-ne-some, String, Bytes, true, Option, none, some, List, [], ◌∷◌, map, ◌++◌,
  ◌≡◌, refl, ap, ◌∙◌, sym, inl, inr, Result, ok, err, concat, join, str_eq, eq_iff, ltb, length,
  Option-cases, Bool-cases,
}
use tx_firewall.Base.Int.{ℤ, negsuc}
use tx_firewall.Base.Exec.{Exec}
use tx_firewall.TxDecode.{Codec, Decoded, decode_raw_transaction}
use tx_firewall.Rules.{Finding}
use tx_firewall.Risk.{Verdict}
use tx_firewall.JsonRpc.{
  Request, Json, ErrorResponse, parse_requests, error_response, code_parse_error,
  code_invalid_params, code_tx_rejected,
}
use tx_firewall.Proxy.{
  bad_request, rejected, max_body_size, reasons, verdict_response, screen_decoded, screen_request,
  screen_requests, reply_to, handle_requests, handle,
}
use tx_firewall.Proxy.Passing.{AllPass, screen_request-none}

-- The id of a request, which is null if it has none.
abbrev pub answered_id : Bytes → Bytes
answered_id [] = b'n' ∷ b'u' ∷ b'l' ∷ b'l' ∷ []
answered_id (b ∷ id) = b ∷ id

-- A JSON-RPC error for the request of that id.
abbrev pub error_for : Bytes → ℤ → String → ErrorResponse
error_for id code message = record {
  jsonrpc = "2.0";
  id = answered_id id;
  code = code;
  message = message;
}

-- -32700, -32602 and -32003
abbrev pub parse_error : ℤ
parse_error = negsuc 32699

abbrev pub invalid_params : ℤ
invalid_params = negsuc 32601

abbrev pub tx_rejected : ℤ
tx_rejected = negsuc 32002

error_response-error_for :
    (id : Bytes) (code : ℤ) (message : String)
    → error_response id code message ≡ error_for id code message
unfolding error_response
error_response-error_for [] code message = refl
error_response-error_for (b ∷ id) code message = refl

reasons-map : (fs : List Finding) → reasons fs ≡ map (λ f. f.reason) fs
unfolding reasons
reasons-map [] = refl
reasons-map (f ∷ fs) = ap (◌∷◌ f.reason) (reasons-map fs)

-- Why a verdict, or the failure to come to one, is an error response.
abbrev pub IsRefused : Bytes → Result Verdict → ErrorResponse → Type 0
IsRefused id (err e) x = x ≡ error_for id tx_rejected "transaction rejected: screening failed"
IsRefused id (ok v) x =
    (v.block ≡ true)
    × (x
        ≡ error_for id tx_rejected
            (concat ("transaction rejected: " ∷ join "; " (map (λ f. f.reason) v.findings) ∷ [])))

module _ (c : Codec) {W : Type 0} (screen : Decoded → Exec W Verdict) where
  abbrev pub IsRejectedDecoded : Bytes → W → Result Decoded → ErrorResponse → Type 0
  IsRejectedDecoded id w (err e) x = x ≡ error_for id invalid_params "invalid transaction"
  IsRejectedDecoded id w (ok d) x = IsRefused id (screen d w).0 x

  -- The request sends a transaction, and the response, with the request's id, says that it does
  -- not decode, that screening failed, or why it is blocked.
  abbrev pub IsRejected : Request → W → ErrorResponse → Type 0
  IsRejected req w x =
      (req.method ≡ "eth_sendRawTransaction")
      × IsRejectedDecoded req.id w (decode_raw_transaction c req.params) x

  -- The state that the requests leave.
  abbrev pub left_by : List Request → W → W
  left_by [] w = w
  left_by (r ∷ rs) w = left_by rs (screen_request c screen r w).1

  verdict_response-some :
      (id : Bytes) (r : Result Verdict) (x : ErrorResponse)
      → verdict_response id r ≡ some x
      → IsRefused id r x
  unfolding verdict_response
  verdict_response-some id (err e) x h =
      sym (some-injective h) ∙ error_response-error_for id code_tx_rejected _
  verdict_response-some id (ok v) x h = elim (Bool-cases v.block) [
    | inl blocked ↦ (
      blocked,
      sym (some-injective (rw blocked at h))
          ∙ rw (← reasons-map v.findings) (error_response-error_for id code_tx_rejected _),
    )
    | inr open_ ↦ absurd (none-ne-some (rw open_ at h))
  ]

  screen_decoded-some :
      (id : Bytes) (w : W) (r : Result Decoded) (x : ErrorResponse)
      → (screen_decoded c screen id r w).0 ≡ some x
      → IsRejectedDecoded id w r x
  unfolding screen_decoded
  screen_decoded-some id w (err e) x h =
      sym (some-injective h) ∙ error_response-error_for id code_invalid_params _
  screen_decoded-some id w (ok d) x h = verdict_response-some id (screen d w).0 x h

  screen_request-some :
      (req : Request) (w : W) (x : ErrorResponse)
      → (screen_request c screen req w).0 ≡ some x
      → IsRejected req w x
  unfolding screen_request screen_decoded
  screen_request-some req w x h = elim (Bool-cases (str_eq req.method "eth_sendRawTransaction")) [
    | inl send ↦ ((eq_iff _ _).0 send, screen_decoded-some req.id w _ x (rw send at h))
    | inr other ↦ absurd (none-ne-some (rw other at h))
  ]

  screen_requests-some :
      (reqs : List Request) (w : W) (x : ErrorResponse)
      → (screen_requests c screen reqs w).0 ≡ some x
      → (before : List Request) × (req : Request) × (after : List Request) × (reqs
          ≡ before ++ req ∷ after)
        × AllPass c screen before w
        × IsRejected req (left_by before w) x
        × ((screen_requests c screen reqs w).1 ≡ (screen_request c screen req (left_by before w)).1)
  unfolding screen_requests
  screen_requests-some [] w x h = absurd (none-ne-some h)
  screen_requests-some (r ∷ rs) w x h = elim (Option-cases (screen_request c screen r w).0) [
    | inl p ↦
        let (before, req, after, e, pass, why, state) =
          screen_requests-some rs _ x (rw (screen_requests, p) at h) in
        (
          r ∷ before,
          req,
          after,
          ap (◌∷◌ r) e,
          (screen_request-none c screen r w p, pass),
          why,
          rw (screen_requests, p) state,
        )
    | inr (y, p) ↦ (
      [],
      r,
      rs,
      refl,
      tt,
      screen_request-some r w x (p ∙ rw (screen_requests, p) at h),
      rw (screen_requests, p),
    )
  ]

  -- Either the body does not parse, or one of its requests sends a transaction that does not
  -- decode, that could not be screened or that is blocked.
  abbrev pub IsReason : W → W → Result (List Request) → ErrorResponse → Type 0
  IsReason w w' (err e) x = x ≡ error_for [] parse_error "invalid JSON-RPC request"
  IsReason w w' (ok reqs) x =
      (before : List Request) × (req : Request) × (after : List Request) × (reqs
        ≡ before ++ req ∷ after)
      × AllPass c screen before w
      × IsRejected req (left_by before w) x
      × (w' ≡ (screen_request c screen req (left_by before w)).1)

  reply_to-rejected :
      (body : Bytes) (o : Option ErrorResponse) (x : ErrorResponse)
      → reply_to c screen body o ≡ rejected x
      → o ≡ some x
  unfolding reply_to
  reply_to-rejected body none x h = cc
  reply_to-rejected body (some y) x h = cc

  rejected-injective : {x y : ErrorResponse} → rejected x ≡ rejected y → x ≡ y
  rejected-injective h = cc

  handle_requests-rejected :
      (body : Bytes) (r : Result (List Request)) (w : W) (x : ErrorResponse)
      → (handle_requests c screen body r w).0 ≡ rejected x
      → IsReason w (handle_requests c screen body r w).1 r x
  unfolding handle_requests
  handle_requests-rejected body (err e) w x h =
      rejected-injective (sym h) ∙ error_response-error_for [] code_parse_error _
  handle_requests-rejected body (ok reqs) w x h =
      screen_requests-some reqs w x (reply_to-rejected body _ x h)

  -- If the proxy answers a body with a JSON-RPC error, then either the body does not parse, or the
  -- error is about one request, whose id it carries: all requests before it passed, it sends a
  -- transaction, and that does not decode, or could not be screened, or is blocked for the reasons
  -- that the error lists. The requests behind it are not screened.
  pub handle-rejected :
      (j : Json) (body : Bytes) (w : W) (x : ErrorResponse)
      → (handle c screen j (ok body) w).0 ≡ rejected x
      → IsReason w (handle c screen j (ok body) w).1 (parse_requests j body) x
  unfolding handle
  handle-rejected j body w x h = elim (Bool-cases (ltb max_body_size (length body))) [
    | inl large ↦ absurd (bad-ne-rejected (rw large at h))
    | inr small ↦
        rw small (handle_requests-rejected body (parse_requests j body) w x (rw small at h))
  ]
    where
      bad-ne-rejected : {s : String} → bad_request s ≡ rejected x → ⊥
      bad-ne-rejected e = cc
