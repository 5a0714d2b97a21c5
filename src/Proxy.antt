-- ===== src/Proxy.antt =====
-- internal/proxy/proxy.go: what becomes of a request.
pub mod Passing
pub mod Rejecting
pub mod Log
use tx_firewall.Base.{
  ℕ, ◌*◌, ◌^◌, String, Bytes, Bool, true, false, Option, none, some, List, [], ◌∷◌, Result, ok, err,
  concat, join, not, str_eq, ltb, length, if◌then◌else◌,
}
use tx_firewall.Base.Exec.{Exec}
use tx_firewall.TxDecode.{Codec, Decoded, decode_raw_transaction}
use tx_firewall.Rules.{Finding}
use tx_firewall.Risk.{Verdict}
use tx_firewall.JsonRpc.{
  Request, Json, ErrorResponse, parse_requests, error_response, code_parse_error,
  code_invalid_params, code_tx_rejected,
}

abbrev pub max_body_size : ℕ
max_body_size = 5 * 2 ^ 20

-- What the client gets: an HTTP 400, a JSON-RPC error, or what the node answers to the body.
pub data Reply : Type 0 where
  bad_request : String → Reply
  rejected : ErrorResponse → Reply
  forwarded : Bytes → Reply

unfoldable pub reasons : List Finding → List String
reasons [] = []
reasons (f ∷ fs) = f.reason ∷ reasons fs

-- From the result of Screen to the response of the loop's round, if it ends there.
unfoldable pub verdict_response : Bytes → Result Verdict → Option ErrorResponse
verdict_response id (err e) =
    some (error_response id code_tx_rejected "transaction rejected: screening failed")
verdict_response id (ok v) =
    if v.block
    then some (
        error_response id code_tx_rejected
          (concat ("transaction rejected: " ∷ join "; " (reasons v.findings) ∷ [])))
    else none

module _ (c : Codec) {W : Type 0} (screen : Decoded → Exec W Verdict) where
  unfoldable pub screen_decoded : Bytes → Result Decoded → W → Option ErrorResponse × W
  screen_decoded id (err e) w =
      (some (error_response id code_invalid_params "invalid transaction"), w)
  screen_decoded id (ok d) w = (verdict_response id (screen d w).0, (screen d w).1)

  -- One round of the loop over the requests.
  unfoldable pub screen_request : Request → W → Option ErrorResponse × W
  screen_request req w =
      if not (str_eq req.method "eth_sendRawTransaction")
      then (none, w)
      else screen_decoded req.id (decode_raw_transaction c req.params) w

  -- The loop, which the first response ends.
  unfoldable pub screen_requests : List Request → W → Option ErrorResponse × W
  screen_requests [] w = (none, w)
  screen_requests (req ∷ reqs) w =
      let rest = screen_requests reqs (screen_request req w).1 in
      elim (screen_request req w).0 [
        | none ↦ rest
        | some response ↦ (some response, (screen_request req w).1)
      ]

  unfoldable pub reply_to : Bytes → Option ErrorResponse → Reply
  reply_to body none = forwarded body
  reply_to body (some response) = rejected response

  unfoldable pub handle_requests : Bytes → Result (List Request) → W → Reply × W
  unfolding screen_requests reply_to
  handle_requests body (err e) w =
      (rejected (error_response [] code_parse_error "invalid JSON-RPC request"), w)
  handle_requests body (ok reqs) w =
      (reply_to body (screen_requests reqs w).0, (screen_requests reqs w).1)

  module _ (j : Json) where
    -- The handler on what could be read of the body, which MaxBytesReader cuts off.
    unfoldable pub handle : Result Bytes → W → Reply × W
    unfolding handle_requests
    handle (err e) w = (bad_request "request body too large or unreadable", w)
    handle (ok body) w =
        if ltb max_body_size (length body)
        then (bad_request "request body too large or unreadable", w)
        else handle_requests body (parse_requests j body) w
