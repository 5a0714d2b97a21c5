-- ===== src/Proxy/Log/Recorded.antt =====
-- The handler's log against its reply (internal/proxy/proxy.go).
use tx_firewall.Base.{
  ◌^◌, ◌*◌, ℕ, ◌+◌, ◌≤◌, String, Bytes, Bool, ◌↔◌, true, false, Option, none, some, List, [], ◌∷◌,
  ◌++◌, ◌≡◌, refl, sym, ◌∙◌, Result, ok, err, is_empty, str_eq, ltb, length, any, any-append, arith,
  Bool-cases, Option-cases, Result-cases, inl, inr, sum_by, sum_by-append, if◌then◌else◌,
}
use tx_firewall.Base.Exec.{Exec}
use tx_firewall.Geth.{Geth}
use tx_firewall.TxDecode.{Codec, Decoded, decode_raw_transaction}
use tx_firewall.Risk.{Verdict}
use tx_firewall.JsonRpc.{Request, Json, ErrorResponse, parse_requests}
use tx_firewall.Proxy.{
  rejected, forwarded, max_body_size, reasons, verdict_response, screen_decoded, screen_request,
  screen_requests, reply_to, handle_requests, handle,
}
use tx_firewall.Proxy.Log.{
  Entry, undecodable, transaction, failed, blocked, flagged, log_transaction, verdict_log,
  decoded_log, request_log, requests_log, parsed_log, handle_log,
}

-- A line that says that a transaction was refused, and one that describes a transaction.
abbrev pub is_refusal : Entry → Bool
is_refusal (undecodable e) = true
is_refusal (transaction t) = false
is_refusal (failed hash e) = true
is_refusal (blocked hash score rs) = true
is_refusal (flagged hash score rs) = false

abbrev pub lines : Entry → ℕ
lines (undecodable e) = 0
lines (transaction t) = 1
lines (failed hash e) = 0
lines (blocked hash score rs) = 0
lines (flagged hash score rs) = 0

abbrev pub sends : Request → ℕ
sends req = if str_eq req.method "eth_sendRawTransaction" then 1 else 0

module _ (g : Geth) (hex_encode : Bytes → String) (c : Codec) {W : Type 0}
    (screen : Decoded → Exec W Verdict) where
  -- The lines of a round say whether it ends in a response, and describe its transaction if not.
  abbrev Tells : List Entry → Option ErrorResponse → ℕ → Type 0
  Tells log none n = (any is_refusal log ≡ false) × (sum_by lines log ≡ n)
  Tells log (some x) n = any is_refusal log ≡ true

  verdict-Tells :
      (id : Bytes) (d : Decoded) (r : Result Verdict)
      → Tells
          (transaction (log_transaction g hex_encode d) ∷ verdict_log g hex_encode d r)
          (verdict_response id r)
          1
  unfolding verdict_log verdict_response sum_by
  verdict-Tells id d (err e) = refl
  verdict-Tells id d (ok v) = elim (Bool-cases v.block) [
    | inl stop ↦ rw stop refl
    | inr go ↦ elim (Bool-cases (is_empty (reasons v.findings))) [
      | inl silent ↦ rw (go, silent) (refl, omega arith)
      | inr noted ↦ rw (go, noted) (refl, omega arith)
    ]
  ]

  request-Tells :
      (req : Request) (w : W)
      → Tells
          (request_log g hex_encode c screen req w)
          (screen_request c screen req w).0
          (sends req)
  unfolding request_log screen_request sum_by screen_decoded verdict_response decoded_log
      verdict_log
  request-Tells req w = elim (Bool-cases (str_eq req.method "eth_sendRawTransaction")) [
    | inr other ↦ rw other (refl, refl)
    | inl send ↦ elim (Result-cases (decode_raw_transaction c req.params)) [
      | inl (d, e) ↦
          rw (send, e, screen_decoded, decoded_log) (verdict-Tells req.id d (screen d w).0)
      | inr (x, e) ↦ rw (send, e, screen_decoded, decoded_log) refl
    ]
  ]

  append-Tells :
      (here rest : List Entry) (o : Option ErrorResponse) (n m : ℕ)
      → Tells here none n
      → Tells rest o m
      → Tells (here ++ rest) o (n + m)
  append-Tells here rest none n m (p, e) (q, e') =
      (any-append is_refusal here rest ∙ rw (p, q), sum_by-append lines here rest ∙ rw (e, e'))
  append-Tells here rest (some x) n m (p, e) q = any-append is_refusal here rest ∙ rw (p, q)

  requests-Tells :
      (reqs : List Request) (w : W)
      → Tells
          (requests_log g hex_encode c screen reqs w)
          (screen_requests c screen reqs w).0
          (sum_by sends reqs)
  unfolding requests_log screen_requests sum_by
  requests-Tells [] w = (refl, refl)
  requests-Tells (req ∷ reqs) w = elim (Option-cases (screen_request c screen req w).0) [
    | inl passed ↦
        rw (passed, requests_log, screen_requests)
          (append-Tells _ _ _ (sends req) _ (rw passed at (request-Tells req w))
            (requests-Tells reqs (screen_request c screen req w).1))
    | inr (x, ended) ↦ rw (ended, requests_log, screen_requests) (rw ended at (request-Tells req w))
  ]

  reply-Tells :
      (body : Bytes) (log : List Entry) (o : Option ErrorResponse) (n : ℕ)
      → Tells log o n
      → (reply_to c screen body o ≡ forwarded body)
        ↔ ((any is_refusal log ≡ false) × (sum_by lines log ≡ n))
  unfolding reply_to
  reply-Tells body log none n h = (λ e. h, λ e. refl)
  reply-Tells body log (some x) n h =
      (λ e. absurd (rejected-ne-forwarded e), λ (p, e). absurd (true-ne-false (sym h ∙ p)))
    where
      rejected-ne-forwarded : rejected x ≡ forwarded body → ⊥
      rejected-ne-forwarded e = cc

      true-ne-false : true ≡ false → ⊥
      true-ne-false e = cc

  -- A body that is not too large and parses is forwarded exactly if the handler's log has no line
  -- that says that a transaction was undecodable, not screened or blocked, and one line that
  -- describes a transaction for each request that sends one.
  pub handle-recorded :
      (j : Json) (body : Bytes) (reqs : List Request) (w : W)
      → length body ≤ 5 * 2 ^ 20
      → parse_requests j body ≡ ok reqs
      → ((handle c screen j (ok body) w).0 ≡ forwarded body) ↔ (
          (any is_refusal (handle_log g hex_encode c screen j (ok body) w) ≡ false)
          × (sum_by lines (handle_log g hex_encode c screen j (ok body) w) ≡ sum_by sends reqs))
  unfolding handle handle_requests handle_log parsed_log
  handle-recorded j body reqs w small parsed =
      let fits : ltb max_body_size (length body) ≡ false = ground arith in
      rw (fits, parsed, handle_requests, parsed_log)
        (reply-Tells body _ (screen_requests c screen reqs w).0 (sum_by sends reqs)
          (requests-Tells reqs w))
