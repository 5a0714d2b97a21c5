-- ===== src/Proxy/Passing.antt =====
-- When the proxy lets a request through to the node.
use tx_firewall.Base.{
  ◌^◌, ◌*◌, true, ◌++◌, ◌≤◌, String, Bytes, false, Option, none, some, List, [], ◌∷◌, ◌≡◌, ◌≢◌,
  refl, ◌↔◌, ◌⊎◌, inl, inr, Result, ok, err, arith, Result-cases, Option-cases, Bool-cases, str_eq,
  eq_iff, length, ltb,
}
use tx_firewall.Base.Exec.{Exec, IfOk}
use tx_firewall.TxDecode.{Codec, Decoded, decode_raw_transaction}
use tx_firewall.Risk.{Verdict}
use tx_firewall.JsonRpc.{Request, Json, ErrorResponse, parse_requests}
use tx_firewall.Proxy.{
  bad_request, forwarded, max_body_size, verdict_response, screen_decoded, screen_request,
  screen_requests, reply_to, handle_requests, handle,
}

abbrev pub IsBlocked : Verdict → Type 0
IsBlocked v = v.block ≡ true

module _ (c : Codec) {W : Type 0} (screen : Decoded → Exec W Verdict) where
  -- The request sends no transaction, or one that decodes, is screened without an error and is
  -- not blocked.
  abbrev pub Passes : Request → W → Type 0
  Passes req w =
      (req.method ≢ "eth_sendRawTransaction")
      ⊎ ((d : Decoded) × (v : Verdict) × (decode_raw_transaction c req.params ≡ ok d)
          × ((screen d w).0 ≡ ok v)
          × (v.block ≡ false))

  -- Each request passes in the state that the ones before it leave.
  abbrev pub AllPass : List Request → W → Type 0
  AllPass [] w = Unit
  AllPass (r ∷ rs) w = Passes r w × AllPass rs (screen_request c screen r w).1

  -- A request that sends a blocked transaction does not pass.
  pub Passes-blocked :
      (req : Request) (d : Decoded) (w : W)
      → req.method ≡ "eth_sendRawTransaction"
      → decode_raw_transaction c req.params ≡ ok d
      → IfOk IsBlocked (screen d w).0
      → Passes req w
      → ⊥
  Passes-blocked req d w sends decodes blocked (inl other) = other sends
  Passes-blocked req d w sends decodes blocked (inr (d', v, p, screened, open_)) =
      let same : d' ≡ d = cc in blocked-open (rw (← same, screened) at blocked) open_
    where
      blocked-open : v.block ≡ true → v.block ≡ false → ⊥
      blocked-open b o = cc

  verdict_response-none :
      (id : Bytes) (r : Result Verdict)
      → verdict_response id r ≡ none
      → (v : Verdict) × (r ≡ ok v) × (v.block ≡ false)
  unfolding verdict_response
  verdict_response-none id (ok v) h = (v, refl, ground arith)
  verdict_response-none id (err e) h = cc

  pub screen_request-none :
      (req : Request) (w : W) → (screen_request c screen req w).0 ≡ none → Passes req w
  unfolding screen_request screen_decoded
  screen_request-none req w h = elim (Bool-cases (str_eq req.method "eth_sendRawTransaction")) [
    | inl send ↦ elim (Result-cases (decode_raw_transaction c req.params)) [
      | inl (d, p) ↦
          let (v, screened, open_) =
            verdict_response-none req.id (screen d w).0 (rw (send, p, screen_decoded) at h) in
          inr (d, v, p, screened, open_)
      | inr (e, p) ↦ absurd (some-ne-none (rw (send, p, screen_decoded) at h))
    ]
    | inr other ↦ inl (λ e. ground (arith, eq_iff req.method "eth_sendRawTransaction"))
  ]
    where
      some-ne-none : {A : Type 0} {a : A} → some a ≡ none → ⊥
      some-ne-none e = cc

  Passes-screen_request :
      (req : Request) (w : W) → Passes req w → (screen_request c screen req w).0 ≡ none
  unfolding screen_request screen_decoded verdict_response
  Passes-screen_request req w (inl other) =
      ground (arith, eq_iff req.method "eth_sendRawTransaction")
  Passes-screen_request req w (inr (d, v, p, q, open_)) =
      elim (Bool-cases (str_eq req.method "eth_sendRawTransaction")) [
        | inl send ↦ rw (send, p, screen_decoded, q, verdict_response, open_)
        | inr other ↦ rw other
      ]

  screen_requests-none :
      (reqs : List Request) (w : W) → (screen_requests c screen reqs w).0 ≡ none → AllPass reqs w
  unfolding screen_requests
  screen_requests-none [] w h = tt
  screen_requests-none (r ∷ rs) w h = elim (Option-cases (screen_request c screen r w).0) [
    | inl p ↦ (screen_request-none r w p, screen_requests-none rs _ (ground arith))
    | inr (x, p) ↦ absurd (ground arith)
  ]

  AllPass-screen_requests :
      (reqs : List Request) (w : W) → AllPass reqs w → (screen_requests c screen reqs w).0 ≡ none
  unfolding screen_requests
  AllPass-screen_requests [] w h = refl
  AllPass-screen_requests (r ∷ rs) w (h, hs) =
      ground (arith, Passes-screen_request r w h, AllPass-screen_requests rs _ hs)

  reply_to-forwarded :
      (body b : Bytes) (o : Option ErrorResponse)
      → reply_to c screen body o ≡ forwarded b
      → (o ≡ none) × (b ≡ body)
  unfolding reply_to
  reply_to-forwarded body b none h = (refl, cc)
  reply_to-forwarded body b (some x) h = cc

  handle_requests-forwarded :
      (body b : Bytes) (r : Result (List Request)) (w : W)
      → (handle_requests c screen body r w).0 ≡ forwarded b
      → (reqs : List Request) × (b ≡ body) × (r ≡ ok reqs) × AllPass reqs w
  unfolding handle_requests
  handle_requests-forwarded body b (ok reqs) w h =
      let (passed, same) = reply_to-forwarded body b (screen_requests c screen reqs w).0 h in
      (reqs, same, refl, screen_requests-none reqs w passed)
  handle_requests-forwarded body b (err e) w h = cc

  AllPass-absurd :
      (before after : List Request) (req : Request)
      → ((w : W) → Passes req w → ⊥)
      → (w : W) → AllPass (before ++ req ∷ after) w
      → ⊥
  AllPass-absurd [] after req never w (pass, _) = never w pass
  AllPass-absurd (b ∷ before) after req never w (_, rest) =
      AllPass-absurd before after req never _ rest

  module _ (j : Json) where
    -- What is forwarded is the request's own body, and it passes every check.
    pub handle-forwarded :
        (body b : Bytes) (w : W)
        → (handle c screen j (ok body) w).0 ≡ forwarded b
        → (reqs : List Request) × (b ≡ body)
          × (length body ≤ 5 * 2 ^ 20)
          × (parse_requests j body ≡ ok reqs)
          × AllPass reqs w
    unfolding handle
    handle-forwarded body b w h = elim (Bool-cases (ltb max_body_size (length body))) [
      | inl large ↦ absurd (bad-ne-forwarded (rw large at h))
      | inr small ↦
          let (reqs, same, parsed, pass) =
            handle_requests-forwarded body b (parse_requests j body) w (rw small at h) in
          (reqs, same, ground arith, parsed, pass)
    ]
      where
        bad-ne-forwarded : {s : String} → bad_request s ≡ forwarded b → ⊥
        bad-ne-forwarded e = cc

    -- The proxy forwards a body to the node exactly if it is not too large and parses, and each of
    -- its requests either sends no transaction, or sends one that decodes, is screened without an
    -- error and is not blocked.
    pub handle-forwarded_iff :
        (body : Bytes) (w : W)
        → ((handle c screen j (ok body) w).0 ≡ forwarded body) ↔ (
            (reqs : List Request) × (length body ≤ 5 * 2 ^ 20)
            × (parse_requests j body ≡ ok reqs)
            × AllPass reqs w)
    unfolding handle handle_requests reply_to
    handle-forwarded_iff body w = (
      λ h.
          let (reqs, same, small, parsed, pass) = handle-forwarded body body w h in
          (reqs, small, parsed, pass),
      λ (reqs, small, parsed, pass).
          let fits : ltb max_body_size (length body) ≡ false = ground arith in
          rw (fits, parsed, handle_requests, AllPass-screen_requests reqs w pass),
    )

    -- A body is not forwarded if one of its requests passes in no state.
    pub handle-not_forwarded :
        (body b : Bytes) (before after : List Request) (req : Request) (w : W)
        → parse_requests j body ≡ ok (before ++ req ∷ after)
        → ((w' : W) → Passes req w' → ⊥)
        → (handle c screen j (ok body) w).0 ≢ forwarded b
    handle-not_forwarded body b before after req w parsed never = λ h.
        let (reqs, _, _, parsed', pass) = handle-forwarded body b w h in
        let same : reqs ≡ before ++ req ∷ after = cc in
        AllPass-absurd before after req never w (rw same at pass)
