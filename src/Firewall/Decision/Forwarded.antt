-- ===== src/Firewall/Decision/Forwarded.antt =====
-- Which bodies the firewall of cmd/firewall forwards, in the terms of their transactions' traces.
use tx_firewall.Base.{
  ◌^◌, ◌*◌, ℕ, ◌≤◌, Bytes, Error, Bool, true, false, List, [], ◌∷◌, ◌≡◌, ◌≢◌, sym, ◌∙◌, ap, ◌↔◌,
  ◌⊎◌, inl, inr, ok, err, Result, Option-cases, ltb, Result-cases, Bool-cases, ◌||◌, leb, length,
  str_eq, ok-injective,
}
use tx_firewall.Base.Exec.{Exec, Returns, IfOk}
use tx_firewall.Geth.{Geth}
use tx_firewall.TxDecode.{Codec, Decoded, decode_raw_transaction}
use tx_firewall.Simulate.{CallFrame}
use tx_firewall.Sanctions.Listed.{ListChecker}
use tx_firewall.JsonRpc.{Request, Json, parse_requests}
use tx_firewall.Risk.{Verdict, Engine}
use tx_firewall.Proxy.{
  max_body_size, forwarded, handle, handle_requests, screen_requests, screen_request,
  screen_decoded,
}
use tx_firewall.Proxy.Passing.{IsBlocked, Passes, AllPass, handle-forwarded_iff}
use tx_firewall.Screen.{screen, screen_trace}
use tx_firewall.Screen.Unsimulated.{verdict_of_error-IsBlocked}
use tx_firewall.Firewall.{ScreenerConfig, screener, new_screener_engine}
use tx_firewall.Firewall.Decision.{Answers, points, touches_sanctioned}
use tx_firewall.Firewall.Decision.Weighted.{IsAnswering}
use tx_firewall.Firewall.Decision.Taken.{IsSetTo, screener-decides}

-- What decides: the answers of the oracle and the node, the traces of the transactions, and the
-- settings.
pub record Facts : Type 0 where
  pub known : Answers
  -- what the simulator gives: a trace, or an error
  pub trace : Decoded → Result CallFrame
  pub list : ListChecker
  pub percent : ℕ
  pub threshold : ℕ

module _ (g : Geth) (c : Codec) (facts : Facts) where
  open facts use {known, trace, list, percent, threshold}

  -- The trace touches a sanctioned address, or its points are the threshold or more.
  abbrev pub is_blocked : Decoded → CallFrame → Bool
  is_blocked d t =
      touches_sanctioned g known percent d t list || leb threshold (points g known percent d t)

  -- The request sends no transaction, or one that decodes and is simulated, and whose trace is not
  -- blocked.
  abbrev pub IsHarmless : Request → Type 0
  IsHarmless req =
      (req.method ≢ "eth_sendRawTransaction")
      ⊎ ((d : Decoded) × (t : CallFrame) × (decode_raw_transaction c req.params ≡ ok d)
          × (trace d ≡ ok t)
          × (is_blocked d t ≡ false))

  abbrev pub AllHarmless : List Request → Type 0
  AllHarmless [] = Unit
  AllHarmless (r ∷ rs) = IsHarmless r × AllHarmless rs

  module _ {W : Type 0} (P : W → Type 0) (cfg : ScreenerConfig W) (engine : Engine W)
      (set : IsSetTo cfg list percent threshold) (built : new_screener_engine g cfg ≡ ok engine)
      (answers : IsAnswering P cfg known)
      (traces : (d : Decoded) → Returns P (cfg.simulator d) (trace d)) where
    abbrev run : Decoded → Exec W Verdict
    run = screener g cfg engine

    -- With a trace there is a verdict, and without one there is none that lets the transaction pass.
    decided :
        (d : Decoded) (t : CallFrame) (w : W)
        → trace d ≡ ok t
        → P w
        → (v : Verdict) × ((run d w).0 ≡ ok v) × (v.block ≡ is_blocked d t) × P (run d w).1
    decided d t w e p =
        let (v, given, _, block, q) =
          screener-decides g P cfg known list percent threshold d t engine w set built answers
            (rw e at (traces d)) p in
        (v, given, block, q)

    undecided :
        (d : Decoded) (x : Error) (w : W)
        → trace d ≡ err x
        → P w
        → IfOk IsBlocked (run d w).0 × P (run d w).1
    unfolding screener screen screen_trace
    undecided d x w e p =
        let (failed, q) = (traces d).at w p in
        rw (failed, e, screen_trace) (verdict_of_error-IsBlocked x, q)

    run-keeps : (d : Decoded) (w : W) → P w → P (run d w).1
    run-keeps d w p = elim (Result-cases (trace d)) [
      | inl (t, e) ↦ let (_, _, _, q) = decided d t w e p in q
      | inr (x, e) ↦ (undecided d x w e p).1
    ]

    screen_request-keeps : (req : Request) (w : W) → P w → P (screen_request c run req w).1
    unfolding screen_request screen_decoded
    screen_request-keeps req w p = elim (Bool-cases (str_eq req.method "eth_sendRawTransaction")) [
      | inr other ↦ rw other p
      | inl sends ↦ elim (Result-cases (decode_raw_transaction c req.params)) [
        | inl (d, e) ↦ rw (sends, e, screen_decoded) (run-keeps d w p)
        | inr (x, e) ↦ rw (sends, e, screen_decoded) p
      ]
    ]

    Passes-IsHarmless : (req : Request) (w : W) → P w → Passes c run req w → IsHarmless req
    Passes-IsHarmless req w p (inl other) = inl other
    Passes-IsHarmless req w p (inr (d, v, decodes, screened, open_)) =
        elim (Result-cases (trace d)) [
          | inl (t, simulated) ↦
              let (u, e, block, _) = decided d t w simulated p in
              let same : u ≡ v = ok-injective (sym e ∙ screened) in
              inr (d, t, decodes, simulated, sym block ∙ (ap (λ x. x.block) same ∙ open_))
          | inr (x, failed) ↦
              let blocked : v.block ≡ true = rw screened at (undecided d x w failed p).0 in
              absurd (true-ne-false (sym blocked ∙ open_))
        ]
      where
        true-ne-false : true ≡ false → ⊥
        true-ne-false e = cc

    IsHarmless-Passes : (req : Request) (w : W) → P w → IsHarmless req → Passes c run req w
    IsHarmless-Passes req w p (inl other) = inl other
    IsHarmless-Passes req w p (inr (d, t, decodes, simulated, harmless)) =
        let (u, e, block, _) = decided d t w simulated p in inr (d, u, decodes, e, block ∙ harmless)

    AllPass-AllHarmless :
        (reqs : List Request) (w : W) → P w → AllPass c run reqs w ↔ AllHarmless reqs
    AllPass-AllHarmless [] w p = (λ h. tt, λ h. tt)
    AllPass-AllHarmless (r ∷ rs) w p =
        let (to, from) =
          AllPass-AllHarmless rs (screen_request c run r w).1 (screen_request-keeps r w p) in
        (
          λ (h, hs). (Passes-IsHarmless r w p h, to hs),
          λ (h, hs). (IsHarmless-Passes r w p h, from hs),
        )

    screen_requests-keeps : (reqs : List Request) (w : W) → P w → P (screen_requests c run reqs w).1
    unfolding screen_requests
    screen_requests-keeps [] w p = p
    screen_requests-keeps (r ∷ rs) w p =
        let q = screen_request-keeps r w p in
        elim (Option-cases (screen_request c run r w).0) [
          | inl passed ↦
              rw (passed, screen_requests) (screen_requests-keeps rs (screen_request c run r w).1 q)
          | inr (x, ended) ↦ rw (ended, screen_requests) q
        ]

    -- Whatever is asked, the answers stay the same.
    pub handle-keeps : (j : Json) (body : Result Bytes) (w : W) → P w → P (handle c run j body w).1
    unfolding handle handle_requests
    handle-keeps j (err e) w p = p
    handle-keeps j (ok body) w p = elim (Bool-cases (ltb max_body_size (length body))) [
      | inl large ↦ rw large p
      | inr small ↦ elim (Result-cases (parse_requests j body)) [
        | inl (reqs, e) ↦ rw (small, e, handle_requests) (screen_requests-keeps reqs w p)
        | inr (x, e) ↦ rw (small, e, handle_requests) p
      ]
    ]

    -- While the oracle, if there is one, and the node give the same answers to the same questions,
    -- and the simulator the same trace or error: the firewall that newScreener built from these
    -- settings forwards a body exactly if it is not too large and parses, and each of its requests
    -- sends no transaction, or sends one that decodes and has a trace, in which no address of the
    -- analysis is on the list or flagged by the oracle, and whose points are below the threshold.
    pub handle-decides :
        (j : Json) (body : Bytes) (w : W)
        → P w
        → ((handle c run j (ok body) w).0 ≡ forwarded body) ↔ (
            (reqs : List Request) × (length body ≤ 5 * 2 ^ 20)
            × (parse_requests j body ≡ ok reqs)
            × AllHarmless reqs)
    handle-decides j body w p =
        let (to, from) = handle-forwarded_iff c run j body w in
        (
          λ h.
              let (reqs, small, parsed, pass) = to h in
              (reqs, small, parsed, (AllPass-AllHarmless reqs w p).0 pass),
          λ (reqs, small, parsed, harmless).
              from (reqs, small, parsed, (AllPass-AllHarmless reqs w p).1 harmless),
        )
