-- ===== src/Firewall/Headline.antt =====
-- Requests that hold a transaction touching a listed address, in the proxy's handler.
use mathlib.Core.Path.{subst}
use tx_firewall.Base.{
  Bytes, true, some, List, [], ◌∷◌, ◌++◌, ◌≡◌, ◌≢◌, ◌∙◌, ok, ◌||◌, Result-cases, inl, inr,
}
use tx_firewall.Base.Exec.{IfOk}
use tx_firewall.Geth.{Geth, Address}
use tx_firewall.TxDecode.{Codec, Decoded, decode_raw_transaction}
use tx_firewall.Simulate.{CallFrame}
use tx_firewall.Sanctions.{Checker}
use tx_firewall.Sanctions.Listed.{ListChecker, is_listed, list_checker}
use tx_firewall.Sanctions.Any.{any_checker}
use tx_firewall.Analysis.{build}
use tx_firewall.Analysis.Touched.{touches, is_party, contains-build}
use tx_firewall.Rules.{Rule}
use tx_firewall.Rules.Sanctioned
use tx_firewall.Risk.{Engine}
use tx_firewall.Screen.{screen, screen_trace}
use tx_firewall.JsonRpc.{Request, Json, parse_requests}
use tx_firewall.Proxy.{forwarded, handle}
use tx_firewall.Screen.Unsimulated.{verdict_of_error-IsBlocked}
use tx_firewall.Proxy.Passing.{IsBlocked, Passes-blocked, handle-not_forwarded}
use tx_firewall.Firewall.{ScreenerConfig, weighted_rules, rules, new_screener_engine, screener}
use tx_firewall.Firewall.Wiring.{checkers-first, new_screener_engine-inv}
use tx_firewall.Firewall.Listed.{check_all-IsHard, any_checker-listed, evaluate-IsHard}

-- If the node simulates the transaction in state `w`, its trace touches the address.
abbrev pub TouchesIn : {W : Type 0} → Geth → ScreenerConfig W → Address → Decoded → W → Type 0
TouchesIn g cfg addr d w =
    (t : CallFrame) → (cfg.simulator d w).0 ≡ ok t → (is_party g addr d || touches g addr t) ≡ true

module _ (g : Geth) {W : Type 0} (cfg : ScreenerConfig W) (list : ListChecker) (engine : Engine W)
    (loaded : cfg.list ≡ ok list) (built : new_screener_engine g cfg ≡ ok engine) where
  -- The first rule of the engine asks the list first.
  first_rule :
      (rest : List (Checker W)) × (others : List (Rule W)) × (engine.rules
        ≡ Sanctioned.rule g (any_checker (list_checker list ∷ rest)) ∷ others)
  unfolding rules
  first_rule =
      let (l, cs, percent, read, made, _, kept) = new_screener_engine-inv g cfg built in
      let same : l ≡ list = cc in
      let (rest, shape) = checkers-first list cfg.oracle {cs = cs} (rw (← same) made) in
      (
        rest,
        weighted_rules g cfg percent,
        subst (λ c. engine.rules ≡ Sanctioned.rule g (any_checker c) ∷ weighted_rules g cfg percent)
            shape kept,
      )

  module _ (addr : Address) (listed : is_listed list addr ≡ true) where
    -- Whatever the trace, if the transaction touches the address, its verdict is to block.
    screen-IsBlocked :
        (d : Decoded) (w : W)
        → TouchesIn g cfg addr d w
        → IfOk IsBlocked (screener g cfg engine d w).0
    unfolding screener screen screen_trace Sanctioned.rule Sanctioned.check_all
    screen-IsBlocked d w touched = elim (Result-cases (cfg.simulator d w).0) [
      | inl (t, p) ↦
          let (rest, others, shape) = first_rule in
          rw (p, screen_trace)
            (evaluate-IsHard engine _ others (build g d (some t)) _ shape (
              check_all-IsHard g (any_checker (list_checker list ∷ rest)) addr
                (λ w'. any_checker-listed list rest addr w' listed) _ [] _
                (contains-build g addr d t ∙ touched t p)))
      | inr (e, p) ↦ rw (p, screen_trace) (verdict_of_error-IsBlocked e)
    ]

-- The firewall is started with a sanctions list, whatever else is configured, and whatever the
-- node, the oracle and the caches answer. If a body parses to requests of which one sends a
-- transaction that decodes, and whenever the node simulates that transaction, its sender or
-- recipient is on the list, or a frame that is not rolled back calls, creates or sends tokens to
-- an address on the list, then the proxy does not forward the body, nor anything else.
pub handle-listed :
    (g : Geth) {W : Type 0} (cfg : ScreenerConfig W) (list : ListChecker) (engine : Engine W)
    (c : Codec) (j : Json) (addr : Address) (body b : Bytes) (before after : List Request)
    (req : Request) (d : Decoded) (w : W)
    → cfg.list ≡ ok list
    → new_screener_engine g cfg ≡ ok engine
    → is_listed list addr ≡ true
    → parse_requests j body ≡ ok (before ++ req ∷ after)
    → req.method ≡ "eth_sendRawTransaction"
    → decode_raw_transaction c req.params ≡ ok d
    → ((w' : W) → TouchesIn g cfg addr d w')
    → (handle c (screener g cfg engine) j (ok body) w).0 ≢ forwarded b
handle-listed g cfg list engine c j addr body b before after req d w loaded built listed parsed
      sends decodes touched =
    handle-not_forwarded c (screener g cfg engine) j body b before after req w parsed λ w' pass.
      Passes-blocked c (screener g cfg engine) req d w' sends decodes
        (screen-IsBlocked g cfg list engine loaded built addr listed d w' (touched w')) pass
