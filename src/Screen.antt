-- ===== src/Screen.antt =====
-- internal/screen/screen.go: simulate, analyse, judge.
pub mod Unsimulated
use tx_firewall.Base.{
  String, true, none, some, [], ◌∷◌, Result, ok, err, Error, as_node_error, concat,
}
use tx_firewall.Base.Exec.{Exec}
use tx_firewall.Geth.{Geth}
use tx_firewall.TxDecode.{Decoded}
use tx_firewall.Simulate.{CallFrame}
use tx_firewall.Analysis.{build}
use tx_firewall.Risk.{Verdict, Engine, evaluate}

-- The verdict on a transaction that the node refuses to execute.
unfoldable pub refusal : String → Verdict
refusal message = record {
  block = true;
  score = 0;
  findings =
      record {
        rule = "simulation";
        hard_block = true;
        weight = 0;
        reason = concat ("simulation failed: " ∷ message ∷ []);
      }
      ∷ [];
}

unfoldable pub verdict_of_error : Error → Result Verdict
unfolding refusal
verdict_of_error e = elim (as_node_error e) [ none ↦ err e | some message ↦ ok (refusal message) ]

module _ (g : Geth) {W : Type 0} (sim : Decoded → Exec W CallFrame) (engine : Engine W) where
  unfoldable pub screen_trace : Decoded → Result CallFrame → Exec W Verdict
  screen_trace d (err e) w = (verdict_of_error e, w)
  screen_trace d (ok trace) w = evaluate engine (build g d (some trace)) w

  -- Screener.Screen
  unfoldable pub screen : Decoded → Exec W Verdict
  unfolding screen_trace
  screen d w = screen_trace d (sim d w).0 (sim d w).1
