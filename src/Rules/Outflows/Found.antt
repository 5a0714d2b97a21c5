-- ===== src/Rules/Outflows/Found.antt =====
-- Which outflows the detector finds, where the node's answers do not change meanwhile.
use mathlib.Core.Path.{subst}
use tx_firewall.Base.{
  contains, ℕ, ◌*◌, ◌-◌, String, Bool, true, false, Option, none, some, List, [], ◌∷◌, ◌++◌, ◌≡◌,
  refl, ok, ◌&&◌, not, wrap, ltb, ◌==◌, if◌then◌else◌, arith, Bool-cases, inl, inr, append_assoc,
  append-nil,
}
use tx_firewall.Base.Exec.{Returns, Returns-bind, Returns-pure, on_error}
use tx_firewall.Geth.{Geth, Address, zero_address}
use tx_firewall.Analysis.{Analysis, created_in_tx}
use tx_firewall.Analysis.Flows.{Flow, net_out}
use tx_firewall.Chainstate.{Status, no_code, fresh, established, StatusReader, BalanceReader}
use tx_firewall.Rules.Outflows.{
  Outflow, is_skipped, exceeds, outflow_of, measure, inspect, find_in, find,
}

abbrev pub has_code : Status → Bool
has_code no_code = false
has_code fresh = true
has_code established = true

module _ (st : Address → Status) (bal : Address → Address → Option ℕ) (percent : ℕ)
    (a : Analysis) where
  -- The holder has code that the transaction did not create, and it sends more of the asset than it
  -- receives, by more than `percent` hundredths of the balance.
  abbrev pub is_loss : Flow → ℕ → Bool
  is_loss f balance =
      ltb f.into f.out
      && not (f.holder == zero_address)
      && not (contains f.holder a.created)
      && has_code (st f.holder)
      && not (balance == 0)
      && ltb (balance * percent) ((f.out - f.into) * 100)

  abbrev pub loss : Flow → Option ℕ → List Outflow
  loss f none = []
  loss f (some balance) =
      if is_loss f balance
      then record { asset = f.asset; holder = f.holder; net = f.out - f.into; balance = balance }
        ∷ []
      else []

  abbrev pub losses : List Flow → List Outflow
  losses [] = []
  losses (f ∷ fs) = loss f (bal f.asset f.holder) ++ losses fs

module _ (g : Geth) {W : Type 0} {P : W → Type 0} (status : StatusReader W)
    (balances : BalanceReader W) (st : Address → Status) (bal : Address → Address → Option ℕ)
    (statuses : (x : Address) → Returns P (status x) (ok (st x)))
    (holdings : (asset holder : Address)
      → Returns P (balances asset holder) (ok (bal asset holder)))
    (percent : ℕ) (a : Analysis) where
  -- The same without the status, as the code has it.
  abbrev measured : Flow → Status → Option ℕ → List Outflow
  measured f no_code b = []
  measured f fresh b = outflow_of percent f b
  measured f established b = outflow_of percent f b

  loss_skipped : (f : Flow) (b : Option ℕ) → is_skipped a f ≡ true → loss st bal percent a f b ≡ []
  unfolding is_skipped net_out created_in_tx
  loss_skipped f none h = refl
  loss_skipped f (some b) h = ground arith

  loss-measured :
      (f : Flow) (s : Status) (b : Option ℕ)
      → s ≡ st f.holder
      → is_skipped a f ≡ false
      → measured f s b ≡ loss st bal percent a f b
  unfolding is_skipped net_out created_in_tx outflow_of exceeds
  loss-measured f no_code none e h = refl
  loss-measured f fresh none e h = refl
  loss-measured f established none e h = refl
  loss-measured f no_code (some b) e h = rw (← e) (ground arith)
  loss-measured f fresh (some b) e h = rw (← e) (ground arith)
  loss-measured f established (some b) e h = rw (← e) (ground arith)

  measure-Returns :
      (f : Flow) (s : Status)
      → Returns P (measure g status balances percent f s) (ok (measured f s (bal f.asset f.holder)))
  unfolding measure
  measure-Returns f no_code = Returns-pure []
  measure-Returns f fresh =
      Returns-bind (balances f.asset f.holder) _ _ (holdings f.asset f.holder) (Returns-pure _)
  measure-Returns f established =
      Returns-bind (balances f.asset f.holder) _ _ (holdings f.asset f.holder) (Returns-pure _)

  status-Returns :
      (message : String) (x : Address) → Returns P (on_error (wrap message) (status x)) (ok (st x))
  status-Returns message x = record {
    at = λ w p. let (e, q) = (statuses x).at w p in (rw e refl, q);
  }

  inspect-Returns :
      (f : Flow)
      → Returns P
          (inspect g status balances percent a f)
          (ok (loss st bal percent a f (bal f.asset f.holder)))
  unfolding inspect
  inspect-Returns f = elim (Bool-cases (is_skipped a f)) [
    | inl skip ↦ rw (skip, loss_skipped f (bal f.asset f.holder) skip) (Returns-pure [])
    | inr look ↦
        rw (look, ← loss-measured f (st f.holder) (bal f.asset f.holder) refl look)
          (Returns-bind _ _ (st f.holder) (status-Returns _ f.holder)
            (measure-Returns f (st f.holder)))
  ]

  find_in-Returns :
      (found : List Outflow) (fs : List Flow)
      → Returns P
          (find_in g status balances percent a found fs)
          (ok (found ++ losses st bal percent a fs))
  unfolding find_in
  find_in-Returns found [] = rw append-nil (Returns-pure found)
  find_in-Returns found (f ∷ fs) =
      let more = loss st bal percent a f (bal f.asset f.holder) in
      Returns-bind (inspect g status balances percent a f) _ more (inspect-Returns f) (
        subst (λ l. Returns P (find_in g status balances percent a (found ++ more) fs) (ok l))
          (append_assoc found more (losses st bal percent a fs))
          (find_in-Returns (found ++ more) fs))

  -- As long as the node gives an address always the same status and the same balances, the
  -- detector gives no error and finds, in order, exactly the flows of holders that are not the zero
  -- address, have code and were not created by the transaction, and whose net loss of an asset is more than the percentage of a
  -- known balance that is not 0.
  pub find-losses :
      (w : W)
      → P w
      → ((find g status balances percent a w).0 ≡ ok (losses st bal percent a a.flows))
        × P (find g status balances percent a w).1
  unfolding find
  find-losses w p = (find_in-Returns [] a.flows).at w p
