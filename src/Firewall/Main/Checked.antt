-- ===== src/Firewall/Main/Checked.antt =====
-- The checks of the settings, the node and the oracle that main has made when it comes to serve.
use tx_firewall.Base.{
  ℕ, zero, suc, ◌<◌, ◌≤◌, ◌^◌, ◌-◌, String, Bytes, Option, none, some, List, [], ◌∷◌, ◌≡◌, ◌≢◌,
  refl, ap, >>=-then, sym, ◌∙◌, Result, ok, err, ok-injective, arith, str_eq, eq_iff, Bool-cases,
  Option-cases, inl, inr, ◌⊎◌, as_rpc_error,
}
use tx_firewall.Base.Int.{ℤ, pos, negsuc}
use tx_firewall.Base.Exec.{Exec, continue-inv, remapped-inv}
use tx_firewall.Geth.{Geth, Address, zero_address}
use tx_firewall.TxDecode.{Codec}
use tx_firewall.Simulate.{
  CallArgs, CallFrame, info, check_frame, trace_result, trace, verified, is_tx_rejection,
}
use tx_firewall.Simulate
use tx_firewall.Sanctions.{Checker}
use tx_firewall.Sanctions.Oracle
use tx_firewall.Sanctions.Oracle.{check_code}
use tx_firewall.Chainstate.Freshness
use tx_firewall.Chainstate.Freshness.{past_block}
use tx_firewall.Chainstate.Freshness.History.{block_before_lem}
use tx_firewall.Rules.{Rule}
use tx_firewall.Rules.Outflows.{check_percent}
use tx_firewall.Risk.{Engine, new_engine}
use tx_firewall.JsonRpc.{Json}
use tx_firewall.Firewall.{new_screener_engine, checkers}
use tx_firewall.Firewall.Settings.{Settings}
use tx_firewall.Firewall.Settings.Accepted.{IsFilled, IsSpelled, read_settings_iff, parse_uint-lt}
use tx_firewall.Firewall.Main.Served.{oracle_address, main-IsServed}
use tx_firewall.Sanctions.Listed.{ListChecker, load_list_checker}
use tx_firewall.Firewall.Main.{
  Client, Outside, World, Server, chainalysis_oracle, new_oracle, oracle_of, new_simulator,
  new_freshness, config, server, main,
}

-- The call by which RPCSimulator.Verify probes the node.
abbrev pub probe : CallArgs
probe = record { from = zero_address; to = some zero_address; gas = 100_000; value = 0; input = [] }

abbrev pub IsTyped : CallFrame → Type 0
IsTyped frame = IsFilled (info frame).type

trace_result-inv :
    (r : Result CallFrame) {frame : CallFrame}
    → trace_result r ≡ ok frame
    → (r ≡ ok frame) × IsTyped frame
unfolding trace_result
trace_result-inv (ok f) {frame} h = elim (Bool-cases (str_eq (info f).type "")) [
  | inl empty ↦ cc (rw empty at h)
  | inr full ↦
      let same : f ≡ frame = ok-injective (rw full at h) in
      rw (← same) (refl, λ e. ground (arith, eq_iff (info f).type ""))
]
trace_result-inv (err e) h = elim (Option-cases (as_rpc_error e)) [
  | inl none_ ↦ cc (rw (none_, trace_result) at h)
  | inr ((code, message), some_) ↦ elim (Bool-cases (is_tx_rejection code)) [
    | inl refused ↦ cc (rw (some_, trace_result, refused) at h)
    | inr failed ↦ cc (rw (some_, trace_result, failed) at h)
  ]
]

verified-inv : (r : Result CallFrame) → verified r ≡ ok tt → (frame : CallFrame) × (r ≡ ok frame)
unfolding verified
verified-inv (ok frame) h = (frame, refl)
verified-inv (err e) h = cc

check_code-inv :
    (g : Geth) (oracle : Address) (code : Bytes) → check_code g oracle code ≡ ok tt → code ≢ []
unfolding check_code
check_code-inv g oracle [] h = cc
check_code-inv g oracle (b ∷ bs) h = λ e. cc

check_percent-inv :
    (z : ℤ) {percent : ℕ}
    → check_percent z ≡ ok percent
    → (z ≡ pos percent) × (1 ≤ percent) × (percent ≤ 100)
unfolding check_percent
check_percent-inv (negsuc n) h = cc
check_percent-inv (pos n) h = ground arith

new_engine-inv :
    {W : Type 0} (z : ℤ) (rules : List (Rule W)) {e : Engine W}
    → new_engine z rules ≡ ok e
    → (z ≡ pos e.threshold) × (0 < e.threshold)
unfolding new_engine
new_engine-inv (pos zero) rules h = cc
new_engine-inv (pos (suc n)) rules {e} h = rw (← ok-injective h) (refl, omega arith)
new_engine-inv (negsuc n) rules h = cc

-- In some state of the outside, a call gives such a result.
abbrev pub Answered : {N A : Type 0} → Exec N A → (A → Type 0) → Type 0
Answered {N} {A} m P = (n : N) × (a : A) × ((m n).0 ≡ ok a) × P a

verify-Answered :
    {N : Type 0} (call_context : CallArgs → Exec N CallFrame) (n : N)
    → (Simulate.verify call_context n).0 ≡ ok tt
    → Answered (call_context probe) IsTyped
unfolding Simulate.verify
verify-Answered call_context n h =
    let (frame, answer) = verified-inv (trace call_context probe n).0 h in
    let (raw, typed) = trace_result-inv (call_context probe n).0 (unfold trace in answer) in
    (n, frame, raw, typed)

module _ (g : Geth) {N : Type 0} where
  new_simulator-Answered :
      (node : Client N) (n : N)
      → (new_simulator g node n).0 ≡ ok tt
      → Answered (node.call_context probe) IsTyped
  unfolding new_simulator
  new_simulator-Answered node n h = verify-Answered node.call_context n h

  -- The node has the state of the block where the window before its latest block begins.
  abbrev pub Reaches : Client N → ℕ → Type 0
  Reaches node window =
      Answered node.block_number
        λ latest. Answered (node.code_at zero_address (some (latest - window))) λ code. Unit {0}

  verify-Reaches :
      (node : Client N) (window : ℕ) (n : N)
      → (Freshness.verify g window node.block_number node.code_at n).0 ≡ ok tt
      → Reaches node window
  unfolding Freshness.verify past_block
  verify-Reaches node window n h =
      continue-inv (past_block g window node.block_number node.code_at n).0 _ _ h λ past found h₁.
        remapped-inv _ (node.block_number n).0 _ _ found λ latest answered made.
          remapped-inv _ (node.code_at zero_address (some past) _).0 _ _ h₁ λ code read _.
            let same : past ≡ latest - window =
              sym (ok-injective made) ∙ block_before_lem window latest in
            (n, latest, answered, (_, code, rw same at read, tt))

  new_freshness-Reaches :
      (node : Client N) (window : ℕ) (n : N)
      → (new_freshness g node window n).0 ≡ ok tt
      → Reaches node window
  unfolding new_freshness
  new_freshness-Reaches node window n h =
      remapped-inv _ (Freshness.verify g window node.block_number node.code_at n).0 _ _ h
        λ u checked _. verify-Reaches node window n checked

  -- An oracle is a contract on the chain of its node.
  abbrev pub IsOracle : Client N → Type 0
  IsOracle node = Answered (node.code_at (oracle_address g) none) λ code. code ≢ []

  new_oracle-IsOracle :
      (o : Outside N) (url : String) (n : N)
      → (new_oracle g o url n).0 ≡ ok tt
      → IsOracle (o.client url)
  unfolding new_oracle Oracle.verify chainalysis_oracle
  new_oracle-IsOracle o url n h = remapped-inv _ (o.dial url n).0 _ _ h λ u connected h₁.
      remapped-inv _ ((o.client url).code_at (oracle_address g) none _).0 _ _ h₁
        λ code read checked. (_, code, read, check_code-inv g (oracle_address g) code checked)

  -- SANCTIONS_ORACLE_RPC is not set, or its node has the oracle.
  abbrev pub HasOracle : Outside N → Type 0
  HasOracle o = let url = o.env "SANCTIONS_ORACLE_RPC" in (url ≡ "") ⊎ IsOracle (o.client url)

  oracle_of-HasOracle :
      (o : Outside N) (n : N) {oracle : Option (Result (Checker (World N)))}
      → (oracle_of g o (o.env "SANCTIONS_ORACLE_RPC") n).0 ≡ ok oracle
      → HasOracle o
  unfolding oracle_of
  oracle_of-HasOracle o n h = elim (Bool-cases (str_eq (o.env "SANCTIONS_ORACLE_RPC") "")) [
    | inl unset ↦ inl ((eq_iff _ _).0 unset)
    | inr set_ ↦ inr (
        continue-inv (new_oracle g o (o.env "SANCTIONS_ORACLE_RPC") n).0 _ _ (rw set_ at h)
          λ u checked _. new_oracle-IsOracle o _ n checked)
  ]

  module _ (o : Outside N) (c : Codec) (j : Json) where
    -- What main has checked of its settings and of what they name.
    pub record IsChecked (s : Settings) : Type 0 where
      pub threshold : ℕ
      pub is_threshold : s.threshold ≡ pos threshold
      pub positive : 0 < threshold
      pub percent : ℕ
      pub is_percent : s.outflow_percent ≡ pos percent
      pub from_one : 1 ≤ percent
      pub to_hundred : percent ≤ 100
      pub positive_blocks : 0 < s.fresh_blocks
      pub small_blocks : s.fresh_blocks < 2 ^ 64
      pub simulates : Answered ((o.client s.upstream_url).call_context probe) IsTyped
      pub reaches : Reaches (o.client s.upstream_url) s.fresh_blocks
      pub lists :
          (list : ListChecker) × (load_list_checker g o.quote s.sanctions_file
              (o.read_lines s.sanctions_file)
            ≡ ok list)
      pub has_oracle : HasOracle o

    pub main-IsChecked :
        (n : N) (srv : Server N)
        → (main g o c j n).0 ≡ ok srv
        → (s : Settings) × IsSpelled o.env o.slog o.parse_url s
          × IsChecked s
          × (srv.addr ≡ s.listen_addr)
    unfolding server new_screener_engine config
    main-IsChecked n srv started =
        let run = main-IsServed g o c j n started in
        let s = run.settings in
        let spelled = (read_settings_iff o.env o.slog o.parse_url s).0 run.read in
        let made = run.screens in
        >>=-then (checkers made.list made.oracle) _ made.built λ cs _ h₁.
          >>=-then (check_percent s.outflow_percent) _ h₁ λ percent checked h₂.
            let (is_threshold, positive) = new_engine-inv s.threshold _ h₂ in
            let (is_percent, from_one, to_hundred) = check_percent-inv s.outflow_percent checked in
            (
              s,
              spelled,
              record {
                threshold = run.screener.engine.threshold;
                is_threshold = is_threshold;
                positive = positive;
                percent = percent;
                is_percent = is_percent;
                from_one = from_one;
                to_hundred = to_hundred;
                positive_blocks = spelled.has_blocks;
                small_blocks = parse_uint-lt _ spelled.spells_blocks;
                simulates = new_simulator-Answered _ run.n₁ run.simulated;
                reaches = new_freshness-Reaches _ _ run.n₂ run.aged;
                lists = (made.list, made.loaded);
                has_oracle = oracle_of-HasOracle o run.n₃ made.asked;
              },
              ap (λ (v : Server N). v.addr) (sym run.served),
            )
